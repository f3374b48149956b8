-- ===== src/LogText/Names.antt =====
-- `strrchr` and the two parts that the loggers make of a file name.
use mathlib.Core.Path.{ap₂}
use simplechatserver.Prelude.{
  subst, ◌≡◌, sym, ◌∙◌, inl, inr, Bool-cases, Option-cases, false, Option, none, some, [], ◌∷◌,
  ◌++◌, ◌==◌,
}
use simplechatserver.LogText.{Text, split_last}

-- No byte of the text is a slash.
abbrev pub LacksSlash : Text → Type 0
LacksSlash [] = Unit
LacksSlash (c ∷ s) = ((c == b'/') ≡ false) × LacksSlash s

pub split_last-none : (s : Text) → split_last s ≡ none → LacksSlash s
unfolding split_last
split_last-none [] e = tt
split_last-none (c ∷ s) e = elim (Option-cases (split_last s)) [
  | inr ((dir, name), h) ↦
      let bad : ◌≡◌ {A = Option (Text × Text)} (some (c ∷ dir, name)) none =
        sym (rw (h, split_last)) ∙ e in
      cc
  | inl h ↦ elim (Bool-cases (c == b'/')) [
    | inl t ↦
        let bad : ◌≡◌ {A = Option (Text × Text)} (some (c ∷ [], s)) none = sym (rw (h, t)) ∙ e in cc
    | inr t ↦ (t, split_last-none s h)
  ]
]

-- The parts put together are the file name, and the second one has no slash.
pub split_last-append :
    (s dir name : Text) → split_last s ≡ some (dir, name) → (dir ++ name ≡ s) × LacksSlash name
unfolding split_last
split_last-append [] dir name e = cc
split_last-append (c ∷ s) dir name e = elim (Option-cases (split_last s)) [
  | inr ((dir', name'), h) ↦
      let (joined, lacks) = split_last-append s dir' name' h in
      let same : ◌≡◌ {A = Option (Text × Text)} (some (c ∷ dir', name')) (some (dir, name)) =
        sym (rw (h, split_last)) ∙ e in
      let front : c ∷ dir' ≡ dir = cc in
      let back : name' ≡ name = cc in (cc, subst LacksSlash back lacks)
  | inl h ↦ elim (Bool-cases (c == b'/')) [
    | inl t ↦
        let same : ◌≡◌ {A = Option (Text × Text)} (some (c ∷ [], s)) (some (dir, name)) =
          sym (rw (h, t)) ∙ e in
        let front : c ∷ [] ≡ dir = cc in
        let back : s ≡ name = cc in
        (ap₂ (λ d n. d ++ n) (sym front) (sym back), subst LacksSlash back (split_last-none s h))
    | inr t ↦
        let bad : ◌≡◌ {A = Option (Text × Text)} none (some (dir, name)) = sym (rw (h, t)) ∙ e in cc
  ]
]
