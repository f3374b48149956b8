-- ===== src/LogText/Arrays.antt =====
-- The writes that make a line, on a C array given as what it holds.
use mathlib.Core.Path.{ap₂}
use simplechatserver.Prelude.{
  ℕ, zero, suc, ◌+◌, ◌-◌, ◌≤◌, ◌<◌, ◌≡◌, refl, sym, ap, ◌∙◌, inl, inr, Bool-cases, Option, none,
  some, [], ◌∷◌, ◌++◌, length, length-append, length-set, length-drop, take, length-take, take-all,
  drop, set, ltb, lt→ltb, not-lt→ltb, le→leb, leb, leb→le, arith, copy_at, IsText, take-append_self,
  drop-append-add,
}
use simplechatserver.LogText.{Text, snprintf_at, put, size_minus}

pub IsText-append : (xs ys : Text) → IsText xs → IsText ys → IsText (xs ++ ys)
IsText-append [] ys t u = u
IsText-append (x ∷ xs) ys t u = (t.0, IsText-append xs ys t.1 u)

pub size_minus-le : (a b : ℕ) → b ≤ a → size_minus a b ≡ a - b
size_minus-le a b h = rw (le→leb _ _ h)

-- Writing over the front of what follows `xs`.
copy_at-append :
    (xs bs ys : Text)
    → length bs ≤ length ys
    → copy_at (length xs) bs (xs ++ ys) ≡ some (xs ++ (bs ++ drop (length bs) ys))
unfolding copy_at
copy_at-append xs bs ys h =
    let fits : length xs + length bs ≤ length (xs ++ ys) = omega (arith, length-append xs ys) in
    rw (le→leb _ _ fits) (
      ap₂ (λ u v. some (u ++ (bs ++ v))) (take-append_self xs ys)
        (drop-append-add xs ys (length bs) _ refl))

set-append : (xs ys : Text) (i v : ℕ) → set (xs ++ ys) (length xs + i) v ≡ xs ++ set ys i v
set-append [] ys i v = ap (λ k. set ys k v) (omega arith)
set-append (x ∷ xs) ys i v =
    let next : suc (length xs) + i ≡ suc (length xs + i) = omega arith in
    ap (λ k. set (x ∷ (xs ++ ys)) k v) next ∙ ap (◌∷◌ x) (set-append xs ys i v)

copy_at-length :
    (at : ℕ) (bs buf buf' : Text) → copy_at at bs buf ≡ some buf' → length buf' ≡ length buf
unfolding copy_at
copy_at-length at bs buf buf' e = elim (Bool-cases (leb (at + length bs) (length buf))) [
  | inr h ↦ let bad : none ≡ some buf' = sym (rw h) ∙ e in cc
  | inl h ↦
      let made : some (take at buf ++ (bs ++ drop (at + length bs) buf)) ≡ some buf' =
        sym (rw h) ∙ e in
      let here : take at buf ++ (bs ++ drop (at + length bs) buf) ≡ buf' = cc in
      let fits : at + length bs ≤ length buf = leb→le _ _ h in
      omega (
        arith,
        ap length here,
        length-append (take at buf) (bs ++ drop (at + length bs) buf),
        length-append bs (drop (at + length bs) buf),
        length-take at buf,
        length-drop (at + length bs) buf,
      )
]

pub snprintf_at-length :
    (at n : ℕ) (text buf buf' : Text)
    → snprintf_at at n text buf ≡ some buf'
    → length buf' ≡ length buf
unfolding snprintf_at
snprintf_at-length at zero text buf buf' e = let same : buf ≡ buf' = cc in ap length (sym same)
snprintf_at-length at (suc n) text buf buf' e =
    copy_at-length at (take n text ++ (0 ∷ [])) buf buf' e

pub put-length : (i v : ℕ) (buf buf' : Text) → put i v buf ≡ some buf' → length buf' ≡ length buf
put-length i v buf buf' e = elim (Bool-cases (ltb i (length buf))) [
  | inr h ↦ let bad : ◌≡◌ {A = Option Text} none (some buf') = sym (rw h) ∙ e in cc
  | inl h ↦
      let made : some (set buf i v) ≡ some buf' = sym (rw h) ∙ e in
      let here : set buf i v ≡ buf' = cc in ap length (sym here) ∙ length-set buf i v
]

pub put_outside : (i v : ℕ) (buf : Text) → length buf ≤ i → put i v buf ≡ none
put_outside i v buf h = rw (not-lt→ltb _ _ h)

pub put-append :
    (xs ys : Text) (i k v : ℕ)
    → k ≡ length xs + i
    → i < length ys
    → put k v (xs ++ ys) ≡ some (xs ++ set ys i v)
put-append xs ys i k v e h =
    let inside : k < length (xs ++ ys) = omega (arith, length-append xs ys) in
    rw (lt→ltb _ _ inside) (ap some (ap (λ j. set (xs ++ ys) j v) e ∙ set-append xs ys i v))

-- A text that fits, its terminator counted, is printed whole behind what stands in front of it.
pub snprintf_at-append :
    (n : ℕ) (xs text ys : Text)
    → length text < n
    → length text < length ys
    → snprintf_at (length xs) n text (xs ++ ys)
      ≡ some (xs ++ ((text ++ (0 ∷ [])) ++ drop (length (text ++ (0 ∷ []))) ys))
unfolding snprintf_at
snprintf_at-append zero xs text ys h k = absurd (omega arith)
snprintf_at-append (suc n) xs text ys h k =
    let whole : take n text ≡ text = take-all n text (omega arith) in
    rw whole (copy_at-append xs (text ++ (0 ∷ [])) ys (omega (arith, length-append text (0 ∷ []))))
