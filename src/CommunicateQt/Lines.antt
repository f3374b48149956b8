-- ===== src/CommunicateQt/Lines.antt =====
-- communicate_qt.cpp: what is left of the bytes of one `read`.
use mathlib.Core.Option
use simplechatserver.Prelude.{
  ℕ, suc, ◌-◌, ◌<◌, ◌≡◌, refl, ap, ◌∙◌, inl, inr, Bool, Bool-cases, true, false, ◌||◌, Option, some,
  [], ◌∷◌, ◌++◌, length, set, ◌==◌, if◌then◌else◌, arith, zeros, c_string,
}
use simplechatserver.CommunicateQt.{Text, strcspn, cut_buffer, buffer_size}

-- The bytes in front of the first "\n" or zero.
abbrev pub first_line : Text → Text
first_line [] = []
first_line (b ∷ bs) = if (b == b'\n') || (b == 0) then [] else b ∷ first_line bs

-- The C string of an array, cut at its first "\n".
cut_text : Text → Option Text
cut_text a = c_string (set a (strcspn a) 0)

or_right : (x y : Bool) → (x || y) ≡ false → y ≡ false
or_right true y e = cc
or_right false y e = e

cut_text-append : (bs : Text) (n : ℕ) → cut_text (bs ++ zeros (suc n)) ≡ some (first_line bs)
unfolding cut_text strcspn c_string
cut_text-append [] n = refl
cut_text-append (b ∷ bs) n = elim (Bool-cases ((b == b'\n') || (b == 0))) [
  | inl stop ↦ rw stop refl
  | inr goes ↦
      let other : (b == 0) ≡ false = or_right (b == b'\n') (b == 0) goes in
      rw goes (rw other (ap (Option.map (◌∷◌ b)) (cut_text-append bs n)))
]

-- What `handle_client` makes of the bytes of one `read`: the line that they start with.
pub c_string-cut_buffer :
    (received : Text)
    → length received < buffer_size
    → c_string (cut_buffer received) ≡ some (first_line received)
unfolding cut_buffer cut_text
c_string-cut_buffer received h =
    let e : buffer_size - length received ≡ suc (buffer_size - length received - 1) = omega arith in
    ap (λ n. cut_text (received ++ zeros n)) e
    ∙ cut_text-append received (buffer_size - length received - 1)

-- Nothing behind the first "\n" counts.
pub first_line-append :
    (a b : Text) → first_line (a ++ (b'\n' ∷ b)) ≡ first_line (a ++ (b'\n' ∷ []))
first_line-append [] b = refl
first_line-append (x ∷ a) b = elim (Bool-cases ((x == b'\n') || (x == 0))) [
  | inl stop ↦ rw stop
  | inr goes ↦ rw goes (ap (◌∷◌ x) (first_line-append a b))
]
