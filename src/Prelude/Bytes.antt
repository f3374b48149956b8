-- ===== src/Prelude/Bytes.antt =====
-- C byte arrays as lists: `memset`, `memcpy`, `strcpy` and `strlen`, with their bounds.
use Prim.Native.Nat.{ℕ, zero, suc, ◌+◌, ◌-◌, ◌≤◌, ◌<◌}
use mathlib.Core.Path.{◌≡◌, refl, sym, ap, ap₂, ◌∙◌}
use mathlib.Core.List.{List, [], ◌∷◌, ◌++◌, append_assoc}
use mathlib.Core.Option
use mathlib.Core.Option.{Option, none, some}
use native.Mathlib.Omega.{arith}
use simplechatserver.Prelude.Tests.{leb, le→leb, ◌==◌, if◌then◌else◌}
use simplechatserver.Prelude.Lists.{
  length, take, drop, replicate, length-append, length-replicate, length-drop,
}

-- `memset(buf, 0, n)` of an array of `n` bytes.
abbrev pub zeros : ℕ → List ℕ
zeros n = replicate n 0

-- `memcpy(buf + at, bs, …)`: `none` where it would leave the array.
unfoldable pub copy_at : ℕ → List ℕ → List ℕ → Option (List ℕ)
copy_at at bs buf =
    if leb (at + length bs) (length buf)
    then some (take at buf ++ (bs ++ drop (at + length bs) buf))
    else none

-- The C string that starts an array: `none` if no byte of the array is zero.
unfoldable pub c_string : List ℕ → Option (List ℕ)
c_string [] = none
c_string (b ∷ bs) = if b == 0 then some [] else Option.map (◌∷◌ b) (c_string bs)

-- `strcpy(buf, s)`, with the terminator.
unfoldable pub copy_string : List ℕ → List ℕ → Option (List ℕ)
unfolding copy_at
copy_string s buf = copy_at 0 (s ++ (0 ∷ [])) buf

-- No byte of the list is zero.
abbrev pub IsText : List ℕ → Type 0
IsText [] = Unit
IsText (b ∷ bs) = (0 < b) × IsText bs

-- An array of `n` bytes that holds `bs` and is zero from there on.
abbrev pub pad : ℕ → List ℕ → List ℕ
pad n bs = bs ++ zeros (n - length bs)

pub take-append_self : (xs ys : List ℕ) → take (length xs) (xs ++ ys) ≡ xs
take-append_self [] ys = refl
take-append_self (x ∷ xs) ys = ap (◌∷◌ x) (take-append_self xs ys)

pub drop-append-add : (xs ys : List ℕ) (n m : ℕ) → m ≡ length xs + n → drop m (xs ++ ys) ≡ drop n ys
drop-append-add [] ys n m e = ap (λ k. drop k ys) (omega arith)
drop-append-add (x ∷ xs) ys n zero e = absurd (omega arith)
drop-append-add (x ∷ xs) ys n (suc m) e = drop-append-add xs ys n m (omega arith)

pub drop-zeros : (n m k : ℕ) → k ≡ m - n → drop n (zeros m) ≡ zeros k
drop-zeros zero m k e = ap zeros (omega arith)
drop-zeros (suc n) zero zero e = refl
drop-zeros (suc n) zero (suc k) e = absurd (omega arith)
drop-zeros (suc n) (suc m) k e = drop-zeros n m k (omega arith)

-- Copying just behind what a padded array holds extends it.
pub copy_at-pad :
    (n : ℕ) (xs bs : List ℕ)
    → length xs + length bs ≤ n
    → copy_at (length xs) bs (pad n xs) ≡ some (pad n (xs ++ bs))
unfolding copy_at
copy_at-pad n xs bs h = rw (le→leb _ _ fits) (
    ap some (
      ap₂ (λ us vs. us ++ (bs ++ vs)) (take-append_self xs (zeros (n - length xs)))
        (drop-append-add xs (zeros (n - length xs)) (length bs) _ refl
          ∙ drop-zeros (length bs) (n - length xs) (n - length (xs ++ bs))
              (omega (arith, length-append xs bs)))
      ∙ sym (append_assoc xs bs _)))
  where
    fits : length xs + length bs ≤ length (pad n xs)
    fits = omega (
      arith,
      length-append xs (zeros (n - length xs)),
      length-replicate {A = ℕ} (n - length xs) 0,
    )

pub c_string-terminated : (xs rest : List ℕ) → IsText xs → c_string (xs ++ (0 ∷ rest)) ≡ some xs
unfolding c_string
c_string-terminated [] rest t = refl
c_string-terminated (b ∷ xs) rest t = ground (arith, c_string-terminated xs rest t.1)

pub c_string-pad : (n : ℕ) (xs : List ℕ) → IsText xs → length xs < n → c_string (pad n xs) ≡ some xs
c_string-pad n xs t h =
    let e : n - length xs ≡ suc (n - length xs - 1) = omega arith in
    rw e (c_string-terminated xs (zeros (n - length xs - 1)) t)

-- After `strcpy` the array starts with the string.
pub c_string-copy_string :
    (s buf : List ℕ)
    → IsText s
    → length s < length buf
    → (buf' : List ℕ) × (copy_string s buf ≡ some buf')
      × (c_string buf' ≡ some s)
      × (length buf' ≡ length buf)
unfolding copy_string
c_string-copy_string s buf t h = (
  (s ++ (0 ∷ [])) ++ drop (length (s ++ (0 ∷ []))) buf,
  rw (le→leb _ _ fits) (ap (λ k. some ((s ++ (0 ∷ [])) ++ drop k buf)) (omega arith)),
  ap c_string (append_assoc s (0 ∷ []) _) ∙ c_string-terminated s _ t,
  omega (
    arith,
    length-append (s ++ (0 ∷ [])) (drop (length (s ++ (0 ∷ []))) buf),
    length-drop (length (s ++ (0 ∷ []))) buf,
    fits,
  ),
)
  where
    fits : 0 + length (s ++ (0 ∷ [])) ≤ length buf
    fits = omega (arith, length-append s (0 ∷ []))
