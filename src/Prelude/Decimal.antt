-- ===== src/Prelude/Decimal.antt =====
-- `printf` of numbers: `%d`, and `%0wd` with leading zeros.
use Prim.Native.Char.{code}
use Prim.Native.String.{String}
use Prim.Native.Nat.{ℕ, zero, suc, ◌+◌, ◌-◌, ◌*◌, ◌/◌, ◌%◌, ◌≤◌}
use mathlib.Core.Path.{◌≡◌, refl, sym, ap, ◌∙◌}
use mathlib.Core.Logic.{inl, inr}
use mathlib.Core.List.{List, [], ◌∷◌, ◌++◌}
use native.Mathlib.Omega.{arith}
use simplechatserver.Prelude.Tests.{◌==◌, ==_iff, Bool-cases, if◌then◌else◌}
use simplechatserver.Prelude.Lists.{length, replicate}

-- The bytes of an ASCII literal.
abbrev pub codes : String → List ℕ
codes String.[] = []
codes (String.◌∷◌ c s) = code c ∷ codes s

-- The digits of `n` in front of `out`, on fuel: none for 0.
unfoldable pub digits : ℕ → ℕ → List ℕ → List ℕ
digits zero n out = out
digits (suc fuel) n out =
    let rest = digits fuel (n / 10) ((b'0' + n % 10) ∷ out) in if n == 0 then out else rest

-- `%d` of a number that is not negative; it has at most `n` digits.
unfoldable pub decimal : ℕ → List ℕ
unfolding digits
decimal n = if n == 0 then b'0' ∷ [] else digits n n []

-- `%0wd`
unfoldable pub padded : ℕ → ℕ → List ℕ
unfolding decimal
padded w n = replicate (w - length (decimal n)) b'0' ++ decimal n

-- What a decimal text stands for.
abbrev pub read_decimal : List ℕ → ℕ → ℕ
read_decimal [] n = n
read_decimal (c ∷ s) n = read_decimal s (n * 10 + (c - b'0'))

read_decimal-digits :
    (fuel n : ℕ) (out : List ℕ) → n ≤ fuel → read_decimal (digits fuel n out) 0 ≡ read_decimal out n
unfolding digits
read_decimal-digits zero n out h = ap (read_decimal out) (omega arith)
read_decimal-digits (suc fuel) n out h = elim (Bool-cases (n == 0)) [
  | inl e ↦ let nil : n ≡ 0 = (==_iff n 0).0 e in rw e (ap (read_decimal out) (sym nil))
  | inr e ↦ rw e (
      read_decimal-digits fuel (n / 10) ((b'0' + n % 10) ∷ out) (ground arith)
      ∙ ap (read_decimal out) (omega arith))
]

-- Every number is read back from its decimal print.
pub read_decimal-decimal : (n : ℕ) → read_decimal (decimal n) 0 ≡ n
unfolding decimal
read_decimal-decimal n = ground (arith, read_decimal-digits n n [])

pub decimal-injective : (m n : ℕ) → decimal m ≡ decimal n → m ≡ n
decimal-injective m n e =
    sym (read_decimal-decimal m) ∙ ap (λ s. read_decimal s 0) e ∙ read_decimal-decimal n

test_decimal : decimal 1234 ≡ codes "1234"
unfolding decimal
test_decimal = refl

test_padded : padded 6 42 ≡ codes "000042"
unfolding padded
test_padded = refl
