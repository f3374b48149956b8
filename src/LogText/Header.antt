-- ===== src/LogText/Header.antt =====
-- The time in front of a line: its bytes and its length.
use simplechatserver.Prelude.{
  ℕ, zero, suc, ◌+◌, ◌-◌, ◌/◌, ◌%◌, ◌≤◌, ◌<◌, ◌≡◌, inl, inr, Bool-cases, true, [], ◌∷◌, ◌++◌,
  length, length-append, length-replicate, replicate, ◌==◌, digits, decimal, padded, IsText, arith,
  ℤ,
}
use simplechatserver.LogText.{Text, Moment, header}
use simplechatserver.LogText.Arrays.{IsText-append}

-- A number of at most `k` digits.
abbrev pub Below : ℕ → ℕ → Type 0
Below zero n = n ≡ 0
Below (suc k) n = Below k (n / 10)

digits_fit : (fuel k n : ℕ) (out : Text) → Below k n → length (digits fuel n out) ≤ k + length out
unfolding digits
digits_fit zero k n out h = omega arith
digits_fit (suc fuel) zero n out h = let e : (n == 0) ≡ true = ground arith in rw e (omega arith)
digits_fit (suc fuel) (suc k) n out h = elim (Bool-cases (n == 0)) [
  | inl e ↦ rw e (omega arith)
  | inr e ↦ rw e (omega (arith, digits_fit fuel k (n / 10) ((b'0' + n % 10) ∷ out) h))
]

digits-IsText : (fuel n : ℕ) (out : Text) → IsText out → IsText (digits fuel n out)
unfolding digits
digits-IsText zero n out t = t
digits-IsText (suc fuel) n out t = elim (Bool-cases (n == 0)) [
  | inl e ↦ rw e t
  | inr e ↦ rw e (digits-IsText fuel (n / 10) ((b'0' + n % 10) ∷ out) (omega arith, t))
]

pub decimal-IsText : (n : ℕ) → IsText (decimal n)
unfolding decimal
decimal-IsText n = elim (Bool-cases (n == 0)) [
  | inl e ↦ rw e (omega arith)
  | inr e ↦ rw e (digits-IsText n n [] tt)
]

pub decimal_fits : (k n : ℕ) → Below (suc k) n → length (decimal n) ≤ suc k
unfolding decimal
decimal_fits k n h = elim (Bool-cases (n == 0)) [
  | inl e ↦ rw e (omega arith)
  | inr e ↦ rw e (omega (arith, digits_fit n (suc k) n [] h))
]

zeros-IsText : (n : ℕ) → IsText (replicate n b'0')
zeros-IsText zero = tt
zeros-IsText (suc n) = (omega arith, zeros-IsText n)

pub padded-IsText : (w n : ℕ) → IsText (padded w n)
unfolding padded
padded-IsText w n =
    IsText-append (replicate (w - length (decimal n)) b'0') (decimal n) (zeros-IsText _)
      (decimal-IsText n)

pub length-padded : (k n : ℕ) → Below (suc k) n → length (padded (suc k) n) ≡ suc k
unfolding padded
length-padded k n h = omega (
  arith,
  length-append (replicate (suc k - length (decimal n)) b'0') (decimal n),
  length-replicate {A = ℕ} (suc k - length (decimal n)) b'0',
  decimal_fits k n h,
)

joined : (s r : Text) (c : ℕ) → 0 < c → IsText s → IsText r → IsText (s ++ (c ∷ r))
joined s r c p a b = IsText-append s (c ∷ r) a (p, b)

pub header-IsText : (t : Moment) (tag : Text) → IsText tag → IsText (header t tag)
unfolding header
header-IsText t tag h = joined _ _ b'-' (omega arith) (decimal-IsText t.year) (
    joined _ _ b'-' (omega arith) (padded-IsText 2 t.month) (
      joined _ _ b' ' (omega arith) (padded-IsText 2 t.day) (
        joined _ _ b':' (omega arith) (padded-IsText 2 t.hour) (
          joined _ _ b':' (omega arith) (padded-IsText 2 t.minute) (
            joined _ _ b'.' (omega arith) (padded-IsText 2 t.second) (
              joined _ _ b' ' (omega arith) (padded-IsText 6 t.usec)
                (joined tag [] b' ' (omega arith) h tt)))))))

-- A moment of a calendar year of at most four digits.
pub record IsCalendar (t : Moment) : Type 0 where
  pub year : t.year < 10000
  pub month : t.month < 100
  pub day : t.day < 100
  pub hour : t.hour < 100
  pub minute : t.minute < 100
  pub second : t.second < 100
  pub usec : t.usec < 1000000

length_joined :
    (s r : Text) (c k n : ℕ) → length s ≤ k → length r ≤ n → length (s ++ (c ∷ r)) ≤ k + suc n
length_joined s r c k n h g = omega (arith, length-append s (c ∷ r))

padded_fits : (k n : ℕ) → Below (suc k) n → length (padded (suc k) n) ≤ suc k
padded_fits k n h = omega (arith, length-padded k n h)

pub length-header :
    (t : Moment) (tag : Text) → IsCalendar t → length (header t tag) ≤ 28 + length tag
unfolding header
length-header t tag v =
    let a = length_joined tag [] b' ' (length tag) 0 (omega arith) (omega arith) in
    let b = length_joined _ _ b' ' 6 _ (padded_fits 5 t.usec (omega (arith, v.usec))) a in
    let c = length_joined _ _ b'.' 2 _ (padded_fits 1 t.second (omega (arith, v.second))) b in
    let d = length_joined _ _ b':' 2 _ (padded_fits 1 t.minute (omega (arith, v.minute))) c in
    let e = length_joined _ _ b':' 2 _ (padded_fits 1 t.hour (omega (arith, v.hour))) d in
    let f = length_joined _ _ b' ' 2 _ (padded_fits 1 t.day (omega (arith, v.day))) e in
    let g = length_joined _ _ b'-' 2 _ (padded_fits 1 t.month (omega (arith, v.month))) f in
    omega (arith, length_joined _ _ b'-' 4 _ (decimal_fits 3 t.year (omega (arith, v.year))) g)

-- A call of `write_log`: the date, the level and the text.
pub record Entry : Type 0 where
  pub now : Moment
  pub level : ℤ
  pub msg : Text
