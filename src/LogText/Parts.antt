-- ===== src/LogText/Parts.antt =====
-- The parts into which a day's log is cut: after `k` lines with `suc s` lines to a part, `first` is
-- open as long as there are fewer than `suc s` lines, and then the part that the quotient numbers.
use simplechatserver.Prelude.{
  ℕ, suc, ◌/◌, ◌%◌, ◌≤◌, ◌<◌, ◌≡◌, ◌≢◌, sym, ap, inl, inr, Bool-cases, true, false, ◌==◌, ==_iff,
  ltb, lt→ltb, ltb→lt, not-lt→ltb, not-ltb→le, if◌then◌else◌, arith,
}
use simplechatserver.LogText.{Text}

div_stays : (k s : ℕ) → 0 < s → suc k % s ≢ 0 → suc k / s ≡ k / s
div_stays k s h ne = grind arith

below_stays : (k s : ℕ) → 0 < s → suc k % s ≢ 0 → k < s → suc k < s
below_stays k s h ne l = grind arith

due_past : (k s : ℕ) → 0 < s → suc k % s ≡ 0 → s ≤ suc k
due_past k s h e = grind arith

pub ==-false : (a b : ℕ) → (a == b) ≡ false → a ≢ b
==-false a b h e = ground arith

module _ (part : ℕ → Text) (first : Text) (s : ℕ) where
  abbrev pub part_after : ℕ → Text
  part_after k = if ltb k (suc s) then first else part (k / suc s)

  pub part_stays : (k : ℕ) → suc k % suc s ≢ 0 → part_after k ≡ part_after (suc k)
  part_stays k ne = elim (Bool-cases (ltb k (suc s))) [
    | inl below ↦
        let still : ltb (suc k) (suc s) ≡ true =
          lt→ltb _ _ (below_stays k (suc s) (omega arith) ne (ltb→lt _ _ below)) in
        rw (below, still)
    | inr past ↦
        let still : ltb (suc k) (suc s) ≡ false =
          not-lt→ltb _ _ (omega (arith, not-ltb→le _ _ past)) in
        rw (past, still) (ap part (sym (div_stays k (suc s) (omega arith) ne)))
  ]

  -- A line whose number the size of a part divides belongs to the part of its quotient.
  pub part_due : (k : ℕ) → (suc k % suc s == 0) ≡ true → part_after (suc k) ≡ part (suc k / suc s)
  part_due k due =
      let past : ltb (suc k) (suc s) ≡ false =
        not-lt→ltb _ _ (due_past k (suc s) (omega arith) ((==_iff _ 0).0 due)) in
      rw past
