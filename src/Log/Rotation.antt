-- ===== src/Log/Rotation.antt =====
-- log/log.cpp, the first critical section of `write_log`: which file a line goes to.
use native.Mathlib.Nat.{div-le_self}
use simplechatserver.Prelude.{
  ℕ, suc, ◌+◌, ◌/◌, ◌%◌, ◌^◌, ◌≤◌, ◌<◌, ◌≡◌, sym, ap, ◌∙◌, inl, inr, Bool, Bool-cases, true, false,
  none, some, List, [], ◌∷◌, ◌++◌, length, length-append, length-take, take, take-all, ◌==◌, ==_iff,
  lt→ltb, arith, pos, returns, undefined, ◌>>◌, pure, Method, decimal, c_string,
}
use simplechatserver.LogText.{Text, Moment, stamp, print_into}
use simplechatserver.LogText.Parts.{part_after, part_stays, part_due, ==-false}
use simplechatserver.LogText.Header.{decimal_fits}
use simplechatserver.Log.{Log, count_line, hand_over, next_name}

pub print_whole : (text : Text) → length text < 300 → print_into 500 300 text ≡ some text
print_whole text h =
    let whole : take 299 text ≡ text = take-all 299 text (omega arith) in
    rw whole (rw (lt→ltb (length text) 500 (omega arith)))

-- One run of the section for each of the moments.
abbrev pub count_lines : (Text → Bool) → List Moment → Method Log (Unit {0})
count_lines opens [] = pure tt
count_lines opens (t ∷ ts) = count_line opens t >> count_lines opens ts

-- All the moments fall on one date.
abbrev pub OnDate : ℕ → Text → List Moment → Type 0
OnDate day date [] = Unit
OnDate day date (t ∷ ts) = ((t.day ≡ day) × (stamp t ≡ date)) × OnDate day date ts

abbrev pub always : Text → Bool
always name = true

module _ (c : Log) (dir name date first : Text) (day s : ℕ) where
  -- The file of part `j` of the day.
  abbrev pub part : ℕ → Text
  part j = dir ++ (take 15 date ++ (name ++ (b'.' ∷ decimal j)))

  -- The file after `k` lines with `suc s` lines to a part.
  abbrev pub file_after : ℕ → Text
  file_after = part_after part first s

  abbrev pub counted : ℕ → Text → Log
  counted k file = record c {
    m_split_lines = pos (suc s);
    m_today = day;
    m_count = k;
    m_fp = some file;
  }

  module _ (dir_held : c_string c.dir_name ≡ some dir) (name_held : c_string c.log_name ≡ some name)
      (short : length dir + length name ≤ 250) where
    part_named :
        (k : ℕ) (t : Moment) (file : Text)
        → k < 10 ^ 18
        → t.day ≡ day
        → stamp t ≡ date
        → next_name t (counted k file) ≡ some (part (k / suc s))
    part_named k t file small d e =
        let today : (t.day == day) ≡ true = (==_iff t.day day).1 d in
        let digits : length (decimal (k / suc s)) ≤ 18 =
          decimal_fits 17 (k / suc s) (omega (arith, div-le_self k (suc s))) in
        rw (dir_held, name_held, today, e)
          (print_whole (part (k / suc s)) (
            omega (
              arith,
              digits,
              length-append dir (take 15 date ++ (name ++ (b'.' ∷ decimal (k / suc s)))),
              length-append (take 15 date) (name ++ (b'.' ∷ decimal (k / suc s))),
              length-append name (b'.' ∷ decimal (k / suc s)),
              length-take 15 date,
            )))

    pub count_same :
        (k : ℕ) (t : Moment)
        → suc k < 10 ^ 18
        → t.day ≡ day
        → stamp t ≡ date
        → count_line always t (counted k (file_after k))
          ≡ returns tt (counted (suc k) (file_after (suc k)))
    unfolding count_line
    count_same k t small d e =
        let today : (t.day == day) ≡ true = (==_iff t.day day).1 d in
        elim (Bool-cases (suc k % suc s == 0)) [
          | inl due ↦
              rw (today, due)
                (rw (part_named (suc k) t (file_after k) small d e) (
                  rw (today, d)
                    (ap (λ f. returns tt (counted (suc k) f)) (sym (part_due part first s k due)))))
          | inr more ↦
              rw (today, more)
                (ap (λ f. returns tt (counted (suc k) f))
                  (part_stays part first s k (==-false _ _ more)))
        ]

    -- Lines of one date, `suc s` to a part, on a logger that has counted `k` of them and writes to
    -- the file that belongs to `k`: each is counted, and the file open then is the first one as
    -- long as there are fewer than `suc s` lines, and from then on the one of the part that the
    -- quotient numbers.
    pub count_lines-file :
        (ts : List Moment) (k : ℕ)
        → length ts + k < 10 ^ 18
        → OnDate day date ts
        → count_lines always ts (counted k (file_after k))
          ≡ returns tt (counted (length ts + k) (file_after (length ts + k)))
    count_lines-file [] k small d = ap (λ n. returns tt (counted n (file_after n))) (omega arith)
    count_lines-file (t ∷ ts) k small d = rw (count_same k t (omega arith) d.0.0 d.0.1) (
        count_lines-file ts (suc k) (omega arith) d.1
        ∙ ap (λ n. returns tt (counted n (file_after n))) (omega arith))

    new_day_named :
        (k : ℕ) (t : Moment) (file : Text)
        → (t.day == day) ≡ false
        → next_name t (counted k file) ≡ some (dir ++ (take 15 (stamp t) ++ (name ++ [])))
    new_day_named k t file other =
        rw (dir_held, name_held, other)
          (print_whole (dir ++ (take 15 (stamp t) ++ (name ++ []))) (
            omega (
              arith,
              length-append dir (take 15 (stamp t) ++ (name ++ [])),
              length-append (take 15 (stamp t)) (name ++ []),
              length-append name [],
              length-take 15 (stamp t),
            )))

    -- The first line of another day, where the new file can be opened: it is named by the new date
    -- without a part, and the count starts again at 0.
    pub count_line_new_day :
        (k : ℕ) (t : Moment) (file : Text)
        → (t.day == day) ≡ false
        → count_line always t (counted k file)
          ≡ returns tt (record c {
            m_split_lines = pos (suc s);
            m_today = t.day;
            m_count = 0;
            m_fp = some (dir ++ (take 15 (stamp t) ++ (name ++ [])));
          })
    unfolding count_line
    count_line_new_day k t file other =
        rw other (rw (new_day_named (suc k) t file other) (rw other))

    -- The first line of another day, where the new file cannot be opened: counting it returns, and
    -- writing it, in the synchronous mode, is a write to a null file.
    pub failed_reopen :
        (k : ℕ) (t : Moment) (file line : Text)
        → (t.day == day) ≡ false
        → c.m_is_async ≡ false
        → (c' : Log) × (count_line (λ _. false) t (counted k file) ≡ returns tt c')
          × (hand_over line c' ≡ undefined)
    unfolding count_line hand_over
    failed_reopen k t file line other sync = (
      record c { m_split_lines = pos (suc s); m_today = t.day; m_count = 0; m_fp = none },
      rw other (rw (new_day_named (suc k) t file other) (rw other)),
      rw sync,
    )
