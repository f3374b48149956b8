-- ===== src/ServerLog/Files.antt =====
-- log/serverlog.cpp, `write_log` in the synchronous mode: which lines end up in which files.
use mathlib.Core.Path.{ap₂}
use native.Mathlib.Nat.{div-le_self}
use simplechatserver.Prelude.{
  ℕ, suc, ◌+◌, ◌/◌, ◌%◌, ◌≤◌, ◌<◌, ◌^◌, ◌≡◌, sym, ap, ◌∙◌, inl, inr, Bool, Bool-cases, true, false,
  some, List, [], ◌∷◌, ◌++◌, append-nil, append_assoc, length, length-append, length-take, take,
  take-all, lt→ltb, ◌==◌, ==_iff, arith, pos, returns, ◌>>◌, pure, Method, decimal, c_string,
  IsText,
}
use simplechatserver.LogText.{Text, Moment, stamp, header, print_into}
use simplechatserver.LogText.Parts.{part_after, part_stays, part_due, ==-false}
use simplechatserver.LogText.Header.{IsCalendar, Entry, decimal_fits}
use simplechatserver.ServerLog.{
  ServerLog, level_text, count_line, next_name, hand_over, write_log, is_closed,
}
use simplechatserver.ServerLog.Writing.{format_line-fits}

-- One call after the other.
abbrev pub write_all : (Text → Bool) → List Entry → Method ServerLog (Unit {0})
write_all opens [] = pure tt
write_all opens (e ∷ es) = write_log opens e.now e.level e.msg >> write_all opens es

-- The time, the level, the text and "\n".
abbrev pub line_of : Entry → Text
line_of e = (header e.now (level_text e.level) ++ e.msg) ++ (b'\n' ∷ [])

-- An entry of this date whose line leaves two bytes of a buffer of `size` bytes at least.
pub record FitsOn (size day : ℕ) (date : Text) (e : Entry) : Type 0 where
  pub on_day : e.now.day ≡ day
  pub on_date : stamp e.now ≡ date
  pub calendar : IsCalendar e.now
  pub text : IsText e.msg
  pub small : length (header e.now (level_text e.level)) + length e.msg + 2 < size

abbrev pub AllFit : ℕ → ℕ → Text → List Entry → Type 0
AllFit size day date [] = Unit
AllFit size day date (e ∷ es) = FitsOn size day date e × AllFit size day date es

abbrev pub always : Text → Bool
always name = true

print_whole : (text : Text) → length text < 255 → print_into 256 255 text ≡ some text
print_whole text h =
    let whole : take 254 text ≡ text = take-all 254 text (omega arith) in
    rw whole (rw (lt→ltb (length text) 256 (omega arith)))

module _ (c : ServerLog) (dir name date first : Text) (day s : ℕ) where
  -- The file of part `j` of the day.
  abbrev pub part : ℕ → Text
  part j = dir ++ (take 14 date ++ (name ++ (b'.' ∷ decimal j)))

  -- The file that the open one is after `k` lines of the day.
  abbrev pub file_at : ℕ → Text
  file_at = part_after part first s

  -- The logger after `k` lines, with the file, the array and what has been written.
  abbrev pub counted : ℕ → Text → Text → List (Text × Text) → ServerLog
  counted k file buf w = record c {
    m_split_lines = pos (suc s);
    m_today = day;
    m_count = k;
    m_fp = some file;
    m_buf = buf;
    written = w;
  }

  abbrev pub after_lines : ℕ → Text → List (Text × Text) → ServerLog
  after_lines k = counted k (file_at k)

  -- Each line with its file, from the line behind the first `k`.
  abbrev pub lines_to : ℕ → List Entry → List (Text × Text)
  lines_to k [] = []
  lines_to k (e ∷ es) = (file_at (suc k), line_of e) ∷ lines_to (suc k) es

  module _ (dir_held : c_string c.dir_name ≡ some dir) (name_held : c_string c.log_name ≡ some name)
      (short : length dir + length name ≤ 200) (live : is_closed c ≡ false)
      (sync : c.m_is_async ≡ false) where
    part_named :
        (k : ℕ) (t : Moment) (file buf : Text) (w : List (Text × Text))
        → k < 10 ^ 18
        → t.day ≡ day
        → stamp t ≡ date
        → next_name t (counted k file buf w) ≡ some (part (k / suc s))
    part_named k t file buf w small d e =
        let today : (t.day == day) ≡ true = (==_iff t.day day).1 d in
        let digits : length (decimal (k / suc s)) ≤ 18 =
          decimal_fits 17 (k / suc s) (omega (arith, div-le_self k (suc s))) in
        rw (dir_held, name_held, today, e)
          (print_whole (part (k / suc s)) (
            omega (
              arith,
              digits,
              length-append dir (take 14 date ++ (name ++ (b'.' ∷ decimal (k / suc s)))),
              length-append (take 14 date) (name ++ (b'.' ∷ decimal (k / suc s))),
              length-append name (b'.' ∷ decimal (k / suc s)),
              length-take 14 date,
            )))

    count_same :
        (k : ℕ) (t : Moment) (buf : Text) (w : List (Text × Text))
        → suc k < 10 ^ 18
        → t.day ≡ day
        → stamp t ≡ date
        → count_line always t (after_lines k buf w) ≡ returns true (after_lines (suc k) buf w)
    unfolding count_line
    count_same k t buf w small d e =
        let today : (t.day == day) ≡ true = (==_iff t.day day).1 d in
        elim (Bool-cases (suc k % suc s == 0)) [
          | inl due ↦
              rw (today, due)
                (rw (part_named (suc k) t (file_at k) buf w small d e) (
                  rw (today, d)
                    (ap (λ f. returns true (counted (suc k) f buf w))
                      (sym (part_due part first s k due)))))
          | inr more ↦
              rw (today, more)
                (ap (λ f. returns true (counted (suc k) f buf w))
                  (part_stays part first s k (==-false _ _ more)))
        ]

    write_log_once :
        (k : ℕ) (e : Entry) (buf : Text) (w : List (Text × Text))
        → suc k < 10 ^ 18
        → length buf ≡ c.m_log_buf_size
        → FitsOn c.m_log_buf_size day date e
        → (buf' : Text) × (write_log always e.now e.level e.msg (after_lines k buf w)
            ≡ returns tt (after_lines (suc k) buf' (w ++ ((file_at (suc k), line_of e) ∷ []))))
          × (length buf' ≡ c.m_log_buf_size)
    unfolding write_log hand_over
    write_log_once k e buf w small sized f =
        let count = count_same k e.now buf w small f.on_day f.on_date in
        let (buf', made, kept) =
          format_line-fits e.now e.level (after_lines (suc k) buf w) sized f.calendar e.msg f.text
            f.small in
        (buf', rw live (rw count (rw made (rw sync))), kept)

    -- In the synchronous mode, with the logger not closed, `suc s` lines to a part and every file
    -- opening, calls of `write_log` on one date whose lines leave two bytes of the buffer at least
    -- all return, and each line is written once, whole and in order: to the file that was open first
    -- while the day has fewer than `suc s` lines, then to that of the part which the quotient
    -- numbers.
    pub write_all-file :
        (es : List Entry) (k : ℕ) (buf : Text) (w : List (Text × Text))
        → length es + k < 10 ^ 18
        → length buf ≡ c.m_log_buf_size
        → AllFit c.m_log_buf_size day date es
        → (buf' : Text) × (write_all always es (after_lines k buf w)
            ≡ returns tt (after_lines (length es + k) buf' (w ++ lines_to k es)))
          × (length buf' ≡ c.m_log_buf_size)
    write_all-file [] k buf w small sized f = (
      buf,
      ap₂ (λ n u. returns tt (after_lines n buf u)) (omega arith) (sym (append-nil w)),
      sized,
    )
    write_all-file (e ∷ es) k buf w small sized f =
        let (buf1, once, sized1) = write_log_once k e buf w (omega arith) sized f.0 in
        let (buf', more, sized') =
          write_all-file es (suc k) buf1 (w ++ ((file_at (suc k), line_of e) ∷ [])) (omega arith)
            sized1 f.1 in
        (
          buf',
          rw once (
              more
              ∙ ap₂ (λ n u. returns tt (after_lines n buf' u)) (omega arith)
                  (append_assoc w ((file_at (suc k), line_of e) ∷ []) (lines_to (suc k) es))),
          sized',
        )
