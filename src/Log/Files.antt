-- ===== src/Log/Files.antt =====
-- log/log.cpp, `write_log` in the synchronous mode: which lines end up in which files.
use mathlib.Core.Path.{ap₂}
use simplechatserver.Prelude.{
  ℕ, suc, ◌+◌, ◌≤◌, ◌<◌, ◌^◌, ◌≡◌, sym, ◌∙◌, inl, inr, Bool, false, some, List, [], ◌∷◌, ◌++◌,
  append-nil, append_assoc, length, arith, returns, ◌>>◌, pure, Method, c_string, IsText,
}
use simplechatserver.LogText.{Text, stamp, header}
use simplechatserver.LogText.Header.{IsCalendar, Entry}
use simplechatserver.Log.{Log, level_text, format_line, hand_over, write_log}
use simplechatserver.Log.Writing.{HasBuffer, format_line_cases}
use simplechatserver.Log.Rotation.{always, counted, file_after, count_same}

-- One call after the other.
abbrev pub write_logs : (Text → Bool) → List Entry → Method Log (Unit {0})
write_logs opens [] = pure tt
write_logs opens (e ∷ es) = write_log opens e.now e.level e.msg >> write_logs opens es

-- The time, the level, the text and "\n".
abbrev pub line_of : Entry → Text
line_of e = (header e.now (level_text e.level) ++ e.msg) ++ (b'\n' ∷ [])

-- An entry of this date whose line and a zero fit a buffer of `size` bytes.
pub record FitsOn (size day : ℕ) (date : Text) (e : Entry) : Type 0 where
  pub on_day : e.now.day ≡ day
  pub on_date : stamp e.now ≡ date
  pub calendar : IsCalendar e.now
  pub text : IsText e.msg
  pub small : length (header e.now (level_text e.level)) + length e.msg + 2 ≤ size

abbrev pub AllFit : ℕ → ℕ → Text → List Entry → Type 0
AllFit size day date [] = Unit
AllFit size day date (e ∷ es) = FitsOn size day date e × AllFit size day date es

format_line-fits :
    (e : Entry) (day : ℕ) (date : Text) (c : Log)
    → HasBuffer c
    → FitsOn c.m_log_buf_size day date e
    → (buf : Text) × (format_line e.now e.level e.msg c
        ≡ returns (line_of e) (record c { m_buf = buf }))
      × (length buf ≡ c.m_log_buf_size)
format_line-fits e day date c sized f =
    elim (format_line_cases e.now e.level e.msg c sized f.calendar f.text) [
      | inl (room, made) ↦ made
      | inr (over, bad) ↦ absurd (omega (arith, f.small))
    ]

module _ (c : Log) (dir name date first : Text) (day s : ℕ) where
  -- The file that the open one is after `k` lines of the day.
  abbrev pub file_at : ℕ → Text
  file_at = file_after c dir name date first day s

  -- The logger after `k` lines, with the array `buf` and what has been written.
  abbrev pub after_lines : ℕ → Text → List (Text × Text) → Log
  after_lines k buf w =
      counted (record c { m_buf = buf; written = w }) dir name date first day s k (file_at k)

  -- Each line with its file, from the line behind the first `k`.
  abbrev pub lines_to : ℕ → List Entry → List (Text × Text)
  lines_to k [] = []
  lines_to k (e ∷ es) = (file_at (suc k), line_of e) ∷ lines_to (suc k) es

  module _ (dir_held : c_string c.dir_name ≡ some dir) (name_held : c_string c.log_name ≡ some name)
      (short : length dir + length name ≤ 250) (sync : c.m_is_async ≡ false) where
    write_log_once :
        (k : ℕ) (e : Entry) (buf : Text) (w : List (Text × Text))
        → suc k < 10 ^ 18
        → length buf ≡ c.m_log_buf_size
        → FitsOn c.m_log_buf_size day date e
        → (buf' : Text) × (write_log always e.now e.level e.msg (after_lines k buf w)
            ≡ returns tt (after_lines (suc k) buf' (w ++ ((file_at (suc k), line_of e) ∷ []))))
          × (length buf' ≡ c.m_log_buf_size)
    unfolding write_log hand_over
    write_log_once k e buf w small sized f =
        let count =
          count_same (record c { m_buf = buf; written = w }) dir name date first day s dir_held
            name_held short k e.now small f.on_day f.on_date in
        let (buf', made, kept) = format_line-fits e day date (after_lines (suc k) buf w) sized f in
        (buf', rw count (rw made (rw sync)), kept)

    -- In the synchronous mode, with `suc s` lines to a part and every file opening, calls of
    -- `write_log` on one date whose lines fit the buffer all return, and each line is written once,
    -- whole and in order: to the file that was open first while the day has fewer than `suc s`
    -- lines, then to that of the part which the quotient numbers.
    pub write_logs-file :
        (es : List Entry) (k : ℕ) (buf : Text) (w : List (Text × Text))
        → length es + k < 10 ^ 18
        → length buf ≡ c.m_log_buf_size
        → AllFit c.m_log_buf_size day date es
        → (buf' : Text) × (write_logs always es (after_lines k buf w)
            ≡ returns tt (after_lines (length es + k) buf' (w ++ lines_to k es)))
          × (length buf' ≡ c.m_log_buf_size)
    write_logs-file [] k buf w small sized f = (
      buf,
      ap₂ (λ n u. returns tt (after_lines n buf u)) (omega arith) (sym (append-nil w)),
      sized,
    )
    write_logs-file (e ∷ es) k buf w small sized f =
        let (buf1, once, sized1) = write_log_once k e buf w (omega arith) sized f.0 in
        let (buf', more, sized') =
          write_logs-file es (suc k) buf1 (w ++ ((file_at (suc k), line_of e) ∷ [])) (omega arith)
            sized1 f.1 in
        (
          buf',
          rw once (
              more
              ∙ ap₂ (λ n u. returns tt (after_lines n buf' u)) (omega arith)
                  (append_assoc w ((file_at (suc k), line_of e) ∷ []) (lines_to (suc k) es))),
          sized',
        )
