-- ===== src/ServerLog/Tests.antt =====
-- class ServerLog of log/serverlog.cpp: the theorems at small inputs that meet their hypotheses.
use simplechatserver.Prelude.{
  ℕ, ◌≤◌, IsText, List, ◌≡◌, refl, true, false, none, some, [], ◌∷◌, ◌++◌, length, arith, pos,
  returns, undefined, zeros, codes, pad, c_string, padded,
}
use simplechatserver.LogText.{Text, Moment, header, stamp}
use simplechatserver.LogText.Header.{IsCalendar, Entry, length-header}
use simplechatserver.ServerLog.{ServerLog, level_text, write_log, format_line}
use simplechatserver.ServerLog.Writing.{format_line_cuts}
use simplechatserver.ServerLog.Files.{
  FitsOn, always, write_all, after_lines, lines_to, write_all-file,
}
use simplechatserver.ServerLog.Queueing.{failed_reopen_twice}

abbrev evening : Moment
evening = record {
  year = 2024;
  month = 12;
  day = 31;
  hour = 20;
  minute = 15;
  second = 0;
  usec = 123456;
}

abbrev new_year : Moment
new_year = record { year = 2025; month = 1; day = 1; hour = 0; minute = 0; second = 0; usec = 7 }

evening-IsCalendar : IsCalendar evening
evening-IsCalendar = record {
  year = omega arith;
  month = omega arith;
  day = omega arith;
  hour = omega arith;
  minute = omega arith;
  second = omega arith;
  usec = omega arith;
}

-- A logger that writes each line at once, into a buffer of 40 bytes.
abbrev logger : ServerLog
logger = record {
  dir_name = pad 128 (codes "logs/");
  log_name = pad 128 (codes "chat");
  m_split_lines = pos 100;
  m_log_buf_size = 40;
  m_count = 3;
  m_today = 31;
  m_fp = some (codes "logs/2024_12_31_chat");
  m_buf = zeros 40;
  m_log_queue = none;
  m_is_async = false;
  m_close_log = pos 0;
  written = [];
}

-- The header has 34 bytes.
format_line_cuts_example :
    (buf : Text) × (format_line evening (pos 1) (codes "late") logger
      ≡ returns
          (header evening (level_text (pos 1)) ++ codes "lat")
          (record logger { m_buf = buf }))
    × (length buf ≡ 40)
unfolding header padded
format_line_cuts_example =
    format_line_cuts evening (pos 1) logger refl evening-IsCalendar 3 (codes "late") (omega arith)
      refl refl

failed_reopen_twice_example :
    (c' : ServerLog) × (write_log (λ _. false) new_year (pos 1) (codes "lost") logger
      ≡ returns tt c')
    × (c'.written ≡ [])
    × (write_log (λ _. true) new_year (pos 1) (codes "next") c' ≡ undefined)
unfolding c_string
failed_reopen_twice_example =
    failed_reopen_twice (λ _. true) new_year new_year (pos 1) (pos 1) (codes "lost") (codes "next")
      (codes "logs/") (codes "chat") (codes "logs/2024_12_31_chat") logger refl refl refl refl refl
      refl

abbrev entry : Text → Entry
entry msg = record { now = evening; level = pos 1; msg = msg }

abbrev after : ℕ → Text → List (Text × Text) → ServerLog
after = after_lines logger (codes "logs/") (codes "chat") (stamp evening) (codes "logs/first") 31 1

fits : (msg : Text) → IsText msg → length msg ≤ 3 → FitsOn 40 31 (stamp evening) (entry msg)
fits msg text short = record {
  on_day = refl;
  on_date = refl;
  calendar = evening-IsCalendar;
  text = text;
  small = omega (arith, short, length-header evening (level_text (pos 1)) evening-IsCalendar);
}

write_all-file_example :
    (buf' : Text) × (write_all always
        (entry (codes "ok") ∷ entry (codes "no") ∷ [])
        (after 0 (zeros 40) [])
      ≡ returns tt (
          after 2 buf' (
            lines_to logger
              (codes "logs/")
              (codes "chat")
              (stamp evening)
              (codes "logs/first")
              31
              1
              0
              (entry (codes "ok") ∷ entry (codes "no") ∷ []))))
    × (length buf' ≡ 40)
unfolding c_string
write_all-file_example =
    write_all-file logger (codes "logs/") (codes "chat") (stamp evening) (codes "logs/first") 31 1
      refl refl (omega arith) refl refl (entry (codes "ok") ∷ entry (codes "no") ∷ []) 0 (zeros 40)
      [] (omega arith) refl
      (
        fits (codes "ok") (omega arith) (omega arith),
        (fits (codes "no") (omega arith) (omega arith), tt),
      )
