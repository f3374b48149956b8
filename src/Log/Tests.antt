-- ===== src/Log/Tests.antt =====
-- class Log of log/log.cpp: the theorems at small inputs that meet their hypotheses.
use simplechatserver.Prelude.{
  ◌+◌, ◌≤◌, ◌<◌, ◌≡◌, refl, ◌⊎◌, true, some, [], ◌∷◌, ◌++◌, length, arith, pos, returns, ◌>>=◌,
  blocks, undefined, zeros, codes, pad, c_string, IsText,
}
use simplechatserver.BlockQueue.{BlockQueue}
use simplechatserver.BlockQueue.Refinement.{Holds}
use simplechatserver.LogText.{Text, Moment, stamp, header, split_last}
use simplechatserver.LogText.Header.{IsCalendar, Entry, length-header}
use simplechatserver.Log.{
  Log, new_log, init, opened, level_text, format_line, hand_over, async_write_log,
}
use simplechatserver.Log.Opening.{init-opens}
use simplechatserver.Log.Writing.{HasBuffer, format_line_cases}
use simplechatserver.Log.Rotation.{always}
use simplechatserver.Log.Files.{FitsOn, write_logs, lines_to}
use simplechatserver.Log.Whole.{init_then_write}
use simplechatserver.Log.Draining.{writing, lines_in, hand_over_then_drain}

abbrev pub morning : Moment
morning = record { year = 2024; month = 5; day = 17; hour = 9; minute = 3; second = 7; usec = 42 }

morning-IsCalendar : IsCalendar morning
morning-IsCalendar = record {
  year = omega arith;
  month = omega arith;
  day = omega arith;
  hour = omega arith;
  minute = omega arith;
  second = omega arith;
  usec = omega arith;
}

abbrev two : BlockQueue Text
two = record {
  m_array = codes "a" ∷ codes "b" ∷ [];
  m_size = 2;
  m_max_size = 2;
  m_front = pos 0;
  m_back = pos 0;
}

two-Holds : Holds two (codes "b" ∷ codes "a" ∷ [])
two-Holds = record {
  some_room = omega arith;
  allocated = refl;
  counted = refl;
  bounded = omega arith;
  front_index = tt;
  back_index = tt;
  stored = refl;
  behind = refl;
}

-- A logger with two lines to a part.
abbrev logger : Log
logger = record {
  dir_name = pad 128 (codes "logs/");
  log_name = pad 128 (codes "chat");
  m_split_lines = pos 2;
  m_log_buf_size = 64;
  m_count = 0;
  m_today = 17;
  m_fp = some (codes "logs/first");
  m_buf = zeros 64;
  m_log_queue = some two;
  m_is_async = true;
  m_close_log = pos 0;
  written = [];
}

format_line_cases_example :
    let head = header morning (level_text (pos 2)) in
    ((length head + 2 + 2 ≤ 64)
      × ((buf : Text) × (format_line morning (pos 2) (codes "hi") logger
            ≡ returns ((head ++ codes "hi") ++ (b'\n' ∷ [])) (record logger { m_buf = buf }))
          × (length buf ≡ 64)))
    ⊎ ((64 < length head + 2 + 2) × (format_line morning (pos 2) (codes "hi") logger ≡ undefined))
format_line_cases_example =
    format_line_cases morning (pos 2) (codes "hi") logger refl morning-IsCalendar (omega arith)

abbrev entry : Text → Entry
entry msg = record { now = morning; level = pos 1; msg = msg }

fits : (msg : Text) → IsText msg → length msg ≤ 10 → FitsOn 64 17 (stamp morning) (entry msg)
fits msg text short = record {
  on_day = refl;
  on_date = refl;
  calendar = morning-IsCalendar;
  text = text;
  small = omega (arith, short, length-header morning (level_text (pos 1)) morning-IsCalendar);
}

-- The queue is full.
hand_over_then_drain_example :
    (c1 : Log) × (q' : BlockQueue Text) × (hand_over (codes "c") (writing (codes "f") logger two [])
      ≡ returns tt c1)
    × (((2 < 2)
          × (async_write_log 4 true c1
              ≡ some (
                  blocks (
                    writing
                      (codes "f")
                      logger
                      q'
                      (lines_in (codes "f") (codes "b" ∷ codes "a" ∷ codes "c" ∷ []))))))
        ⊎ ((two.m_size ≡ two.m_max_size)
            × (async_write_log 3 true c1
                ≡ some (
                    blocks (
                      writing
                        (codes "f")
                        logger
                        q'
                        (lines_in (codes "f") (codes "c" ∷ codes "b" ∷ codes "a" ∷ [])))))))
    × Holds q' []
hand_over_then_drain_example =
    hand_over_then_drain (codes "f") logger (codes "c") (codes "b" ∷ codes "a" ∷ []) two [] refl
      two-Holds

init-opens_example :
    let full = codes "logs/" ++ (stamp morning ++ codes "chat") in
    (c : Log) × (init always morning (codes "logs/chat") (pos 0) (pos 64) (pos 2) (pos 0) new_log
      ≡ returns true c)
    × (c.m_fp ≡ opened always full)
    × (c_string c.dir_name ≡ some (codes "logs/"))
    × (c_string c.log_name ≡ some (codes "chat"))
    × (codes "logs/" ++ codes "chat" ≡ codes "logs/chat")
    × (c.m_today ≡ 17)
    × HasBuffer c
unfolding split_last stamp
init-opens_example =
    init-opens always morning (codes "logs/chat") (codes "logs/") (codes "chat") (pos 0) (pos 2)
      (pos 0) 64 refl (omega arith) (omega arith) (omega arith) (omega arith)

init_then_write_example :
    let es = entry (codes "a") ∷ entry (codes "b") ∷ [] in
    (c : Log) × ((init always morning (codes "logs/chat") (pos 0) (pos 64) (pos 2) (pos 0) >>= λ _.
    write_logs always es)
        new_log
      ≡ returns tt c)
    × (c.written
        ≡ lines_to new_log
            (codes "logs/")
            (codes "chat")
            (stamp morning)
            (codes "logs/" ++ (stamp morning ++ codes "chat"))
            17
            1
            0
            es)
    × (c.m_count ≡ 2)
unfolding split_last stamp
init_then_write_example =
    init_then_write morning (codes "logs/chat") (codes "logs/") (codes "chat") (pos 0) 64 1
      (entry (codes "a") ∷ entry (codes "b") ∷ []) refl (omega arith) (omega arith) (omega arith)
      (omega arith) (omega arith) (omega arith)
      (
        fits (codes "a") (omega arith) (omega arith),
        (fits (codes "b") (omega arith) (omega arith), tt),
      )
