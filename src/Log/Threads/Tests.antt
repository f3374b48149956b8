-- ===== src/Log/Threads/Tests.antt =====
-- The threads of a logger at small inputs.
use simplechatserver.Prelude.{
  ℕ, ◌+◌, ◌≤◌, ◌≡◌, refl, inl, inr, true, false, none, some, List, [], ◌∷◌, ◌++◌, length, total,
  arith, pos, negsuc, returns, zeros, codes, IsText,
}
use simplechatserver.BlockQueue
use simplechatserver.BlockQueue.{BlockQueue}
use simplechatserver.BlockQueue.Refinement.{Holds}
use simplechatserver.LogText.{Text, Moment, header}
use simplechatserver.LogText.Header.{IsCalendar, length-header}
use simplechatserver.Log.{Log, level_text, count_line, format_line}
use simplechatserver.Log.Writing.{format_line_cases}
use simplechatserver.Log.Rotation.{always}
use simplechatserver.Log.Threads.{
  idle, pushing, Threads, Step, counts, formats, tests, pushes, pops, Reach, begun, next,
}
use simplechatserver.Log.Threads.Effects.{QueueHolds}
use simplechatserver.Log.Threads.Kept.{written_weight, in_hand, held_by, lines_kept}
use simplechatserver.Log.Threads.Single.{one_thread_loses_nothing}
use simplechatserver.Log.Threads.Racing.{second_push_loses}

abbrev noon : Moment
noon = record { year = 2024; month = 5; day = 17; hour = 12; minute = 0; second = 0; usec = 0 }

noon-IsCalendar : IsCalendar noon
noon-IsCalendar = record {
  year = omega arith;
  month = omega arith;
  day = omega arith;
  hour = omega arith;
  minute = omega arith;
  second = omega arith;
  usec = omega arith;
}

-- A queue for one line.
abbrev one_place : BlockQueue Text
one_place = record {
  m_array = [] ∷ [];
  m_size = 0;
  m_max_size = 1;
  m_front = negsuc 0;
  m_back = negsuc 0;
}

one_place-Holds : Holds one_place []
one_place-Holds = record {
  some_room = omega arith;
  allocated = refl;
  counted = refl;
  bounded = omega arith;
  front_index = refl;
  back_index = refl;
  stored = refl;
  behind = refl;
}

-- The logger after `count` lines have been counted.
abbrev logger : ℕ → Text → Log
logger count buf = record {
  dir_name = zeros 128;
  log_name = zeros 128;
  m_split_lines = pos 100;
  m_log_buf_size = 64;
  m_count = count;
  m_today = 17;
  m_fp = some (codes "f");
  m_buf = buf;
  m_log_queue = some one_place;
  m_is_async = true;
  m_close_log = pos 0;
  written = [];
}

-- The line of a message.
abbrev line_of : Text → Text
line_of msg = (header noon (level_text (pos 1)) ++ msg) ++ (b'\n' ∷ [])

made :
    (msg : Text) (count : ℕ) (buf : Text)
    → length buf ≡ 64
    → IsText msg
    → length msg ≤ 2
    → (buf' : Text) × (format_line noon (pos 1) msg (logger count buf)
        ≡ returns (line_of msg) (logger count buf'))
      × (length buf' ≡ 64)
made msg count buf size text short =
    elim (format_line_cases noon (pos 1) msg (logger count buf) size noon-IsCalendar text) [
      | inl (_, done) ↦ done
      | inr (long, _) ↦
          absurd (omega (arith, short, length-header noon (level_text (pos 1)) noon-IsCalendar))
    ]

first :
    (buf : Text) × (format_line noon (pos 1) (codes "a") (logger 2 (zeros 64))
      ≡ returns (line_of (codes "a")) (logger 2 buf))
    × (length buf ≡ 64)
first = made (codes "a") 2 (zeros 64) refl (omega arith, tt) (omega arith)

second :
    (buf : Text) × (format_line noon (pos 1) (codes "b") (logger 2 first.0)
      ≡ returns (line_of (codes "b")) (logger 2 buf))
    × (length buf ≡ 64)
second = made (codes "b") 2 first.0 first.2 (omega arith, tt) (omega arith)

-- Two threads have tested the queue and found it not full.
abbrev both : Threads
both = record {
  log = logger 2 second.0;
  threads = pushing (line_of (codes "a")) ∷ pushing (line_of (codes "b")) ∷ [];
  single_log = none;
  formatted = line_of (codes "a") ∷ line_of (codes "b") ∷ [];
  pushed = [];
  lost = [];
  by_writer = [];
}

both-Reach : Reach 2 (logger 0 (zeros 64)) both
unfolding count_line BlockQueue.full
both-Reach =
    next
      (next
        (next
          (next
            (next
              (next begun
                (counts 0 always noon (pos 1) (codes "a") (logger 1 (zeros 64)) refl refl))
              (counts 1 always noon (pos 1) (codes "b") (logger 2 (zeros 64)) refl refl))
            (formats 0 noon (pos 1) (codes "a") (line_of (codes "a")) (logger 2 first.0) refl
              first.1))
          (formats 1 noon (pos 1) (codes "b") (line_of (codes "b")) (logger 2 second.0) refl
            second.1))
        (tests 0 (line_of (codes "a")) refl))
      (tests 1 (line_of (codes "b")) refl)

second_push_loses_example :
    (u : Threads) × (v : Threads) × Step both u
    × Step u v
    × (v.threads ≡ idle ∷ idle ∷ [])
    × (v.pushed ≡ line_of (codes "a") ∷ [])
    × (v.lost ≡ line_of (codes "b") ∷ [])
    × (v.log.written ≡ [])
    × ((q' : BlockQueue Text) × (v.log.m_log_queue ≡ some q') × Holds q' (line_of (codes "a") ∷ []))
second_push_loses_example =
    second_push_loses both 0 1 (line_of (codes "a")) (line_of (codes "b")) one_place [] refl refl
      (λ e. absurd (omega arith)) refl one_place-Holds refl

abbrev line_a : Text
unfolding header
line_a = line_of (codes "a")

abbrev line_b : Text
unfolding header
line_b = line_of (codes "b")

abbrev holding_a : BlockQueue Text
holding_a = record one_place { m_array = line_a ∷ []; m_size = 1; m_back = pos 0 }

abbrev emptied : BlockQueue Text
emptied = record holding_a { m_size = 0; m_front = pos 0 }

-- The first push is taken, the second refused, and the writing thread has popped the line.
abbrev popped_a : Threads
popped_a = record {
  log = record (logger 2 second.0) { m_log_queue = some emptied };
  threads = idle ∷ idle ∷ [];
  single_log = some line_a;
  formatted = line_a ∷ line_b ∷ [];
  pushed = line_a ∷ [];
  lost = line_b ∷ [];
  by_writer = [];
}

popped_a-Reach : Reach 2 (logger 0 (zeros 64)) popped_a
unfolding line_a line_b BlockQueue.push BlockQueue.pop BlockQueue.take_next
popped_a-Reach =
    next
      (next
        (next both-Reach (
          pushes 0 line_a true (record (logger 2 second.0) { m_log_queue = some holding_a }) refl
            refl))
        (pushes 1 line_b false (record (logger 2 second.0) { m_log_queue = some holding_a }) refl
          refl))
      (pops line_a (record (logger 2 second.0) { m_log_queue = some emptied }) refl refl)

lines_kept_example :
    (l : List Text) × QueueHolds (some emptied) l
    × ((f : Text → ℕ)
        → written_weight f popped_a.log
            + total f l
            + total f (in_hand popped_a.single_log)
            + total (held_by f) popped_a.threads
            + total f popped_a.lost
          ≡ total f popped_a.formatted)
    × (popped_a.by_writer ++ (in_hand popped_a.single_log ++ l) ≡ popped_a.pushed)
lines_kept_example = lines_kept one_place-Holds refl popped_a-Reach

alone_buf :
    (buf : Text) × (format_line noon (pos 1) (codes "a") (logger 1 (zeros 64))
      ≡ returns (line_of (codes "a")) (logger 1 buf))
    × (length buf ≡ 64)
alone_buf = made (codes "a") 1 (zeros 64) refl (omega arith, tt) (omega arith)

-- One thread has written one line into the queue.
abbrev alone : Threads
alone = record {
  log = record (logger 1 alone_buf.0) { m_log_queue = some holding_a };
  threads = idle ∷ [];
  single_log = none;
  formatted = line_a ∷ [];
  pushed = line_a ∷ [];
  lost = [];
  by_writer = [];
}

alone-Reach : Reach 1 (logger 0 (zeros 64)) alone
unfolding count_line line_a BlockQueue.full BlockQueue.push
alone-Reach =
    next
      (next
        (next
          (next begun (counts 0 always noon (pos 1) (codes "a") (logger 1 (zeros 64)) refl refl))
          (formats 0 noon (pos 1) (codes "a") line_a (logger 1 alone_buf.0) refl alone_buf.1))
        (tests 0 line_a refl))
      (pushes 0 line_a true (record (logger 1 alone_buf.0) { m_log_queue = some holding_a }) refl
        refl)

one_thread_loses_nothing_example :
    (l : List Text) × QueueHolds (some holding_a) l
    × (alone.lost ≡ [])
    × ((f : Text → ℕ)
        → written_weight f alone.log + total f l + total f (in_hand alone.single_log)
          ≡ total f alone.formatted)
one_thread_loses_nothing_example = one_thread_loses_nothing one_place-Holds refl alone-Reach refl
