-- ===== src/Log/Threads.antt =====
-- log/log.h and log/log.cpp: any number of threads in `write_log` and the one thread in
-- `async_write_log`. The mutex of the logger is released between the two critical sections of
-- `write_log`, and is not held for the test of the queue and the push; those of the queue are calls
-- of its own. The steps below are the stretches between.
pub mod Effects
pub mod Kept
pub mod Single
pub mod Racing
mod Tests
use simplechatserver.Prelude.{
  ℕ, ◌≡◌, Bool, true, false, not, ◌&&◌, Option, none, some, List, [], ◌∷◌, ◌++◌, get_elem?, set,
  replicate, if◌then◌else◌, ℤ, returns,
}
use simplechatserver.BlockQueue
use simplechatserver.LogText.{Text, Moment}
use simplechatserver.Log.{Log, count_line, format_line, fputs, on_queue, is_full}

-- Where a thread stands in `write_log`: outside; behind the first critical section; behind the
-- second one with its `log_str`; behind the test in front of `push`, or in front of `fputs`.
pub data Pc : Type 0 where
  idle : Pc
  formatting : Moment → ℤ → Text → Pc
  testing pushing printing : Text → Pc

-- The logger; the threads that call `write_log`; the `single_log` that the writing thread has still
-- to write. The other fields record what has happened: the lines that the second critical section
-- has made, those that `push` has taken and refused, and those that the writing thread has written.
pub record Threads : Type 0 where
  pub log : Log
  pub threads : List Pc
  pub single_log : Option Text
  pub formatted : List Text
  pub pushed : List Text
  pub lost : List Text
  pub by_writer : List Text

pub data Step (t : Threads) : Threads → Type 0 where
  counts :
      (i : ℕ) (opens : Text → Bool) (now : Moment) (level : ℤ) (msg : Text) (c : Log)
      → get_elem? t.threads i ≡ some idle
      → count_line opens now t.log ≡ returns tt c
      → Step t (record t { log = c; threads = set t.threads i (formatting now level msg) })
  formats :
      (i : ℕ) (now : Moment) (level : ℤ) (msg line : Text) (c : Log)
      → get_elem? t.threads i ≡ some (formatting now level msg)
      → format_line now level msg t.log ≡ returns line c
      → Step t (record t {
        log = c;
        threads = set t.threads i (testing line);
        formatted = t.formatted ++ (line ∷ []);
      })
  tests :
      (i : ℕ) (line : Text)
      → get_elem? t.threads i ≡ some (testing line)
      → Step t (record t {
        threads = set t.threads i (
            if t.log.m_is_async && not (is_full t.log.m_log_queue)
            then pushing line
            else printing line);
      })
  -- What `push` returns is not read: a line that it refuses is nowhere any more.
  pushes :
      (i : ℕ) (line : Text) (taken : Bool) (c : Log)
      → get_elem? t.threads i ≡ some (pushing line)
      → on_queue (BlockQueue.push line) t.log ≡ returns taken c
      → Step t (record t {
        log = c;
        threads = set t.threads i idle;
        pushed = if taken then t.pushed ++ (line ∷ []) else t.pushed;
        lost = if taken then t.lost else t.lost ++ (line ∷ []);
      })
  prints :
      (i : ℕ) (line : Text) (c : Log)
      → get_elem? t.threads i ≡ some (printing line)
      → fputs line t.log ≡ returns tt c
      → Step t (record t { log = c; threads = set t.threads i idle })
  -- The writing thread.
  pops :
      (line : Text) (c : Log)
      → t.single_log ≡ none
      → on_queue (BlockQueue.pop true) t.log ≡ returns (some line) c
      → Step t (record t { log = c; single_log = some line })
  puts :
      (line : Text) (c : Log)
      → t.single_log ≡ some line
      → fputs line t.log ≡ returns tt c
      → Step t (record t { log = c; single_log = none; by_writer = t.by_writer ++ (line ∷ []) })

-- A logger as `init` leaves it, before any line; `m` threads outside `write_log`.
abbrev pub started : ℕ → Log → Threads
started m c = record {
  log = c;
  threads = replicate m idle;
  single_log = none;
  formatted = [];
  pushed = [];
  lost = [];
  by_writer = [];
}

pub data Reach (m : ℕ) (c : Log) : Threads → Type 0 where
  begun : Reach m c (started m c)
  next : {t u : Threads} → Reach m c t → Step t u → Reach m c u
