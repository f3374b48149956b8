-- ===== src/ThreadPool/Tests.antt =====
-- Runs of the pool at small inputs, and the theorems at inputs that meet their hypotheses.
-- Functions and objects are numbers here.
use simplechatserver.Prelude.{
  ℕ, ◌+◌, ◌≡◌, ◌≢◌, ◌<◌, ◌≤◌, refl, true, false, none, some, [], ◌∷◌, ◌++◌, total, ℤ, pos, negsuc,
}
use simplechatserver.SafeQueue.{empty}
use simplechatserver.ThreadPool.{
  ThreadPool, Task, create_pool, has_room, enqueue, post_sem, mark_closed, take_task,
}
use simplechatserver.ThreadPool.Workers.{
  Worker, testing, waiting, busy, finished, stored, System, Work, Request, Reach, started, starts,
  worked, requested,
}
use simplechatserver.ThreadPool.Workers.Invariant.{holds, owes}
use simplechatserver.ThreadPool.Workers.Safety.{
  queue_bound, popped-submitted, queued_tasks_are_posted,
}
use simplechatserver.ThreadPool.Workers.Shutdown.{closed_rank, closed_progress}

-- A new pool of `n` threads with room for `k` tasks.
abbrev pool_of : ℤ → ℤ → ThreadPool ℕ ℕ
pool_of n k = record {
  task_queue = record { list = []; isblock = false; m_sem = none; m_max_count = negsuc 0 };
  thread_count = n;
  maxrequest = k;
  is_close = true;
  threads = some [];
  sem = 0;
  funbox = [];
}

rejects_zero : create_pool {F = ℕ} {T = ℕ} (pos 0) (pos 5) ≡ none
unfolding create_pool
rejects_zero = refl

abbrev first_task : Task ℕ
first_task = (pos 0, some 3)

abbrev next_task : Task ℕ
next_task = (pos 1, some 4)

-- One worker, room for one task, and two threads that have both passed the test of `append` and
-- stored: the queue is one longer than `maxrequest`.
abbrev crowded : System ℕ ℕ
crowded = record {
  pool = record (pool_of (pos 1) (pos 1)) {
    task_queue = record {
      list = first_task ∷ next_task ∷ [];
      isblock = false;
      m_sem = none;
      m_max_count = negsuc 0;
    };
    is_close = false;
  };
  workers = testing ∷ [];
  clients = stored ∷ stored ∷ [];
  closing = 0;
  submitted = first_task ∷ next_task ∷ [];
  popped = [];
  done = [];
}

crowded_reached : Reach 2 crowded
unfolding create_pool has_room enqueue
crowded_reached =
    requested
      (requested
        (requested
          (requested (started (starts (pos 1) (pos 1) (pool_of (pos 1) (pos 1)) [] refl))
            (Request.checks 0 first_task refl refl))
          (Request.checks 1 next_task refl refl))
        (Request.stores 0 first_task refl))
      (Request.stores 1 next_task refl)

queue_bound_example : 2 + 1 ≤ 1 + 2
queue_bound_example = queue_bound crowded_reached

-- A signal lets the worker through, and it pops the first of the two tasks.
abbrev one_popped : System ℕ ℕ
unfolding take_task
one_popped = record crowded {
  pool = (take_task crowded.pool).1;
  workers = busy first_task ∷ [];
  popped = first_task ∷ [];
}

one_popped_reached : Reach 2 one_popped
unfolding take_task empty
one_popped_reached =
    worked 0
      (worked 0
        (worked 0 (worked 0 crowded_reached (Work.enters refl refl)) (Work.woken_by_signal refl))
        (Work.finds_task refl refl))
      (Work.takes refl)

popped-submitted_example : (first_task ∷ []) ++ (next_task ∷ []) ≡ first_task ∷ next_task ∷ []
unfolding take_task
popped-submitted_example = popped-submitted one_popped_reached

queued_tasks_are_posted_example :
    2 ≤ crowded.pool.sem + total holds crowded.workers + total owes crowded.clients
queued_tasks_are_posted_example = queued_tasks_are_posted crowded_reached

-- One worker that waits, and `close` has run.
abbrev closed : System ℕ ℕ
closed = record {
  pool = record (pool_of (pos 1) (pos 1)) { sem = 1 };
  workers = waiting ∷ [];
  clients = [];
  closing = 0;
  submitted = [];
  popped = [];
  done = [];
}

closed_reached : Reach 0 closed
unfolding create_pool mark_closed post_sem
closed_reached =
    requested
      (requested
        (worked 0 (started (starts (pos 1) (pos 1) (pool_of (pos 1) (pos 1)) [] refl))
          (Work.enters refl refl))
        (Request.closes refl))
      (Request.wakes_one 0 refl)

abbrev sleeper : Worker ℕ
sleeper = waiting

waiting-ne-finished : sleeper ≢ finished
waiting-ne-finished e = cc

closed_progress_example : (t : System ℕ ℕ) × Work closed 0 t
closed_progress_example =
    closed_progress 0 waiting closed_reached refl refl refl waiting-ne-finished

closed_rank_example : 4 < 5
closed_rank_example = closed_rank {s = closed} {i = 0} (Work.wakes 0 refl refl) refl
