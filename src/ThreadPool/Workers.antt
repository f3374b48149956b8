-- ===== src/ThreadPool/Workers.antt =====
-- thread/threadpool.h: `work`, `append` and `close` run by any number of threads at once. Each
-- access to the queue or to the semaphore is one step, and any thread may move between two steps.
pub mod Invariant
pub mod Preserving
pub mod Safety
pub mod Shutdown
use simplechatserver.Prelude.{
  ℕ, zero, suc, ◌+◌, ◌≡◌, ◌<◌, Bool, true, false, Option, none, some, List, [], ◌∷◌, ◌++◌,
  get_elem?, set, replicate, length, ℤ, rounds_of, ◌≤◌, if◌then◌else◌,
}
use simplechatserver.SafeQueue.{SafeQueue, empty}
use simplechatserver.ThreadPool.{
  ThreadPool, Task, Action, has_room, enqueue, post_sem, take_task, dispatch, mark_closed,
  create_pool,
}

-- Where a worker stands in `work`.
pub data Worker {ℓ} (T : Type ℓ) : Type ℓ where
  testing : Worker T  -- at `while (!isClose)`
  waiting : Worker T  -- before `sem_wait`
  woken : Worker T  -- before `taskQueue.empty()`
  popping : Worker T  -- before `taskQueue.pop()`
  busy : Task T → Worker T  -- from the pop to the end of the body
  finished : Worker T  -- `work` has returned

-- Where a thread stands that calls `append`.
pub data Client {ℓ} (T : Type ℓ) : Type ℓ where
  outside : Client T
  checked : Task T → Client T  -- the size test has passed
  stored : Client T  -- before `sem_post`

-- `closing` counts the posts that `close` has still to make. `submitted`, `popped` and `done`
-- record what was stored, what the workers got from their pops, and what they did with it.
pub record System {ℓ κ} (F : Type ℓ) (T : Type κ) : Type (ℓ ⊔ κ) where
  pub pool : ThreadPool F T
  pub workers : List (Worker T)
  pub clients : List (Client T)
  pub closing : ℕ
  pub submitted : List (Task T)
  pub popped : List (Task T)
  pub done : List (Action F T)

module _ {ℓ κ} {F : Type ℓ} {T : Type κ} where
  -- The task that a worker gets from `taskQueue.pop()`. The pop of an empty queue, which two workers
  -- that have both found one task can come to, gives the default task and takes nothing out.
  abbrev pub received : ThreadPool F T → List (Task T)
  received p = if empty p.task_queue then [] else (take_task p).0 ∷ []

  -- A step of the i-th worker.
  pub data Work (s : System F T) (i : ℕ) : System F T → Type (ℓ ⊔ κ) where
    enters :
        get_elem? s.workers i ≡ some testing
        → s.pool.is_close ≡ false
        → Work s i (record s { workers = set s.workers i waiting })
    leaves :
        get_elem? s.workers i ≡ some testing
        → s.pool.is_close ≡ true
        → Work s i (record s { workers = set s.workers i finished })
    wakes :
        (n : ℕ)
        → get_elem? s.workers i ≡ some waiting
        → s.pool.sem ≡ suc n
        → Work s i (record s { pool = record s.pool { sem = n }; workers = set s.workers i woken })
    -- The result of `sem_wait` is not looked at, so a signal lets the worker through too.
    woken_by_signal :
        get_elem? s.workers i ≡ some waiting
        → Work s i (record s { workers = set s.workers i woken })
    finds_empty :
        get_elem? s.workers i ≡ some woken
        → empty s.pool.task_queue ≡ true
        → Work s i (record s { workers = set s.workers i testing })
    finds_task :
        get_elem? s.workers i ≡ some woken
        → empty s.pool.task_queue ≡ false
        → Work s i (record s { workers = set s.workers i popping })
    takes :
        get_elem? s.workers i ≡ some popping
        → Work s i (record s {
          pool = (take_task s.pool).1;
          workers = set s.workers i (busy (take_task s.pool).0);
          popped = s.popped ++ received s.pool;
        })
    acts :
        (task : Task T)
        → get_elem? s.workers i ≡ some (busy task)
        → Work s i (record s {
          workers = set s.workers i testing;
          done = s.done ++ (dispatch s.pool.funbox task ∷ []);
        })

  -- A step of a thread that calls `append`, or of the one that calls `close`.
  pub data Request (s : System F T) : System F T → Type (ℓ ⊔ κ) where
    checks :
        (j : ℕ) (task : Task T)
        → get_elem? s.clients j ≡ some outside
        → has_room s.pool ≡ true
        → Request s (record s { clients = set s.clients j (checked task) })
    stores :
        (j : ℕ) (task : Task T)
        → get_elem? s.clients j ≡ some (checked task)
        → Request s (record s {
          pool = enqueue task s.pool;
          clients = set s.clients j stored;
          submitted = s.submitted ++ (task ∷ []);
        })
    posts :
        (j : ℕ)
        → get_elem? s.clients j ≡ some stored
        → Request s (record s { pool = post_sem s.pool; clients = set s.clients j outside })
    closes :
        s.closing ≡ 0
        → Request s
            (record s { pool = mark_closed s.pool; closing = rounds_of s.pool.thread_count })
    wakes_one :
        (n : ℕ) → s.closing ≡ suc n → Request s (record s { pool = post_sem s.pool; closing = n })

  -- A started pool: one worker for each of `thread_count`, at the top of `work`, and `m` threads
  -- that may call `append`.
  pub data Start (m : ℕ) : System F T → Type (ℓ ⊔ κ) where
    starts :
        (thread_count maxrequest : ℤ) (p : ThreadPool F T) (funbox : List F)
        → create_pool thread_count maxrequest ≡ some p
        → Start m (record {
          pool = record p { is_close = false; funbox = funbox };
          workers = replicate (rounds_of thread_count) testing;
          clients = replicate m outside;
          closing = 0;
          submitted = [];
          popped = [];
          done = [];
        })

  pub data Reach (m : ℕ) : System F T → Type (ℓ ⊔ κ) where
    started : {s : System F T} → Start m s → Reach m s
    worked : {s t : System F T} (i : ℕ) → Reach m s → Work s i t → Reach m t
    requested : {s t : System F T} → Reach m s → Request s t → Reach m t
