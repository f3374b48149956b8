-- ===== src/ThreadPool.antt =====
-- thread/threadpool.h, class ThreadPool. The parameters `F` and `T` stand for
-- `std::function<int(T*)>` and for the objects behind `T*`; null is `none`.
pub mod Calls
pub mod Workers
mod Tests
use simplechatserver.Prelude.{
  ℕ, zero, suc, ◌+◌, ◌-◌, Bool, true, false, ◌&&◌, not, Option, none, some, List, [], ◌∷◌, ◌++◌,
  length, get_elem?, ltb, if◌then◌else◌, ℤ, pos, negsuc, to_size, rounds_of, is_positive,
  is_negative, Outcome, returns, throws, undefined, Method, ◌>>=◌, pthread_create_error,
}
use simplechatserver.SafeQueue.{SafeQueue, create, push, pop, size, empty}

-- `std::pair<int, T*>`
abbrev pub Task {ℓ} : Type ℓ → Type ℓ
Task T = ℤ × Option T

-- `threads` is `none` once the vector has been deleted; its entries are the ids that
-- `pthread_create` gave out.
pub record ThreadPool {ℓ κ} (F : Type ℓ) (T : Type κ) : Type (ℓ ⊔ κ) where
  pub task_queue : SafeQueue (Task T)
  pub thread_count : ℤ
  pub maxrequest : ℤ
  pub is_close : Bool
  pub threads : Option (List ℕ)
  pub sem : ℕ
  pub funbox : List F

-- What a worker does with the pair that it has popped.
pub data Action {ℓ κ} (F : Type ℓ) (T : Type κ) : Type (ℓ ⊔ κ) where
  calls : F → T → Action F T
  deletes : T → Action F T
  sleeps : Action F T

-- `funbox.at(n)` behind the test of `work`: `none` if `n` is no index of it.
abbrev pub lookup_fun {ℓ} : {F : Type ℓ} → List F → ℤ → Option F
lookup_fun funbox (pos n) = get_elem? funbox n
lookup_fun funbox (negsuc n) = none

module _ {ℓ κ} {F : Type ℓ} {T : Type κ} where
  -- `ThreadPool(int threadCount, int maxrequest)`; `none` is the exception for an argument that is
  -- not positive.
  unfoldable pub create_pool : ℤ → ℤ → Option (ThreadPool F T)
  unfolding create
  create_pool thread_count maxrequest =
      if is_positive thread_count && is_positive maxrequest
      then some (record {
        task_queue = create;
        thread_count = thread_count;
        maxrequest = maxrequest;
        is_close = true;
        threads = some [];
        sem = 0;
        funbox = [];
      })
      else none

  -- The test of `append`.
  unfoldable pub has_room : ThreadPool F T → Bool
  unfolding size
  has_room p = ltb (size p.task_queue) (to_size p.maxrequest)

  -- `taskQueue.push(make_pair(state, reqstruct))`
  unfoldable pub enqueue : Task T → ThreadPool F T → ThreadPool F T
  unfolding push
  enqueue task p = record p { task_queue = push task p.task_queue }

  -- `sem_post(&sem)`
  unfoldable pub post_sem : ThreadPool F T → ThreadPool F T
  post_sem p = record p { sem = suc p.sem }

  -- `append(reqstruct, state)`, with no other thread in between.
  unfoldable pub append : Option T → ℤ → ThreadPool F T → Bool × ThreadPool F T
  unfolding has_room enqueue post_sem
  append reqstruct state p =
      if has_room p then (true, post_sem (enqueue (state, reqstruct) p)) else (false, p)

  -- `taskQueue.pop()` in `work`; on an empty queue the pair is `(0, nullptr)`.
  unfoldable pub take_task : ThreadPool F T → Task T × ThreadPool F T
  unfolding pop
  take_task p =
      let (task, q) = pop (pos 0, none) p.task_queue in (task, record p { task_queue = q })

  abbrev pub call_or_delete : Option F → T → Action F T
  call_or_delete (some f) t = calls f t
  call_or_delete none t = deletes t

  -- The body of `work` from `task.second != nullptr` on.
  unfoldable pub dispatch : List F → Task T → Action F T
  dispatch funbox (state, none) = sleeps
  dispatch funbox (state, some t) = call_or_delete (lookup_fun funbox state) t

  -- The loop of `start()`: `id_of i` is the id that the i-th `pthread_create` gives, `none` its
  -- failure.
  unfoldable pub start_loop : (ℕ → Option ℕ) → ℕ → ℕ → Method (ThreadPool F T) (Unit {0})
  start_loop id_of zero i p = returns tt p
  start_loop id_of (suc rounds) i p = elim (id_of i) [
    | none ↦ throws pthread_create_error (record p { threads = none })
    | some id ↦ elim p.threads [
      | none ↦ undefined
      | some ids ↦ start_loop id_of rounds (i + 1) (record p { threads = some (ids ++ (id ∷ [])) })
    ]
  ]

  -- `start()`
  unfoldable pub start : (ℕ → Option ℕ) → Method (ThreadPool F T) (Unit {0})
  unfolding start_loop
  start id_of p = start_loop id_of (rounds_of p.thread_count) 0 (record p { is_close = false })

  -- `isClose = true`, the first statement of `close()`.
  unfoldable pub mark_closed : ThreadPool F T → ThreadPool F T
  mark_closed p = record p { is_close = true }

  -- `close()`, with no other thread in between.
  unfoldable pub close : ThreadPool F T → ThreadPool F T
  unfolding mark_closed
  close p = record (mark_closed p) { sem = p.sem + rounds_of p.thread_count }

  -- `addFunction(fun)`
  unfoldable pub add_function : F → ThreadPool F T → ℕ × ThreadPool F T
  add_function fun p =
      let funbox = p.funbox ++ (fun ∷ []) in (length funbox - 1, record p { funbox = funbox })

  -- `~ThreadPool()`: reading a deleted vector is undefined; else the joined ids are the result.
  unfoldable pub destroy : Method (ThreadPool F T) (List ℕ)
  unfolding close
  destroy p = elim p.threads [
    | none ↦ undefined
    | some ids ↦ returns ids (record (close p) { threads = none })
  ]
