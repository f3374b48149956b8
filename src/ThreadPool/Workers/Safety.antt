-- ===== src/ThreadPool/Workers/Safety.antt =====
-- What holds of a started pool in every interleaving of its workers, of `append` and of `close`.
use simplechatserver.Prelude.{
  ℕ, ◌+◌, ◌≡◌, ◌<◌, ◌≤◌, inl, inr, true, some, ◌++◌, get_elem?, length, total, total-ge, arith,
  to_size,
}
use simplechatserver.ThreadPool.Workers.{waiting, System, Reach}
use simplechatserver.ThreadPool.Workers.Preserving.{Reach-Inv}
use simplechatserver.ThreadPool.Workers.Invariant.{holds, waits, owes}

module _ {ℓ κ} {F : Type ℓ} {T : Type κ} where
  -- In every reached state with `m` threads that call `append`, `m` at least one, the queue holds
  -- at most `maxrequest + m - 1` tasks. (`append` tests the size and stores in two steps.)
  pub queue_bound :
      {m : ℕ} {s : System F T}
      → Reach m s
      → length s.pool.task_queue.list + 1 ≤ to_size s.pool.maxrequest + m
  queue_bound r = omega (arith, (Reach-Inv r).bounded)

  -- The tasks that `pop` has given to the workers, in the order of their pops and without the pops
  -- of an empty queue, followed by those that are queued, are the tasks that `append` stored, in the order of the stores: none is lost, served
  -- twice or overtaken.
  pub popped-submitted :
      {m : ℕ} {s : System F T} → Reach m s → s.popped ++ s.pool.task_queue.list ≡ s.submitted
  popped-submitted r = (Reach-Inv r).in_order

  -- In every reached state the queue has at most as many tasks as the value of the semaphore, the
  -- workers between `sem_wait` and their pop, and the threads that have stored a task and not yet
  -- posted for it, taken together: for each queued task there is a post, made or
  -- still to come, that no pop has used up.
  pub queued_tasks_are_posted :
      {m : ℕ} {s : System F T}
      → Reach m s
      → length s.pool.task_queue.list ≤ s.pool.sem + total holds s.workers + total owes s.clients
  queued_tasks_are_posted r = (Reach-Inv r).tokens

  -- `close` leaves no worker behind: in every reached state with the pool closed and the posts of
  -- `close` made, a worker that waits at the semaphore finds it positive.
  pub closed_wakes :
      {m : ℕ} {s : System F T} (i : ℕ)
      → Reach m s
      → s.pool.is_close ≡ true
      → s.closing ≡ 0
      → get_elem? s.workers i ≡ some waiting
      → 0 < s.pool.sem
  closed_wakes {s} i r closed made at = elim (Reach-Inv r).wake_ups [
    | inl opened ↦ absurd (ground (arith, closed, opened))
    | inr h ↦ omega (arith, h, made, total-ge waits s.workers i waiting at)
  ]
