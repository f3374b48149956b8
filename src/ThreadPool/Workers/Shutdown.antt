-- ===== src/ThreadPool/Workers/Shutdown.antt =====
-- thread/threadpool.h, `close`: once it has run, every schedule of the workers ends with all of
-- them out of `work`, so the joins of the destructor return.
use simplechatserver.Prelude.{
  ℕ, zero, suc, ◌≡◌, ◌≢◌, ◌<◌, refl, inl, inr, true, some, get_elem?, total, total-set, arith,
  Bool-cases,
}
use simplechatserver.SafeQueue.{empty}
use simplechatserver.ThreadPool.{take_task}
use simplechatserver.ThreadPool.Workers.{
  Worker, testing, waiting, woken, popping, busy, finished, System, Work, Reach, enters, leaves,
  wakes, woken_by_signal, finds_empty, finds_task, takes, acts,
}
use simplechatserver.ThreadPool.Workers.Safety.{closed_wakes}

-- How many steps a worker has to go at most once the pool is closed.
abbrev pub rank {ℓ} : {T : Type ℓ} → Worker T → ℕ
rank testing = 1
rank waiting = 5
rank woken = 4
rank popping = 3
rank (busy task) = 2
rank finished = 0

module _ {ℓ κ} {F : Type ℓ} {T : Type κ} where
  -- With the pool closed, every step of a worker lowers the steps that the workers have to go.
  pub closed_rank :
      {s t : System F T} {i : ℕ}
      → Work s i t
      → s.pool.is_close ≡ true
      → total rank t.workers < total rank s.workers
  closed_rank {s} {i = i} (enters at opened) c = absurd (ground (arith, opened, c))
  closed_rank {s} {i = i} (leaves at e) c =
      omega (arith, total-set rank s.workers i testing finished at)
  closed_rank {s} {i = i} (wakes n at e) c =
      omega (arith, total-set rank s.workers i waiting woken at)
  closed_rank {s} {i = i} (woken_by_signal at) c =
      omega (arith, total-set rank s.workers i waiting woken at)
  closed_rank {s} {i = i} (finds_empty at e) c =
      omega (arith, total-set rank s.workers i woken testing at)
  closed_rank {s} {i = i} (finds_task at e) c =
      omega (arith, total-set rank s.workers i woken popping at)
  closed_rank {s} {i = i} (takes at) c =
      omega (arith, total-set rank s.workers i popping (busy (take_task s.pool).0) at)
  closed_rank {s} {i = i} (acts task at) c =
      omega (arith, total-set rank s.workers i (busy task) testing at)

  -- In every reached state with the pool closed and the posts of `close` made, each worker that has
  -- not finished can make a step.
  pub closed_progress :
      {m : ℕ} {s : System F T} (i : ℕ) (w : Worker T)
      → Reach m s
      → s.pool.is_close ≡ true
      → s.closing ≡ 0
      → get_elem? s.workers i ≡ some w
      → w ≢ finished
      → (t : System F T) × Work s i t
  closed_progress i testing r c e at ne = (_, leaves at c)
  closed_progress {s} i waiting r c e at ne = wake s.pool.sem refl (closed_wakes i r c e at)
    where
      wake : (n : ℕ) → s.pool.sem ≡ n → 0 < n → (t : System F T) × Work s i t
      wake zero q h = absurd (omega arith)
      wake (suc n) q h = (_, wakes n at q)
  closed_progress {s} i woken r c e at ne = elim (Bool-cases (empty s.pool.task_queue)) [
    | inl nothing ↦ (_, finds_empty at nothing)
    | inr something ↦ (_, finds_task at something)
  ]
  closed_progress i popping r c e at ne = (_, takes at)
  closed_progress i (busy task) r c e at ne = (_, acts task at)
  closed_progress i finished r c e at ne = absurd (ne refl)
