-- ===== src/ThreadPool/Workers/Invariant.antt =====
-- The invariant of the workers, the submitters and the queue, and that it holds at the start.
use mathlib.Core.Option.{some-injective}
use simplechatserver.Prelude.{
  ◌⊎◌, ℕ, zero, suc, ◌+◌, ◌≡◌, ◌<◌, ◌≤◌, refl, sym, ap, ◌∙◌, inl, true, false, some, List, [], ◌∷◌,
  ◌++◌, replicate, length, length-replicate, total, ltb→lt, arith, ℤ, to_size, rounds_of, pos,
  negsuc,
}
use simplechatserver.SafeQueue.{SafeQueue, empty, is_nil}
use simplechatserver.ThreadPool.{ThreadPool, has_room, create_pool}
use simplechatserver.ThreadPool.Workers.{
  Worker, testing, waiting, woken, popping, Client, outside, checked, stored, System, Start, starts,
}

module _ {κ} {T : Type κ} where
  -- A worker that holds a token of the semaphore and has not popped yet.
  abbrev pub holds : Worker T → ℕ
  holds woken = 1
  holds popping = 1
  holds _ = 0

  abbrev pub waits : Worker T → ℕ
  waits waiting = 1
  waits _ = 0

  -- A client that has still to post for a stored task, and one that has still to store.
  abbrev pub owes : Client T → ℕ
  owes stored = 1
  owes _ = 0

  abbrev pub admitted : Client T → ℕ
  admitted (checked task) = 1
  admitted _ = 0

  pub admitted-le-one : (c : Client T) → admitted c ≤ 1
  admitted-le-one outside = omega arith
  admitted-le-one (checked task) = omega arith
  admitted-le-one stored = omega arith

  pub waits-le-one : (w : Worker T) → waits w ≤ 1
  waits-le-one waiting = omega arith
  waits-le-one _ = omega arith

total-start {ℓ} : {A : Type ℓ} (f : A → ℕ) (n : ℕ) (a : A) → f a ≡ 0 → total f (replicate n a) ≡ 0
total-start f zero a h = refl
total-start f (suc n) a h = omega (arith, h, total-start f n a h)

pub empty-length {ℓ} : {A : Type ℓ} (q : SafeQueue A) → empty q ≡ true → length q.list ≡ 0
unfolding empty
empty-length {A} q e = by_list q.list e
  where
    by_list : (xs : List A) → is_nil xs ≡ true → length xs ≡ 0
    by_list [] e = refl
    by_list (x ∷ xs) e = cc

pub has_room-lt {ℓ κ} :
    {F : Type ℓ} {T : Type κ} (p : ThreadPool F T)
    → has_room p ≡ true
    → length p.task_queue.list < to_size p.maxrequest
unfolding has_room
has_room-lt p e = ltb→lt _ _ e

module _ {ℓ κ} {F : Type ℓ} {T : Type κ} where
  pub record Inv (m : ℕ) (s : System F T) : Type (ℓ ⊔ κ) where
    -- A queued task has a token, in the semaphore, with a worker or still owed by a client.
    pub tokens :
        length s.pool.task_queue.list ≤ s.pool.sem + total holds s.workers + total owes s.clients
    -- Each client may have passed the test of `append` before the others stored.
    pub bounded :
        length s.pool.task_queue.list + total admitted s.clients + 1 ≤ to_size s.pool.maxrequest + m
    pub population : length s.clients ≡ m
    pub crew : length s.workers ≡ rounds_of s.pool.thread_count
    pub in_order : s.popped ++ s.pool.task_queue.list ≡ s.submitted
    -- After `close` has begun there is a post, made or to come, for each waiting worker.
    pub wake_ups : (s.pool.is_close ≡ false) ⊎ (total waits s.workers ≤ s.pool.sem + s.closing)

  record Created (thread_count : ℤ) (p : ThreadPool F T) : Type (ℓ ⊔ κ) where
    nothing_queued : p.task_queue.list ≡ []
    room : 0 < to_size p.maxrequest
    count : p.thread_count ≡ thread_count

  create_pool-Created :
      (thread_count maxrequest : ℤ) (p : ThreadPool F T)
      → create_pool thread_count maxrequest ≡ some p
      → Created thread_count p
  unfolding create_pool
  create_pool-Created (pos (suc n)) (pos (suc k)) p e =
      let same = some-injective _ _ e in
      record {
        nothing_queued = sym (ap (λ c. c.task_queue.list) same);
        room = omega (arith, ap (λ c. to_size c.maxrequest) same);
        count = sym (ap (λ c. c.thread_count) same);
      }
  create_pool-Created (pos zero) maxrequest p e = cc
  create_pool-Created (negsuc n) maxrequest p e = cc
  create_pool-Created (pos (suc n)) (pos zero) p e = cc
  create_pool-Created (pos (suc n)) (negsuc k) p e = cc

  pub Start-Inv : {m : ℕ} {s : System F T} → Start m s → Inv m s
  Start-Inv {m} (starts thread_count maxrequest p funbox e) =
      let c = create_pool-Created thread_count maxrequest p e in
      record {
        tokens = omega (arith, ap length c.nothing_queued);
        bounded = omega (
          arith,
          ap length c.nothing_queued,
          c.room,
          total-start (admitted {T = T}) m outside refl,
        );
        population = length-replicate m outside;
        crew = length-replicate (rounds_of thread_count) testing ∙ ap rounds_of (sym c.count);
        in_order = c.nothing_queued;
        wake_ups = inl refl;
      }
