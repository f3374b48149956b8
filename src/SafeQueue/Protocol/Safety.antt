-- ===== src/SafeQueue/Protocol/Safety.antt =====
-- What holds of `push_b` and `pop_b` in every interleaving, and what a non-blocking call among
-- them would break.
use simplechatserver.Prelude.{
  total-ge, ℕ, suc, ◌≡◌, ◌≢◌, refl, ap, ◌∙◌, false, some, List, [], ◌∷◌, ◌++◌, length, total,
  get_elem?, arith, returns, throws, blocks, list_is_empty,
}
use simplechatserver.SafeQueue.{SafeQueue, push, pop, pop_b, take_first, sem_wait_at, pop_from}
use simplechatserver.SafeQueue.Semaphore.{IsCoupled, PopsOldest, pop_b-PopsOldest, take_first_total}
use simplechatserver.SafeQueue.Protocol.{Pc, idle, granted, failed, System, Reach}
use simplechatserver.SafeQueue.Protocol.Invariant.{Inv, Reach-Inv, posting, taking, broken}

total-idle :
    (f : Pc → ℕ) (ts : List Pc)
    → f idle ≡ 0
    → ((i : ℕ) (p : Pc) → get_elem? ts i ≡ some p → p ≡ idle)
    → total f ts ≡ 0
total-idle f [] z h = refl
total-idle f (x ∷ ts) z h = omega (arith, ap f (h 0 x refl), z, total-idle f ts z (λ i. h (suc i)))

module _ {ℓ} {A : Type ℓ} where
  -- In every state that threads reach by `push_b` and `pop_b` alone, no thread has thrown
  -- "list is empty!".
  pub never_failed :
      {n : ℕ} {s : System A} → Reach n s → (i : ℕ) → get_elem? s.threads i ≢ some failed
  never_failed {s} r i at =
      absurd (omega (arith, (Reach-Inv r).unbroken, total-ge broken s.threads i failed at))

  -- In every state that threads reach by `push_b` and `pop_b` alone, a thread that has passed the
  -- semaphore of `pop_b` finds an item under the mutex and returns it.
  pub granted_takes :
      {n : ℕ} {s : System A}
      → Reach n s
      → (i : ℕ) → get_elem? s.threads i ≡ some granted
      → (x : A) × (q : SafeQueue A) × (take_first s.queue ≡ returns x q)
  granted_takes {s} r i at =
      take_first_total s.queue
        (omega (arith, (Reach-Inv r).balance, total-ge taking s.threads i granted at))

  -- What the `pop_b` calls of all threads returned, in the order of their turns at the mutex,
  -- followed by what is queued, is what the `push_b` calls stored, in the order of theirs.
  pub received-sent : {n : ℕ} {s : System A} → Reach n s → s.received ++ s.queue.list ≡ s.sent
  received-sent r = (Reach-Inv r).in_order

  -- No wake-up is lost: in every reached state in which no thread is inside a call, an
  -- uninterrupted `pop_b` waits if nothing is queued, and otherwise returns the oldest item at
  -- once.
  pub quiet_pop_b :
      {n : ℕ} {s : System A}
      → Reach n s
      → ((i : ℕ) (p : Pc) → get_elem? s.threads i ≡ some p → p ≡ idle)
      → PopsOldest s.queue (pop_b false s.queue)
  quiet_pop_b {s} r quiet =
      pop_b-PopsOldest s.queue (record { blocking = v.blocking; counts = counted })
    where
      v : Inv s
      v = Reach-Inv r

      counted : s.queue.m_sem ≡ some (length s.queue.list)
      counted =
          v.has_sem
          ∙ ap some (
              omega (
                arith,
                v.balance,
                total-idle taking s.threads refl quiet,
                total-idle posting s.threads refl quiet,
              ))

  -- The two modes do not mix: on an empty blocking queue an item stored by `push` is not seen by
  -- `pop_b`, which waits with the item queued.
  pub pop_b-push :
      (x : A) (q : SafeQueue A)
      → IsCoupled q
      → q.list ≡ []
      → pop_b false (push x q) ≡ blocks (record q { list = x ∷ [] })
  unfolding pop_b push
  pop_b-push x q v e =
      let c : q.m_sem ≡ some 0 = v.counts ∙ ap (λ l. some (length l)) e in
      rw (c, sem_wait_at) (rw e)

  -- On a blocking queue whose semaphore counts its items: once `pop` has taken the only item,
  -- `pop_b` throws "list is empty!" instead of waiting, and has used up the item's token.
  pub pop_b-pop :
      (default x : A) (q : SafeQueue A)
      → IsCoupled q
      → q.list ≡ x ∷ []
      → pop_b false (pop default q).1
        ≡ throws list_is_empty (record q { list = []; m_sem = some 0 })
  unfolding pop_b pop
  pop_b-pop default x q v e =
      let c : q.m_sem ≡ some 1 = v.counts ∙ ap (λ l. some (length l)) e in
      rw (e, pop_from) (rw (c, sem_wait_at))
