-- ===== src/SafeQueue/Semaphore.antt =====
-- safequeue/safequeue.h: the blocking interface, one call at a time, and what a step of it says
-- about the queue.
use simplechatserver.Prelude.{
  ◌⊎◌, inl, inr, ℕ, zero, suc, ◌≡◌, refl, ap, true, false, some, List, [], ◌∷◌, ◌++◌, length,
  length-append, arith, Outcome, returns, throws, blocks, Exception, block_already_enabled, ◌<◌,
}
use simplechatserver.SafeQueue.{
  SafeQueue, create, setblock, pop_b, push_b, post, wait_or_throw, take_first, take_first_of,
  sem_wait_at, sem_post_at,
}

module _ {ℓ} {A : Type ℓ} where
  -- The semaphore counts the queued items.
  pub record IsCoupled (q : SafeQueue A) : Type ℓ where
    pub blocking : q.isblock ≡ true
    pub counts : q.m_sem ≡ some (length q.list)

  -- The two ways an uninterrupted `pop_b` may end.
  abbrev pub PopsOldest : SafeQueue A → Outcome (SafeQueue A) A → Type ℓ
  PopsOldest q r =
      ((q.list ≡ []) × (r ≡ blocks q))
      ⊎ ((x : A) × (q' : SafeQueue A) × (q.list ≡ x ∷ q'.list) × (r ≡ returns x q') × IsCoupled q')

  pop_b_at :
      (q : SafeQueue A) (xs : List A)
      → q.list ≡ xs
      → q.isblock ≡ true
      → q.m_sem ≡ some (length xs)
      → PopsOldest q (pop_b false q)
  unfolding pop_b
  pop_b_at q [] e b c = inl (e, rw (c, sem_wait_at))
  pop_b_at q (x ∷ xs) e b c = inr (
    x,
    record q { list = xs; m_sem = some (length xs) },
    e,
    rw (c, sem_wait_at) (rw (e, take_first_of)),
    record { blocking = b; counts = refl },
  )

  -- `pop_b` on a queue whose semaphore counts its items waits exactly if the queue is empty;
  -- otherwise it returns the oldest item and leaves the others, counted by the semaphore.
  pub pop_b-PopsOldest : (q : SafeQueue A) → IsCoupled q → PopsOldest q (pop_b false q)
  pop_b-PopsOldest q v = pop_b_at q q.list refl v.blocking v.counts

  pub push_b-IsCoupled :
      (x : A) (q : SafeQueue A)
      → IsCoupled q
      → (q' : SafeQueue A) × (push_b x q ≡ returns tt q')
        × (q'.list ≡ q.list ++ (x ∷ []))
        × IsCoupled q'
  unfolding push_b
  push_b-IsCoupled x q v = (
    record q { list = q.list ++ (x ∷ []); m_sem = some (suc (length q.list)) },
    rw (v.counts, sem_post_at),
    refl,
    record {
      blocking = v.blocking;
      counts = ap some (omega (arith, length-append q.list (x ∷ [])));
    },
  )

  -- The first `setblock` on a new queue couples it; the second one throws and changes nothing.
  pub setblock_twice :
      (q : SafeQueue A)
      → setblock true create ≡ returns tt q
      → IsCoupled q × (setblock true q ≡ throws block_already_enabled q)
  unfolding setblock create
  setblock_twice q h = (record { blocking = ground arith; counts = ground arith }, ground arith)

  -- Inversions, for the steps of the concurrent protocol.
  pub take_first-returns :
      (q q' : SafeQueue A) (x : A)
      → take_first q ≡ returns x q'
      → (rest : List A) × (q.list ≡ x ∷ rest) × (q' ≡ record q { list = rest })
  unfolding take_first
  take_first-returns q q' x h = by_list q.list h
    where
      by_list :
          (xs : List A)
          → take_first_of xs q ≡ returns x q'
          → (rest : List A) × (xs ≡ x ∷ rest) × (q' ≡ record q { list = rest })
      by_list [] h = cc
      by_list (y ∷ ys) h = (ys, ground arith, ground arith)

  pub take_first-throws :
      (q q' : SafeQueue A) (e : Exception) → take_first q ≡ throws e q' → q.list ≡ []
  unfolding take_first
  take_first-throws q q' e h = by_list q.list h
    where
      by_list : (xs : List A) → take_first_of xs q ≡ throws e q' → xs ≡ []
      by_list [] h = refl
      by_list (y ∷ ys) h = cc

  pub take_first_total :
      (q : SafeQueue A)
      → 0 < length q.list
      → (x : A) × (q' : SafeQueue A) × (take_first q ≡ returns x q')
  unfolding take_first
  take_first_total q h = by_list q.list h
    where
      by_list :
          (xs : List A)
          → 0 < length xs
          → (x : A) × (q' : SafeQueue A) × (take_first_of xs q ≡ returns x q')
      by_list [] h = absurd (omega arith)
      by_list (x ∷ xs) h = (x, record q { list = xs }, refl)

  pub wait-returns :
      (q q' : SafeQueue A) (n : ℕ)
      → q.m_sem ≡ some n
      → wait_or_throw false q ≡ returns tt q'
      → (m : ℕ) × (n ≡ suc m) × (q' ≡ record q { m_sem = some m })
  unfolding wait_or_throw
  wait-returns q q' zero s h = absurd (ground arith)
  wait-returns q q' (suc n) s h = (n, refl, ground arith)

  pub wait-throws :
      (q q' : SafeQueue A) (e : Exception) → wait_or_throw true q ≡ throws e q' → q' ≡ q
  unfolding wait_or_throw
  wait-throws q q' e h = ground arith

  pub post-returns :
      (q q' : SafeQueue A) (n : ℕ)
      → q.m_sem ≡ some n
      → post q ≡ returns tt q'
      → q' ≡ record q { m_sem = some (suc n) }
  unfolding post
  post-returns q q' n s h = ground arith
