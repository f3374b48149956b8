-- ===== src/FifoQueue/Queues.antt =====
-- Both queues keep the laws.
use simplechatserver.Prelude.{
  ◌≡◌, refl, ap, ◌∙◌, inl, inr, Bool, true, false, Option, none, some, List, [], ◌∷◌, ◌++◌, leb,
  le→leb, arith, if◌then◌else◌, Outcome, returns,
}
use simplechatserver.SafeQueue
use simplechatserver.SafeQueue.{SafeQueue}
use simplechatserver.BlockQueue
use simplechatserver.BlockQueue.{BlockQueue}
use simplechatserver.BlockQueue.Refinement.{Holds, push-Holds, pop-Holds}
use simplechatserver.FifoQueue.{FifoQueue, Op, Run, run, run-EndsInOrder}

-- `push`, and `pop` where `empty` has been asked first, as the thread pool does.
abbrev pub guarded_pop : {A : Type 0} → A → SafeQueue A → Option (Option A × SafeQueue A)
guarded_pop default q =
    if SafeQueue.empty q
    then some (none, q)
    else let (x, q') = SafeQueue.pop default q in some (some x, q')

abbrev pub safe_queue : {A : Type 0} → A → FifoQueue A (SafeQueue A)
unfolding SafeQueue.push SafeQueue.pop SafeQueue.empty
safe_queue default = record {
  Holds = λ q l. q.list ≡ l;
  push = λ x q. some (true, SafeQueue.push x q);
  pop = guarded_pop default;
  push_law = λ x q l h. (true, SafeQueue.push x q, refl, ap (λ k. k ++ (x ∷ [])) h);
  pop_law = λ x q l h. (record q { list = l }, rw h, refl);
  empty_law = λ q h. (q, rw h, h);
}

-- What a call of the circular queue returns.
abbrev pub finished : {A B : Type 0} → Outcome (BlockQueue A) B → Option (B × BlockQueue A)
finished (returns b q) = some (b, q)
finished _ = none

pub block_queue_empty :
    {A : Type 0} (q : BlockQueue A) → Holds q [] → BlockQueue.pop_timed none q ≡ returns none q
unfolding BlockQueue.pop_timed
block_queue_empty q h =
    let gone : leb q.m_size 0 ≡ true = le→leb _ _ (omega (arith, h.counted)) in rw gone

pub block_queue_push :
    {A : Type 0} (x : A) (q : BlockQueue A) (l : List A)
    → Holds q l
    → (b : Bool) × (q' : BlockQueue A) × (finished (BlockQueue.push x q) ≡ some (b, q'))
      × Holds q' (if b then l ++ (x ∷ []) else l)
block_queue_push x q l h = elim (push-Holds x q l h) [
  | inl (_, refused) ↦ (false, q, ap finished refused, h)
  | inr (_, (q', taken, _, h')) ↦ (true, q', ap finished taken, h')
]

abbrev pub block_queue : {A : Type 0} → FifoQueue A (BlockQueue A)
block_queue = record {
  Holds = Holds;
  push = λ x q. finished (BlockQueue.push x q);
  pop = λ q. finished (BlockQueue.pop_timed none q);
  push_law = block_queue_push;
  pop_law = λ x q l h.
      let (q', _, popped, _, h') = pop-Holds true none x q l h in (q', ap finished popped, h');
  empty_law = λ q h. (q, ap finished (block_queue_empty q h), h);
}

-- The same run of pushes and pops on a SafeQueue and on a block_queue that hold the same items, `l`:
-- both end, and on each of them what it has given out and then what it holds is `l` and then what it
-- has stored.
pub both_in_order :
    {A : Type 0} (default : A) (ops : List (Op A)) (l : List A) (q : SafeQueue A) (b : BlockQueue A)
    → q.list ≡ l
    → Holds b l
    → ((r : Run A (SafeQueue A)) × (run ⦃F = safe_queue default⦄ ops q ≡ some r)
        × (r.taken ++ r.queue.list ≡ l ++ r.stored))
      × ((r : Run A (BlockQueue A)) × (left : List A) × (run ⦃F = block_queue⦄ ops b ≡ some r)
          × Holds r.queue left
          × (r.taken ++ left ≡ l ++ r.stored))
unfolding safe_queue
both_in_order default ops l q b same holds =
    let (r, left, ran, held, in_order) = run-EndsInOrder ⦃F = safe_queue default⦄ ops q l same in
    (
      (r, ran, ap (λ k. r.taken ++ k) held ∙ in_order),
      run-EndsInOrder ⦃F = block_queue⦄ ops b l holds,
    )
