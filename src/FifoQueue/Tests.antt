-- ===== src/FifoQueue/Tests.antt =====
-- One run on both queues.
use simplechatserver.Prelude.{
  ℕ, ◌≡◌, refl, false, none, some, List, [], ◌∷◌, ◌++◌, arith, negsuc, pos,
}
use simplechatserver.SafeQueue.{SafeQueue}
use simplechatserver.BlockQueue.{BlockQueue}
use simplechatserver.BlockQueue.Refinement.{Holds}
use simplechatserver.FifoQueue.{Op, pushes, pops, Run, run}
use simplechatserver.FifoQueue.Queues.{safe_queue, block_queue, both_in_order}

abbrev unbounded : SafeQueue ℕ
unbounded = record { list = 8 ∷ []; isblock = false; m_sem = none; m_max_count = negsuc 0 }

-- It has two places.
abbrev bounded : BlockQueue ℕ
bounded = record {
  m_array = 7 ∷ 8 ∷ [];
  m_size = 1;
  m_max_size = 2;
  m_front = pos 0;
  m_back = pos 1;
}

bounded-Holds : Holds bounded (8 ∷ [])
bounded-Holds = record {
  some_room = omega arith;
  allocated = refl;
  counted = refl;
  bounded = omega arith;
  front_index = tt;
  back_index = tt;
  stored = refl;
  behind = refl;
}

abbrev ops : List (Op ℕ)
ops = pushes 1 ∷ pushes 2 ∷ pops ∷ pops ∷ []

both_in_order_example :
    ((r : Run ℕ (SafeQueue ℕ)) × (run ⦃F = safe_queue 0⦄ ops unbounded ≡ some r)
      × (r.taken ++ r.queue.list ≡ 8 ∷ r.stored))
    × ((r : Run ℕ (BlockQueue ℕ)) × (left : List ℕ) × (run ⦃F = block_queue⦄ ops bounded ≡ some r)
        × Holds r.queue left
        × (r.taken ++ left ≡ 8 ∷ r.stored))
both_in_order_example = both_in_order 0 ops (8 ∷ []) unbounded bounded refl bounded-Holds
