-- ===== src/BlockQueue/Tests.antt =====
-- A queue for two items, and the theorems on it.
use simplechatserver.Prelude.{
  ℕ, ◌≡◌, refl, true, false, none, some, List, [], ◌∷◌, arith, pos, returns,
}
use simplechatserver.BlockQueue.{BlockQueue, front, pop}
use simplechatserver.BlockQueue.Refinement.{Holds}
use simplechatserver.BlockQueue.Front.{front-pop}
use simplechatserver.BlockQueue.Runs.{
  Call, pushes, pops, clears, asks_full, asks_empty, asks_size, asks_max_size, pushed, popped,
  cleared, told, counted, run, run-Holds,
}

abbrev two : BlockQueue ℕ
two = record { m_array = 7 ∷ 8 ∷ []; m_size = 2; m_max_size = 2; m_front = pos 0; m_back = pos 0 }

two-Holds : Holds two (8 ∷ 7 ∷ [])
two-Holds = record {
  some_room = omega arith;
  allocated = refl;
  counted = refl;
  bounded = omega arith;
  front_index = tt;
  back_index = tt;
  stored = refl;
  behind = refl;
}

abbrev calls : List (Call ℕ)
calls =
    pushes 9
    ∷ asks_full
    ∷ pops
    ∷ pushes 9
    ∷ pops
    ∷ pops
    ∷ pops
    ∷ asks_empty
    ∷ pushes 4
    ∷ clears
    ∷ asks_size
    ∷ asks_max_size
    ∷ []

run-Holds_example :
    (q' : BlockQueue ℕ) × (run calls two
      ≡ some (
        pushed false
            ∷ told true
            ∷ popped (some 8)
            ∷ pushed true
            ∷ popped (some 7)
            ∷ popped (some 9)
            ∷ popped none
            ∷ told true
            ∷ pushed true
            ∷ cleared
            ∷ counted 0
            ∷ counted 2
            ∷ [],
        q',
      ))
    × Holds q' []
run-Holds_example = run-Holds 2 calls two (8 ∷ 7 ∷ []) refl two-Holds

front-pop_example :
    (q' : BlockQueue ℕ) × (pop true two ≡ returns (some 8) q')
    × Holds q' (7 ∷ [])
    × (front q' ≡ returns (some 8) q')
front-pop_example = front-pop true 8 7 two [] two-Holds
