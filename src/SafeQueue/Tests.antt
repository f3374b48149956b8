-- ===== src/SafeQueue/Tests.antt =====
-- Runs of the queue at small inputs, and the theorems at inputs that meet their hypotheses.
use simplechatserver.Prelude.{
  ℕ, ◌≡◌, refl, true, false, some, none, List, [], ◌∷◌, ◌++◌, returns, pos, negsuc, ◌<◌, length,
}
use simplechatserver.SafeQueue.{
  SafeQueue, create, push, pop_many, push_b, is_full, take_first, wait_or_throw, post,
}
use simplechatserver.SafeQueue.Fifo.{Call, pushes, pops, pops_many, taken, run}
use simplechatserver.SafeQueue.Bounds.{pop_many-pos, push-is_full}
use simplechatserver.SafeQueue.Semaphore.{IsCoupled, push_b-IsCoupled}
use simplechatserver.SafeQueue.Protocol.{System, Reach, Step, started, later, idle, granted}
use simplechatserver.SafeQueue.Protocol.Safety.{granted_takes, received-sent}

abbrev two : SafeQueue ℕ
two = record { list = 4 ∷ 5 ∷ []; isblock = false; m_sem = none; m_max_count = negsuc 0 }

abbrev calls : List (Call ℕ)
calls = pushes 6 ∷ pops ∷ pops_many (negsuc 0) ∷ pops ∷ []

calls_run : taken 0 calls two ≡ 4 ∷ 5 ∷ 6 ∷ []
unfolding taken run
calls_run = refl

pop_many-pos_example :
    ((pop_many (pos 1) two).0 ≡ 4 ∷ []) × ((pop_many (pos 1) two).1.list ≡ 5 ∷ [])
pop_many-pos_example = pop_many-pos 1 two

abbrev full_two : SafeQueue ℕ
full_two = record two { m_max_count = pos 2 }

push-is_full_example : (2 < length (push 6 full_two).list) × (is_full (push 6 full_two) ≡ true)
unfolding is_full
push-is_full_example = push-is_full 6 full_two refl

abbrev coupled : SafeQueue ℕ
coupled = record { list = 4 ∷ 5 ∷ []; isblock = true; m_sem = some 2; m_max_count = negsuc 0 }

coupled-IsCoupled : IsCoupled coupled
coupled-IsCoupled = record { blocking = refl; counts = refl }

push_b-IsCoupled_example :
    (q' : SafeQueue ℕ) × (push_b 6 coupled ≡ returns tt q')
    × (q'.list ≡ 4 ∷ 5 ∷ 6 ∷ [])
    × IsCoupled q'
push_b-IsCoupled_example = push_b-IsCoupled 6 coupled coupled-IsCoupled

-- One thread of two is inside `pop_b`, past the semaphore.
abbrev one_granted : System ℕ
one_granted = record {
  queue = record { list = 7 ∷ []; isblock = true; m_sem = some 0; m_max_count = negsuc 0 };
  threads = idle ∷ granted ∷ [];
  sent = 7 ∷ [];
  received = [];
}

one_granted_reached : Reach 2 one_granted
unfolding create push post wait_or_throw
one_granted_reached =
    later (later (later started (Step.pushes 0 7 refl)) (Step.posts 0 _ refl refl))
      (Step.waits 1 _ refl refl)

granted_takes_example : (x : ℕ) × (q : SafeQueue ℕ) × (take_first one_granted.queue ≡ returns x q)
granted_takes_example = granted_takes one_granted_reached 1 refl

received-sent_example : one_granted.received ++ one_granted.queue.list ≡ one_granted.sent
received-sent_example = received-sent one_granted_reached
