-- ===== src/Log/Threads/Racing.antt =====
-- Two threads between the test of the queue and the push.
use simplechatserver.Prelude.{
  ℕ, suc, ◌≡◌, ◌≢◌, refl, sym, ◌∙◌, inl, inr, true, false, some, List, [], ◌∷◌, ◌++◌, length,
  length-append, get_elem?, set, arith,
}
use simplechatserver.BlockQueue.{BlockQueue}
use simplechatserver.BlockQueue.Refinement.{Holds, push-Holds, get_elem?-set_other}
use simplechatserver.LogText.{Text}
use simplechatserver.Log.{Log}
use simplechatserver.Log.Threads.{idle, pushing, Threads, Step, pushes}

-- Two threads have found room in a queue with one free place and push, `x` first. The second push
-- is refused: the queue then holds what it held and `x`, both threads are outside `write_log`, and
-- nothing has been written, so the line `y` is in no queue, in no file and in no hand of a thread.
pub second_push_loses :
    (t : Threads) (i j : ℕ) (x y : Text) (q : BlockQueue Text) (l : List Text)
    → get_elem? t.threads i ≡ some (pushing x)
    → get_elem? t.threads j ≡ some (pushing y)
    → i ≢ j
    → t.log.m_log_queue ≡ some q
    → Holds q l
    → suc (length l) ≡ q.m_max_size
    → (u : Threads) × (v : Threads) × Step t u
      × Step u v
      × (v.threads ≡ set (set t.threads i idle) j idle)
      × (v.pushed ≡ t.pushed ++ (x ∷ []))
      × (v.lost ≡ t.lost ++ (y ∷ []))
      × (v.log.written ≡ t.log.written)
      × ((q' : BlockQueue Text) × (v.log.m_log_queue ≡ some q') × Holds q' (l ++ (x ∷ [])))
second_push_loses t i j x y q l at_i at_j apart e holds one_free = elim (push-Holds x q l holds) [
  | inl (full, _) ↦ absurd (omega arith)
  | inr (_, (q1, taken, same, holds1)) ↦ elim (push-Holds y q1 (l ++ (x ∷ [])) holds1) [
    | inr (room, _) ↦ absurd (omega (arith, length-append l (x ∷ [])))
    | inl (_, refused) ↦
        let c : Log = record t.log { m_log_queue = some q1 } in
        let first = pushes i x true c at_i (rw (e, taken)) in
        let still : get_elem? (set t.threads i idle) j ≡ some (pushing y) =
          get_elem?-set_other t.threads j i idle (λ e. apart (sym e)) ∙ at_j in
        (
          _,
          _,
          first,
          pushes j y false c still (rw refused),
          refl,
          refl,
          refl,
          refl,
          (q1, refl, holds1),
        )
  ]
]
