-- ===== src/FifoQueue.antt =====
-- What the users of the two queues rely on: safequeue/safequeue.h, without blocking, and
-- log/block_queue.h, whose `pop` has a time limit.
pub mod Queues
mod Tests
use mathlib.Core.Option
use simplechatserver.Prelude.{
  ℕ, ◌≡◌, refl, sym, ap, ◌∙◌, Bool, true, false, Option, none, some, List, [], ◌∷◌, ◌++◌,
  append-nil, append_assoc, if◌then◌else◌,
}

-- A queue of items and the list that it stands for, oldest item first. The result of a call is
-- `none` where the call would wait or is undefined.
pub record FifoQueue (A Queue : Type 0) : Type 1 where
  pub Holds : Queue → List A → Type 0
  pub push : A → Queue → Option (Bool × Queue)
  pub pop : Queue → Option (Option A × Queue)
  -- A push stores its item behind the others, or is refused and changes nothing.
  pub push_law :
      (x : A) (q : Queue) (l : List A)
      → Holds q l
      → (b : Bool) × (q' : Queue) × (push x q ≡ some (b, q'))
        × Holds q' (if b then l ++ (x ∷ []) else l)
  -- A pop takes the oldest item, if there is one.
  pub pop_law :
      (x : A) (q : Queue) (l : List A)
      → Holds q (x ∷ l)
      → (q' : Queue) × (pop q ≡ some (some x, q')) × Holds q' l
  pub empty_law : (q : Queue) → Holds q [] → (q' : Queue) × (pop q ≡ some (none, q')) × Holds q' []

pub data Op (A : Type 0) : Type 0 where
  pushes : A → Op A
  pops : Op A

-- What a run has stored, what it has taken out, and the queue at its end.
pub record Run (A Queue : Type 0) : Type 0 where
  pub stored : List A
  pub taken : List A
  pub queue : Queue

module _ {A Queue : Type 0} ⦃F : FifoQueue A Queue⦄ where
  abbrev pub pushed : A → Bool → Run A Queue → Run A Queue
  pushed x b r = if b then record r { stored = x ∷ r.stored } else r

  abbrev pub popped : Option A → Run A Queue → Run A Queue
  popped none r = r
  popped (some x) r = record r { taken = x ∷ r.taken }

  unfoldable pub run : List (Op A) → Queue → Option (Run A Queue)
  run [] q = some (record { stored = []; taken = []; queue = q })
  run (pushes x ∷ ops) q = elim (F.push x q) [
    | none ↦ none
    | some (b, q') ↦ Option.map (pushed x b) (run ops q')
  ]
  run (pops ∷ ops) q = elim (F.pop q) [
    | none ↦ none
    | some (o, q') ↦ Option.map (popped o) (run ops q')
  ]

  -- The run on `q`, which holds `l`, ends in order.
  abbrev pub EndsInOrder : List (Op A) → Queue → List A → Type 0
  EndsInOrder ops q l =
      (r : Run A Queue) × (left : List A) × (run ops q ≡ some r)
      × F.Holds r.queue left
      × (r.taken ++ left ≡ l ++ r.stored)

  push-EndsInOrder :
      (x : A) (ops : List (Op A)) (q : Queue) (l : List A)
      → ((q' : Queue) (l' : List A) → F.Holds q' l' → EndsInOrder ops q' l')
      → (b : Bool) × (q' : Queue) × (F.push x q ≡ some (b, q'))
        × F.Holds q' (if b then l ++ (x ∷ []) else l)
      → EndsInOrder (pushes x ∷ ops) q l
  unfolding run
  push-EndsInOrder x ops q l rest (true, q', e, h') =
      let (r, left, ran, held, same) = rest q' (l ++ (x ∷ [])) h' in
      (pushed x true r, left, rw (e, run) (rw ran), held, same ∙ append_assoc l (x ∷ []) r.stored)
  push-EndsInOrder x ops q l rest (false, q', e, h') =
      let (r, left, ran, held, same) = rest q' l h' in (r, left, rw (e, run) (rw ran), held, same)

  -- On a queue that keeps the laws and holds `l`, any run of pushes and pops ends, with what it has
  -- taken out and then what the queue holds being `l` and then what it has stored.
  pub run-EndsInOrder :
      (ops : List (Op A)) (q : Queue) (l : List A)
      → F.Holds q l
      → (r : Run A Queue) × (left : List A) × (run ops q ≡ some r)
        × F.Holds r.queue left
        × (r.taken ++ left ≡ l ++ r.stored)
  unfolding run
  run-EndsInOrder [] q l h = (_, l, refl, h, sym (append-nil l))
  run-EndsInOrder (pushes x ∷ ops) q l h =
      push-EndsInOrder x ops q l (λ q' l' h'. run-EndsInOrder ops q' l' h') (F.push_law x q l h)
  run-EndsInOrder (pops ∷ ops) q [] h =
      let (q', e, h') = F.empty_law q h in
      let (r, left, ran, held, same) = run-EndsInOrder ops q' [] h' in
      (r, left, rw (e, run) (rw ran), held, same)
  run-EndsInOrder (pops ∷ ops) q (x ∷ l) h =
      let (q', e, h') = F.pop_law x q l h in
      let (r, left, ran, held, same) = run-EndsInOrder ops q' l h' in
      (popped (some x) r, left, rw (e, run) (rw ran), held, ap (◌∷◌ x) same)
