-- ===== src/BlockQueue/Runs.antt =====
-- log/block_queue.h: any run of calls against the same run on a bounded list.
use simplechatserver.Prelude.{
  ℕ, suc, ◌==◌, ◌≡◌, refl, ap, ◌∙◌, Bool, inl, inr, true, false, Option, none, some, List, [], ◌∷◌,
  ◌++◌, length, length-replicate, ltb, le→leb, lt→ltb, not-lt→ltb, leb, if◌then◌else◌, arith, pos,
  Outcome, returns,
}
use simplechatserver.BlockQueue.{
  BlockQueue, create, clear, full, empty, size, max_size, push, pop_timed,
}
use simplechatserver.BlockQueue.Refinement.{Holds, push-Holds, pop-Holds}

-- A call of a member function; `pop(item, ms_timeout)` times out if it has to wait.
pub data Call {ℓ} (A : Type ℓ) : Type ℓ where
  pushes : A → Call A
  pops clears asks_full asks_empty asks_size asks_max_size : Call A

-- What a call gives: the result of `push`, the item of `pop`, nothing, a truth value or a number.
pub data Result {ℓ} (A : Type ℓ) : Type ℓ where
  pushed : Bool → Result A
  popped : Option A → Result A
  cleared : Result A
  told : Bool → Result A
  counted : ℕ → Result A

module _ {ℓ} {A : Type ℓ} where
  abbrev pub with_result {κ} :
      {S : Type κ} → Result A → Option (List (Result A) × S) → Option (List (Result A) × S)
  with_result r none = none
  with_result r (some (rs, s)) = some (r ∷ rs, s)

  abbrev pub finished {κ} :
      {B : Type κ} → (B → Result A) → Outcome (BlockQueue A) B → Option (Result A × BlockQueue A)
  finished f (returns b q) = some (f b, q)
  finished f _ = none

  -- One call on a queue; `none` if it waits or is undefined.
  abbrev pub call : Call A → BlockQueue A → Option (Result A × BlockQueue A)
  call (pushes x) q = finished pushed (push x q)
  call pops q = finished popped (pop_timed none q)
  call clears q = some (cleared, clear q)
  call asks_full q = some (told (full q), q)
  call asks_empty q = some (told (empty q), q)
  call asks_size q = some (counted (size q), q)
  call asks_max_size q = some (counted (max_size q), q)

  abbrev pub goes_on :
      (BlockQueue A → Option (List (Result A) × BlockQueue A))
      → Option (Result A × BlockQueue A)
      → Option (List (Result A) × BlockQueue A)
  goes_on rest none = none
  goes_on rest (some (r, q)) = with_result r (rest q)

  -- The run on a queue.
  abbrev pub run : List (Call A) → BlockQueue A → Option (List (Result A) × BlockQueue A)
  run [] q = some ([], q)
  run (c ∷ calls) q = goes_on (run calls) (call c q)

  -- The calls on a list of at most `m` items, oldest first.
  abbrev pub call_list : ℕ → Call A → List A → Result A × List A
  call_list m (pushes x) l =
      (pushed (ltb (length l) m), if ltb (length l) m then l ++ (x ∷ []) else l)
  call_list m pops [] = (popped none, [])
  call_list m pops (x ∷ l) = (popped (some x), l)
  call_list m clears l = (cleared, [])
  call_list m asks_full l = (told (length l == m), l)
  call_list m asks_empty l = (told (length l == 0), l)
  call_list m asks_size l = (counted (length l), l)
  call_list m asks_max_size l = (counted m, l)

  abbrev pub run_list : ℕ → List (Call A) → List A → List (Result A) × List A
  run_list m [] l = ([], l)
  run_list m (c ∷ calls) l =
      let (r, l') = call_list m c l in let (rs, end) = run_list m calls l' in (r ∷ rs, end)

  pop_timed-nil : (q : BlockQueue A) → Holds q [] → pop_timed none q ≡ returns none q
  unfolding pop_timed
  pop_timed-nil q v =
      let gone : leb q.m_size 0 ≡ true = le→leb _ _ (omega (arith, v.counted)) in rw gone

  clear-Holds : (q : BlockQueue A) (l : List A) → Holds q l → Holds (clear q) []
  unfolding clear
  clear-Holds q l v = record {
    some_room = v.some_room;
    allocated = v.allocated;
    counted = refl;
    bounded = omega arith;
    front_index = refl;
    back_index = refl;
    stored = refl;
    behind = refl;
  }

  full-length : (q : BlockQueue A) (l : List A) → Holds q l → full q ≡ (length l == q.m_max_size)
  unfolding full
  full-length q l v = rw v.counted (ground (arith, v.bounded))

  empty-length : (q : BlockQueue A) (l : List A) → Holds q l → empty q ≡ (length l == 0)
  unfolding empty
  empty-length q l v = rw v.counted (ground arith)

  -- One call on a queue that holds `l` gives what it gives on the list.
  call-Holds :
      (m : ℕ) (c : Call A) (q : BlockQueue A) (l : List A)
      → q.m_max_size ≡ m
      → Holds q l
      → (q' : BlockQueue A) × (call c q ≡ some ((call_list m c l).0, q'))
        × (q'.m_max_size ≡ m)
        × Holds q' (call_list m c l).1
  unfolding size max_size clear
  call-Holds m (pushes x) q l e v = elim (push-Holds x q l v) [
    | inl (all, r) ↦
        let no_room : ltb (length l) m ≡ false = not-lt→ltb _ _ (omega arith) in
        rw no_room (q, rw r, e, v)
    | inr (room, (q1, r, same, v1)) ↦
        let fits : ltb (length l) m ≡ true = lt→ltb _ _ (omega arith) in
        rw fits (q1, rw r, same ∙ e, v1)
  ]
  call-Holds m pops q [] e v = (q, rw (pop_timed-nil q v), e, v)
  call-Holds m pops q (x ∷ l) e v =
      let (q1, _, r, same, v1) = pop-Holds false none x q l v in (q1, rw r, same ∙ e, v1)
  call-Holds m clears q l e v = (clear q, refl, e, clear-Holds q l v)
  call-Holds m asks_full q l e v =
      (q, ap (λ b. some (told b, q)) (full-length q l v ∙ ap (λ n. length l == n) e), e, v)
  call-Holds m asks_empty q l e v = (q, ap (λ b. some (told b, q)) (empty-length q l v), e, v)
  call-Holds m asks_size q l e v = (q, ap (λ n. some (counted n, q)) v.counted, e, v)
  call-Holds m asks_max_size q l e v = (q, ap (λ n. some (counted n, q)) e, e, v)

  -- On a queue that holds the items `l`, any sequence of calls, of `push`, `pop` with a time limit
  -- that runs out, `clear`, `full`, `empty`, `size` and `max_size`, gives what it gives on a list of
  -- at most `m_max_size` items, first in, first out, and leaves a queue that holds the items of that
  -- list.
  pub run-Holds :
      (m : ℕ) (calls : List (Call A)) (q : BlockQueue A) (l : List A)
      → q.m_max_size ≡ m
      → Holds q l
      → (q' : BlockQueue A) × (run calls q ≡ some ((run_list m calls l).0, q'))
        × Holds q' (run_list m calls l).1
  run-Holds m [] q l e v = (q, refl, v)
  run-Holds m (c ∷ calls) q l e v =
      let (q1, called, same, v1) = call-Holds m c q l e v in
      let (q', ran, v') = run-Holds m calls q1 (call_list m c l).1 same v1 in
      (q', rw (called, run) (ap (with_result (call_list m c l).0) ran), v')

  -- A queue made for a positive number of items holds none.
  pub create-Holds :
      (default : A) (n : ℕ)
      → (q : BlockQueue A) × (create default (pos (suc n)) ≡ some q)
        × (q.m_max_size ≡ suc n)
        × Holds q []
  unfolding create
  create-Holds default n = (
    _,
    refl,
    refl,
    record {
      some_room = omega arith;
      allocated = length-replicate (suc n) default;
      counted = refl;
      bounded = omega arith;
      front_index = refl;
      back_index = refl;
      stored = refl;
      behind = refl;
    },
  )
