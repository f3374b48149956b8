-- ===== src/SafeQueue/Fifo.antt =====
-- safequeue/safequeue.h: any run of non-blocking calls against the history of what was pushed.
use mathlib.Core.Path.{◌≡⟨◌⟩◌, ◌∎}
use simplechatserver.Prelude.{
  ℕ, zero, suc, ◌≡◌, refl, sym, ap, ◌∙◌, List, [], ◌∷◌, ◌++◌, length, take, drop, min, append-nil,
  append_assoc, ℤ, to_size,
}
use simplechatserver.SafeQueue.{SafeQueue, pop_loop, pop_many, pop, push, pop_from}

-- A call of the non-blocking interface.
pub data Call {ℓ} (A : Type ℓ) : Type ℓ where
  pushes : A → Call A
  pops : Call A
  pops_many : ℤ → Call A
  peeks : Call A

module _ {ℓ} {A : Type ℓ} where
  -- The items that a call adds to the queue.
  abbrev pub pushed_by : Call A → List A
  pushed_by (pushes x) = x ∷ []
  pushed_by c = []

  abbrev pub taken_by_pop : List A → List A
  taken_by_pop [] = []
  taken_by_pop (x ∷ xs) = x ∷ []

  -- The items that a call hands to its caller and takes out of the queue. `T{}` for an empty
  -- queue is no item.
  unfoldable pub taken_by : Call A → SafeQueue A → List A
  unfolding pop_many
  taken_by (pushes x) q = []
  taken_by pops q = taken_by_pop q.list
  taken_by (pops_many num) q = (pop_many num q).0
  taken_by peeks q = []

  unfoldable pub after : A → Call A → SafeQueue A → SafeQueue A
  unfolding push pop pop_many
  after default (pushes x) q = push x q
  after default pops q = (pop default q).1
  after default (pops_many num) q = (pop_many num q).1
  after default peeks q = q

  unfoldable pub run : A → List (Call A) → SafeQueue A → SafeQueue A
  unfolding after
  run default [] q = q
  run default (c ∷ cs) q = run default cs (after default c q)

  abbrev pub pushed : List (Call A) → List A
  pushed [] = []
  pushed (c ∷ cs) = pushed_by c ++ pushed cs

  unfoldable pub taken : A → List (Call A) → SafeQueue A → List A
  unfolding taken_by after
  taken default [] q = []
  taken default (c ∷ cs) q = taken_by c q ++ taken default cs (after default c q)

  pop_loop-take-drop :
      (n : ℕ) (temp xs : List A) → pop_loop n temp xs ≡ (temp ++ take n xs, drop n xs)
  unfolding pop_loop
  pop_loop-take-drop zero temp xs = rw (append-nil temp)
  pop_loop-take-drop (suc n) temp [] = rw (append-nil temp)
  pop_loop-take-drop (suc n) temp (x ∷ xs) =
      rw (pop_loop-take-drop n (temp ++ (x ∷ [])) xs, append_assoc temp (x ∷ []) (take n xs))

  take-append-drop : (n : ℕ) (xs : List A) → take n xs ++ drop n xs ≡ xs
  take-append-drop zero xs = refl
  take-append-drop (suc n) [] = refl
  take-append-drop (suc n) (x ∷ xs) = ap (◌∷◌ x) (take-append-drop n xs)

  pop_loop-append :
      (n : ℕ) (temp xs : List A) → (pop_loop n temp xs).0 ++ (pop_loop n temp xs).1 ≡ temp ++ xs
  pop_loop-append n temp xs =
      rw (pop_loop-take-drop n temp xs, append_assoc temp (take n xs) (drop n xs))
        (ap (◌++◌ temp) (take-append-drop n xs))

  pub pop_many-take-drop :
      (num : ℤ) (q : SafeQueue A)
      → let n = min (to_size num) (length q.list) in
        pop_many num q ≡ (take n q.list, record q { list = drop n q.list })
  unfolding pop_many
  pop_many-take-drop num q = rw (pop_loop-take-drop (min (to_size num) (length q.list)) [] q.list)

  pub pop_from-conserves :
      (default : A) (q : SafeQueue A) (xs : List A)
      → q.list ≡ xs
      → taken_by_pop xs ++ (pop_from default xs q).1.list ≡ xs ++ []
  pop_from-conserves default q [] e = e
  pop_from-conserves default q (x ∷ xs) e = ap (◌∷◌ x) (sym (append-nil xs))

  -- One call moves items from the front to the caller and adds its own at the back.
  after-conserves :
      (default : A) (c : Call A) (q : SafeQueue A)
      → taken_by c q ++ (after default c q).list ≡ q.list ++ pushed_by c
  unfolding taken_by after
  after-conserves default (pushes x) q = refl
  after-conserves default pops q = pop_from-conserves default q q.list refl
  after-conserves default (pops_many num) q =
      pop_loop-append (min (to_size num) (length q.list)) [] q.list ∙ sym (append-nil q.list)
  after-conserves default peeks q = sym (append-nil q.list)

  -- First in, first out, for every run of non-blocking calls: what the callers were handed, in
  -- order, followed by what is still queued, is what was queued at the start followed by what was
  -- pushed, in order. Nothing is lost, made up, repeated or overtaken.
  pub taken-pushed :
      (default : A) (cs : List (Call A)) (q : SafeQueue A)
      → taken default cs q ++ (run default cs q).list ≡ q.list ++ pushed cs
  unfolding taken run
  taken-pushed default [] q = sym (append-nil q.list)
  taken-pushed default (c ∷ cs) q =
      (taken_by c q ++ taken default cs (after default c q))
        ++ (run default cs (after default c q)).list
      ≡⟨ append_assoc (taken_by c q) _ _ ⟩
        taken_by c q
        ++ (taken default cs (after default c q) ++ (run default cs (after default c q)).list)
      ≡⟨ ap (◌++◌ (taken_by c q)) (taken-pushed default cs (after default c q)) ⟩
        taken_by c q ++ ((after default c q).list ++ pushed cs)
      ≡⟨ sym (append_assoc (taken_by c q) _ _) ⟩
        (taken_by c q ++ (after default c q).list) ++ pushed cs
      ≡⟨ ap (λ l. l ++ pushed cs) (after-conserves default c q) ⟩
        (q.list ++ pushed_by c) ++ pushed cs
      ≡⟨ append_assoc q.list (pushed_by c) (pushed cs) ⟩ q.list ++ (pushed_by c ++ pushed cs) ∎
