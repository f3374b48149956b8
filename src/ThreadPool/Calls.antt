-- ===== src/ThreadPool/Calls.antt =====
-- thread/threadpool.h, one call at a time: `append`, `addFunction`, `start` and the destructor.
use mathlib.Core.Path.{ap₂}
use simplechatserver.Prelude.{
  ℕ, zero, suc, ◌+◌, ◌-◌, ◌≤◌, ◌<◌, ◌≡◌, refl, sym, ap, ◌∙◌, ◌⊎◌, inl, inr, true, false, Option,
  none, some, List, [], ◌∷◌, ◌++◌, length, length-append, append-nil, append_assoc, get_elem?,
  get_elem?-snoc, get_elem?-append, Bool-cases, ltb→lt, not-ltb→le, arith, ℤ, pos, negsuc, to_size,
  rounds_of, returns, throws, undefined, pthread_create_error,
}
use simplechatserver.ThreadPool.{
  ThreadPool, has_room, calls, append, add_function, dispatch, start, start_loop, destroy,
  lookup_fun, call_or_delete,
}

module _ {ℓ κ} {F : Type ℓ} {T : Type κ} where
  -- `append` refuses exactly when the queue holds `maxrequest` tasks or more, and then changes
  -- nothing; otherwise it stores the pair at the end and posts once.
  pub append_cases :
      (r : Option T) (state : ℤ) (p : ThreadPool F T)
      → ((to_size p.maxrequest ≤ length p.task_queue.list) × (append r state p ≡ (false, p)))
        ⊎ ((length p.task_queue.list < to_size p.maxrequest)
            × ((append r state p).0 ≡ true)
            × ((append r state p).1.task_queue.list ≡ p.task_queue.list ++ ((state, r) ∷ []))
            × ((append r state p).1.sem ≡ suc p.sem))
  unfolding append
  append_cases r state p = elim (Bool-cases (has_room p)) [
    | inl room ↦ inr (ltb→lt _ _ room, rw (room, append), rw (room, append), rw (room, append))
    | inr full ↦ inl (not-ltb→le _ _ full, rw (full, append))
  ]

  call_or_delete-calls :
      (o : Option F) (g : F) (t : T) → call_or_delete o t ≡ calls g t → o ≡ some g
  call_or_delete-calls none g t h = cc
  call_or_delete-calls (some f) g t h = cc

  -- A task under the index that `addFunction` returned calls the function that was added, and a
  -- task that called a function before `addFunction` calls the same one after it.
  pub dispatch-add_function :
      (f g : F) (t : T) (state : ℤ) (p : ThreadPool F T)
      → dispatch p.funbox (state, some t) ≡ calls g t
      → (dispatch (add_function f p).1.funbox (pos (add_function f p).0, some t) ≡ calls f t)
        × (dispatch (add_function f p).1.funbox (state, some t) ≡ calls g t)
  unfolding dispatch add_function
  dispatch-add_function f g t state p h = (
    ap (λ o. call_or_delete o t)
        (ap (get_elem? (p.funbox ++ (f ∷ []))) last ∙ get_elem?-snoc p.funbox f),
    ap (λ o. call_or_delete o t) (kept state (call_or_delete-calls _ g t h)),
  )
    where
      last : length (p.funbox ++ (f ∷ [])) - 1 ≡ length p.funbox
      last = omega (arith, length-append p.funbox (f ∷ []))

      kept :
          (state : ℤ)
          → lookup_fun p.funbox state ≡ some g
          → lookup_fun (p.funbox ++ (f ∷ [])) state ≡ some g
      kept (pos n) e = get_elem?-append p.funbox (f ∷ []) n g e
      kept (negsuc n) e = e

-- From the i-th call on, `pthread_create` succeeds with these ids.
abbrev pub Spawns : (ℕ → Option ℕ) → ℕ → List ℕ → Type 0
Spawns id_of i [] = Unit
Spawns id_of i (id ∷ ids) = (id_of i ≡ some id) × Spawns id_of (i + 1) ids

module _ {ℓ κ} {F : Type ℓ} {T : Type κ} where
  start_loop_step :
      (id_of : ℕ → Option ℕ) (id i r : ℕ) (old : List ℕ) (p : ThreadPool F T)
      → id_of i ≡ some id
      → p.threads ≡ some old
      → start_loop id_of (suc r) i p
        ≡ start_loop id_of r (i + 1) (record p { threads = some (old ++ (id ∷ [])) })
  unfolding start_loop
  start_loop_step id_of id i r old p e t = rw (e, start_loop) (rw t)

  start_loop_fails :
      (id_of : ℕ → Option ℕ) (i r : ℕ) (p : ThreadPool F T)
      → 0 < r
      → id_of i ≡ none
      → start_loop id_of r i p ≡ throws pthread_create_error (record p { threads = none })
  unfolding start_loop
  start_loop_fails id_of i zero p h e = absurd (omega arith)
  start_loop_fails id_of i (suc r) p h e = rw (e, start_loop)

  -- The rounds of `start` that succeed extend `threads`, and the loop goes on from there.
  start_loop-Spawns :
      (id_of : ℕ → Option ℕ) (ids old : List ℕ) (i j m rounds : ℕ) (p : ThreadPool F T)
      → rounds ≡ length ids + m
      → j ≡ i + length ids
      → p.threads ≡ some old
      → Spawns id_of i ids
      → start_loop id_of rounds i p
        ≡ start_loop id_of m j (record p { threads = some (old ++ ids) })
  start_loop-Spawns id_of [] old i j m rounds p e f t s =
      ap₂ (λ r k. start_loop id_of r k p) (omega arith) (omega arith)
      ∙ ap (λ th. start_loop id_of m j (record p { threads = th }))
          (t ∙ ap some (sym (append-nil old)))
  start_loop-Spawns id_of (id ∷ ids) old i j m zero p e f t s = absurd (omega arith)
  start_loop-Spawns id_of (id ∷ ids) old i j m (suc r) p e f t s =
      start_loop_step id_of id i r old p s.0 t
      ∙ start_loop-Spawns id_of ids (old ++ (id ∷ [])) (i + 1) j m r
          (record p { threads = some (old ++ (id ∷ [])) }) (omega arith) (omega arith) refl s.1
      ∙ ap (λ l. start_loop id_of m j (record p { threads = some l }))
          (append_assoc old (id ∷ []) ids)

  -- `start` on a pool whose vector is empty, where `pthread_create` gives out exactly the ids
  -- `ids`: it returns, with one thread for each of `thread_count` and the pool open; the
  -- destructor then joins these threads, once each.
  pub start-Spawns :
      (id_of : ℕ → Option ℕ) (ids : List ℕ) (p : ThreadPool F T)
      → p.threads ≡ some []
      → rounds_of p.thread_count ≡ length ids
      → Spawns id_of 0 ids
      → (start id_of p ≡ returns tt (record p { is_close = false; threads = some ids }))
        × ((q : ThreadPool F T) × (destroy (record p { is_close = false; threads = some ids })
              ≡ returns ids q))
  unfolding start start_loop destroy
  start-Spawns id_of ids p t n s = (
    start_loop-Spawns id_of ids [] 0 (length ids) 0 (rounds_of p.thread_count)
        (record p { is_close = false }) (omega arith) (omega arith) t s,
    (_, refl),
  )

  -- If `pthread_create` fails after giving out the ids `ids`, `start` throws, and the destructor
  -- of the pool that it leaves reads the vector that `start` has deleted.
  pub start-fails :
      (id_of : ℕ → Option ℕ) (ids : List ℕ) (p : ThreadPool F T)
      → p.threads ≡ some []
      → length ids < rounds_of p.thread_count
      → Spawns id_of 0 ids
      → id_of (length ids) ≡ none
      → (q : ThreadPool F T) × (start id_of p ≡ throws pthread_create_error q)
        × (destroy q ≡ undefined)
  unfolding start destroy
  start-fails id_of ids p t n s e = (
    record p { is_close = false; threads = none },
    start_loop-Spawns id_of ids [] 0 (length ids) (rounds_of p.thread_count - length ids)
          (rounds_of p.thread_count) (record p { is_close = false }) (omega arith) (omega arith) t s
        ∙ start_loop_fails id_of (length ids) (rounds_of p.thread_count - length ids) _
            (omega arith) e,
    refl,
  )
