-- ===== src/ThreadPool/Workers/Preserving.antt =====
-- What every step of the workers, of `append` and of `close` keeps.
use simplechatserver.Prelude.{
  ◌⊎◌, ℕ, suc, ◌≡◌, refl, sym, ap, ◌∙◌, inl, inr, none, List, [], ◌∷◌, ◌++◌, set, length,
  length-append, length-set, total-set, total-le-length, append_assoc, arith, pos, if◌then◌else◌,
}
use simplechatserver.SafeQueue.{pop_from, empty, is_nil}
use simplechatserver.ThreadPool.{ThreadPool, Task, enqueue, post_sem, take_task, mark_closed}
use simplechatserver.ThreadPool.Workers.{
  testing, waiting, woken, popping, busy, finished, outside, checked, stored, System, Work, Request,
  Reach, enters, leaves, wakes, woken_by_signal, finds_empty, finds_task, takes, acts, checks,
  stores, posts, closes, wakes_one, started, worked, requested, received,
}
use simplechatserver.ThreadPool.Workers.Invariant.{
  holds, waits, owes, admitted, admitted-le-one, waits-le-one, empty-length, has_room-lt, Inv,
  Start-Inv,
}

module _ {ℓ κ} {F : Type ℓ} {T : Type κ} where
  -- What a pop does to the length.
  take_task-length :
      (p : ThreadPool F T)
      → ((length p.task_queue.list ≡ 0) × (length (take_task p).1.task_queue.list ≡ 0))
        ⊎ (length p.task_queue.list ≡ suc (length (take_task p).1.task_queue.list))
  unfolding take_task
  take_task-length p = by_list p.task_queue.list refl
    where
      by_list :
          (xs : List (Task T))
          → p.task_queue.list ≡ xs
          → let r = pop_from (pos 0, none) xs p.task_queue in
            ((length xs ≡ 0) × (length r.1.list ≡ 0)) ⊎ (length xs ≡ suc (length r.1.list))
      by_list [] e = inl (refl, ap length e)
      by_list (x ∷ xs) e = inr refl

  take_task-order :
      (p : ThreadPool F T) → received p ++ (take_task p).1.task_queue.list ≡ p.task_queue.list
  unfolding take_task empty
  take_task-order p = by_list p.task_queue.list refl
    where
      by_list :
          (xs : List (Task T))
          → p.task_queue.list ≡ xs
          → let r = pop_from (pos 0, none) xs p.task_queue in
            (if is_nil xs then [] else r.0 ∷ []) ++ r.1.list ≡ xs
      by_list [] e = e
      by_list (x ∷ xs) e = refl

  Work-Inv : {m : ℕ} {s t : System F T} (i : ℕ) → Inv m s → Work s i t → Inv m t
  unfolding take_task
  Work-Inv {s} i v (enters at opened) = record {
    tokens = omega (arith, v.tokens, total-set holds s.workers i testing waiting at);
    bounded = v.bounded;
    population = v.population;
    crew = length-set s.workers i waiting ∙ v.crew;
    in_order = v.in_order;
    wake_ups = inl opened;
  }
  Work-Inv {s} i v (leaves at closed) = record {
    tokens = omega (arith, v.tokens, total-set holds s.workers i testing finished at);
    bounded = v.bounded;
    population = v.population;
    crew = length-set s.workers i finished ∙ v.crew;
    in_order = v.in_order;
    wake_ups = elim v.wake_ups [
      | inl e ↦ inl e
      | inr h ↦ inr (omega (arith, h, total-set waits s.workers i testing finished at))
    ];
  }
  Work-Inv {s} i v (wakes n at sem) = record {
    tokens = omega (arith, v.tokens, sem, total-set holds s.workers i waiting woken at);
    bounded = v.bounded;
    population = v.population;
    crew = length-set s.workers i woken ∙ v.crew;
    in_order = v.in_order;
    wake_ups = elim v.wake_ups [
      | inl e ↦ inl e
      | inr h ↦ inr (omega (arith, h, sem, total-set waits s.workers i waiting woken at))
    ];
  }
  Work-Inv {s} i v (woken_by_signal at) = record {
    tokens = omega (arith, v.tokens, total-set holds s.workers i waiting woken at);
    bounded = v.bounded;
    population = v.population;
    crew = length-set s.workers i woken ∙ v.crew;
    in_order = v.in_order;
    wake_ups = elim v.wake_ups [
      | inl e ↦ inl e
      | inr h ↦ inr (omega (arith, h, total-set waits s.workers i waiting woken at))
    ];
  }
  Work-Inv {s} i v (finds_empty at none_left) = record {
    tokens = omega (arith, empty-length s.pool.task_queue none_left);
    bounded = v.bounded;
    population = v.population;
    crew = length-set s.workers i testing ∙ v.crew;
    in_order = v.in_order;
    wake_ups = elim v.wake_ups [
      | inl e ↦ inl e
      | inr h ↦ inr (omega (arith, h, total-set waits s.workers i woken testing at))
    ];
  }
  Work-Inv {s} i v (finds_task at some_left) = record {
    tokens = omega (arith, v.tokens, total-set holds s.workers i woken popping at);
    bounded = v.bounded;
    population = v.population;
    crew = length-set s.workers i popping ∙ v.crew;
    in_order = v.in_order;
    wake_ups = elim v.wake_ups [
      | inl e ↦ inl e
      | inr h ↦ inr (omega (arith, h, total-set waits s.workers i woken popping at))
    ];
  }
  Work-Inv {s} i v (takes at) =
      let task = (take_task s.pool).0 in
      record {
        tokens = omega (
          arith,
          v.tokens,
          take_task-length s.pool,
          total-set holds s.workers i popping (busy task) at,
        );
        bounded = omega (arith, v.bounded, take_task-length s.pool);
        population = v.population;
        crew = length-set s.workers i (busy task) ∙ v.crew;
        in_order =
            append_assoc s.popped (received s.pool) _
            ∙ ap (◌++◌ s.popped) (take_task-order s.pool)
            ∙ v.in_order;
        wake_ups = elim v.wake_ups [
          | inl e ↦ inl e
          | inr h ↦ inr (omega (arith, h, total-set waits s.workers i popping (busy task) at))
        ];
      }
  Work-Inv {s} i v (acts task at) = record {
    tokens = omega (arith, v.tokens, total-set holds s.workers i (busy task) testing at);
    bounded = v.bounded;
    population = v.population;
    crew = length-set s.workers i testing ∙ v.crew;
    in_order = v.in_order;
    wake_ups = elim v.wake_ups [
      | inl e ↦ inl e
      | inr h ↦ inr (omega (arith, h, total-set waits s.workers i (busy task) testing at))
    ];
  }

  Request-Inv : {m : ℕ} {s t : System F T} → Inv m s → Request s t → Inv m t
  unfolding enqueue post_sem mark_closed
  Request-Inv {s} v (checks j task at room) = record {
    tokens = omega (arith, v.tokens, total-set owes s.clients j outside (checked task) at);
    bounded = omega (
      arith,
      v.population,
      has_room-lt s.pool room,
      length-set s.clients j (checked task),
      total-le-length admitted admitted-le-one (set s.clients j (checked task)),
    );
    population = length-set s.clients j (checked task) ∙ v.population;
    crew = v.crew;
    in_order = v.in_order;
    wake_ups = v.wake_ups;
  }
  Request-Inv {s} v (stores j task at) = record {
    tokens = omega (
      arith,
      v.tokens,
      length-append s.pool.task_queue.list (task ∷ []),
      total-set owes s.clients j (checked task) stored at,
    );
    bounded = omega (
      arith,
      v.bounded,
      length-append s.pool.task_queue.list (task ∷ []),
      total-set admitted s.clients j (checked task) stored at,
    );
    population = length-set s.clients j stored ∙ v.population;
    crew = v.crew;
    in_order =
        sym (append_assoc s.popped s.pool.task_queue.list (task ∷ []))
        ∙ ap (λ l. l ++ (task ∷ [])) v.in_order;
    wake_ups = v.wake_ups;
  }
  Request-Inv {s} v (posts j at) = record {
    tokens = omega (arith, v.tokens, total-set owes s.clients j stored outside at);
    bounded = omega (arith, v.bounded, total-set admitted s.clients j stored outside at);
    population = length-set s.clients j outside ∙ v.population;
    crew = v.crew;
    in_order = v.in_order;
    wake_ups = elim v.wake_ups [ inl e ↦ inl e | inr h ↦ inr (omega (arith, h)) ];
  }
  Request-Inv {s} v (closes idle) = record {
    tokens = v.tokens;
    bounded = v.bounded;
    population = v.population;
    crew = v.crew;
    in_order = v.in_order;
    wake_ups = inr (omega (arith, v.crew, total-le-length waits waits-le-one s.workers));
  }
  Request-Inv {s} v (wakes_one n more) = record {
    tokens = omega (arith, v.tokens);
    bounded = v.bounded;
    population = v.population;
    crew = v.crew;
    in_order = v.in_order;
    wake_ups = elim v.wake_ups [ inl e ↦ inl e | inr h ↦ inr (omega (arith, h, more)) ];
  }

  pub Reach-Inv : {m : ℕ} {s : System F T} → Reach m s → Inv m s
  Reach-Inv (started st) = Start-Inv st
  Reach-Inv (worked i r w) = Work-Inv i (Reach-Inv r) w
  Reach-Inv (requested r q) = Request-Inv (Reach-Inv r) q
