-- ===== src/SafeQueue/Protocol/Invariant.antt =====
-- The semaphore, the threads between its calls and the mutex, and the queue's length add up.
use simplechatserver.Prelude.{
  ℕ, zero, suc, ◌+◌, ◌≡◌, refl, sym, ap, ◌∙◌, true, some, List, [], ◌∷◌, ◌++◌, length,
  length-append, total, total-set, get_elem?, set, replicate, append_assoc, arith,
}
use simplechatserver.SafeQueue.{create, push}
use simplechatserver.SafeQueue.Semaphore.{
  take_first-returns, take_first-throws, wait-returns, wait-throws, post-returns,
}
use simplechatserver.SafeQueue.Protocol.{
  Pc, idle, pushed, granted, failed, System, Step, pushes, posts, waits, interrupted, takes, fails,
  start, Reach, started, later,
}

abbrev pub posting : Pc → ℕ
posting pushed = 1
posting _ = 0

abbrev pub taking : Pc → ℕ
taking granted = 1
taking _ = 0

abbrev pub broken : Pc → ℕ
broken failed = 1
broken _ = 0

total-replicate : (f : Pc → ℕ) (n : ℕ) → f idle ≡ 0 → total f (replicate n idle) ≡ 0
total-replicate f zero h = refl
total-replicate f (suc n) h = omega (arith, h, total-replicate f n h)

-- The three totals after thread `i` goes from `p` to `p'`.
record Moved (ts : List Pc) (i : ℕ) (p p' : Pc) : Type 0 where
  takers : total taking (set ts i p') + taking p ≡ total taking ts + taking p'
  posters : total posting (set ts i p') + posting p ≡ total posting ts + posting p'
  failures : total broken (set ts i p') + broken p ≡ total broken ts + broken p'

moved : (ts : List Pc) (i : ℕ) (p p' : Pc) → get_elem? ts i ≡ some p → Moved ts i p p'
moved ts i p p' h = record {
  takers = total-set taking ts i p p' h;
  posters = total-set posting ts i p p' h;
  failures = total-set broken ts i p p' h;
}

module _ {ℓ} {A : Type ℓ} where
  -- Each queued item has one token: in the semaphore, in a thread that will take the item, or in
  -- a thread that has still to post it.
  pub record Inv (s : System A) : Type ℓ where
    pub tokens : ℕ
    pub blocking : s.queue.isblock ≡ true
    pub has_sem : s.queue.m_sem ≡ some tokens
    pub balance : length s.queue.list ≡ tokens + total taking s.threads + total posting s.threads
    pub unbroken : total broken s.threads ≡ 0
    pub in_order : s.received ++ s.queue.list ≡ s.sent

  start-Inv : (n : ℕ) → Inv (start n)
  unfolding create
  start-Inv n = record {
    tokens = 0;
    blocking = refl;
    has_sem = refl;
    balance = omega (arith, total-replicate taking n refl, total-replicate posting n refl);
    unbroken = total-replicate broken n refl;
    in_order = refl;
  }

  step-Inv : {s t : System A} → Inv s → Step s t → Inv t
  unfolding push
  step-Inv {s} v (pushes i x at) =
      let m = moved s.threads i idle pushed at in
      record {
        tokens = v.tokens;
        blocking = v.blocking;
        has_sem = v.has_sem;
        balance =
            omega (arith, v.balance, m.takers, m.posters, length-append s.queue.list (x ∷ []));
        unbroken = omega (arith, v.unbroken, m.failures);
        in_order =
            sym (append_assoc s.received s.queue.list (x ∷ []))
            ∙ ap (λ l. l ++ (x ∷ [])) v.in_order;
      }
  step-Inv {s} v (posts i q at h) =
      let m = moved s.threads i pushed idle at in
      let e = post-returns s.queue q v.tokens v.has_sem h in
      record {
        tokens = suc v.tokens;
        blocking = ap (λ c. c.isblock) e ∙ v.blocking;
        has_sem = ap (λ c. c.m_sem) e;
        balance = omega (arith, v.balance, m.takers, m.posters, ap (λ c. length c.list) e);
        unbroken = omega (arith, v.unbroken, m.failures);
        in_order = ap (λ c. s.received ++ c.list) e ∙ v.in_order;
      }
  step-Inv {s} v (waits i q at h) =
      let m = moved s.threads i idle granted at in
      let (n, e, e') = wait-returns s.queue q v.tokens v.has_sem h in
      record {
        tokens = n;
        blocking = ap (λ c. c.isblock) e' ∙ v.blocking;
        has_sem = ap (λ c. c.m_sem) e';
        balance = omega (arith, v.balance, m.takers, m.posters, e, ap (λ c. length c.list) e');
        unbroken = omega (arith, v.unbroken, m.failures);
        in_order = ap (λ c. s.received ++ c.list) e' ∙ v.in_order;
      }
  step-Inv {s} v (interrupted i e q at h) =
      let e = wait-throws s.queue q e h in
      record {
        tokens = v.tokens;
        blocking = ap (λ c. c.isblock) e ∙ v.blocking;
        has_sem = ap (λ c. c.m_sem) e ∙ v.has_sem;
        balance = ap (λ c. length c.list) e ∙ v.balance;
        unbroken = v.unbroken;
        in_order = ap (λ c. s.received ++ c.list) e ∙ v.in_order;
      }
  step-Inv {s} v (takes i x q at h) =
      let m = moved s.threads i granted idle at in
      let (rest, e, e') = take_first-returns s.queue q x h in
      record {
        tokens = v.tokens;
        blocking = ap (λ c. c.isblock) e' ∙ v.blocking;
        has_sem = ap (λ c. c.m_sem) e' ∙ v.has_sem;
        balance =
            omega (arith, v.balance, m.takers, m.posters, ap length e, ap (λ c. length c.list) e');
        unbroken = omega (arith, v.unbroken, m.failures);
        in_order =
            append_assoc s.received (x ∷ []) q.list
            ∙ ap (λ c. s.received ++ (x ∷ c.list)) e'
            ∙ ap (◌++◌ s.received) (sym e)
            ∙ v.in_order;
      }
  step-Inv {s} v (fails i e q at h) =
      let m = moved s.threads i granted failed at in
      absurd (omega (arith, v.balance, m.takers, ap length (take_first-throws s.queue q e h)))

  pub Reach-Inv : {n : ℕ} {s : System A} → Reach n s → Inv s
  Reach-Inv {n} started = start-Inv n
  Reach-Inv (later r st) = step-Inv (Reach-Inv r) st
