-- ===== src/SafeQueue/Protocol.antt =====
-- safequeue/safequeue.h: `push_b` and `pop_b` by any number of threads over one queue. Between
-- the semaphore and the mutex another thread may run, so each call takes two steps.
mod Invariant
pub mod Safety
use simplechatserver.Prelude.{
  ℕ, ◌≡◌, true, false, some, List, [], ◌∷◌, ◌++◌, get_elem?, set, replicate, returns, throws,
  Exception,
}
use simplechatserver.SafeQueue.{SafeQueue, create, push, post, wait_or_throw, take_first}

-- Where a thread stands.
pub data Pc : Type 0 where
  idle : Pc  -- outside both calls
  pushed : Pc  -- in `push_b`, before `sem_post`
  granted : Pc  -- in `pop_b`, after `sem_wait`
  failed : Pc  -- `pop_b` has thrown "list is empty!"

-- `sent` and `received` record what `push_b` was given and what `pop_b` returned, in order.
pub record System {ℓ} (A : Type ℓ) : Type ℓ where
  pub queue : SafeQueue A
  pub threads : List Pc
  pub sent : List A
  pub received : List A

module _ {ℓ} {A : Type ℓ} where
  pub data Step (s : System A) : System A → Type ℓ where
    pushes :
        (i : ℕ) (x : A)
        → get_elem? s.threads i ≡ some idle
        → Step s (record s {
          queue = push x s.queue;
          threads = set s.threads i pushed;
          sent = s.sent ++ (x ∷ []);
        })
    posts :
        (i : ℕ) (q : SafeQueue A)
        → get_elem? s.threads i ≡ some pushed
        → post s.queue ≡ returns tt q
        → Step s (record s { queue = q; threads = set s.threads i idle })
    waits :
        (i : ℕ) (q : SafeQueue A)
        → get_elem? s.threads i ≡ some idle
        → wait_or_throw false s.queue ≡ returns tt q
        → Step s (record s { queue = q; threads = set s.threads i granted })
    interrupted :
        (i : ℕ) (e : Exception) (q : SafeQueue A)
        → get_elem? s.threads i ≡ some idle
        → wait_or_throw true s.queue ≡ throws e q
        → Step s (record s { queue = q })
    takes :
        (i : ℕ) (x : A) (q : SafeQueue A)
        → get_elem? s.threads i ≡ some granted
        → take_first s.queue ≡ returns x q
        → Step s (record s {
          queue = q;
          threads = set s.threads i idle;
          received = s.received ++ (x ∷ []);
        })
    fails :
        (i : ℕ) (e : Exception) (q : SafeQueue A)
        → get_elem? s.threads i ≡ some granted
        → take_first s.queue ≡ throws e q
        → Step s (record s { queue = q; threads = set s.threads i failed })

  -- `n` threads over a new queue on which `setblock` has succeeded.
  abbrev pub start : ℕ → System A
  start n = record {
    queue = record create { m_sem = some 0; isblock = true };
    threads = replicate n idle;
    sent = [];
    received = [];
  }

  pub data Reach (n : ℕ) : System A → Type ℓ where
    started : Reach n (start n)
    later : {s t : System A} → Reach n s → Step s t → Reach n t
