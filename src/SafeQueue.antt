-- ===== src/SafeQueue.antt =====
-- safequeue/safequeue.h, class SafeQueue: one definition for each member function, as it acts on
-- the object from lock to unlock. The mutex makes each such stretch one step, so it is no field.
pub mod Fifo
pub mod Bounds
pub mod Semaphore
pub mod Protocol
mod Tests
use simplechatserver.Prelude.{
  ℕ, zero, suc, ◌-◌, ◌≡◌, Bool, true, false, Option, none, some, List, [], ◌∷◌, ◌++◌, length, min,
  leb, if◌then◌else◌, ℤ, pos, negsuc, to_size, Outcome, returns, throws, blocks, undefined, Method,
  block_already_enabled, sem_init_failed, sem_wait_error, list_is_empty, ◌>>=◌,
}

-- `m_sem` is `none` until `sem_init`; its value counts the posts not yet waited for.
pub record SafeQueue {ℓ} (A : Type ℓ) : Type ℓ where
  pub list : List A
  pub isblock : Bool
  pub m_sem : Option ℕ
  pub m_max_count : ℤ

module _ {ℓ} {A : Type ℓ} where
  -- `SafeQueue()`
  unfoldable pub create : SafeQueue A
  create = record { list = []; isblock = false; m_sem = none; m_max_count = negsuc 0 }

  -- `SafeQueue(int max_count)`. A `max_count` that is not positive builds an exception and drops
  -- it.
  unfoldable pub create_bounded : ℤ → SafeQueue A
  create_bounded max_count = record {
    list = [];
    isblock = false;
    m_sem = none;
    m_max_count = max_count;
  }

  abbrev pub pop_from : A → List A → SafeQueue A → A × SafeQueue A
  pop_from default [] q = (default, q)
  pop_from default (value ∷ rest) q = (value, record q { list = rest })

  -- `T pop()`. `default` is `T{}`.
  unfoldable pub pop : A → SafeQueue A → A × SafeQueue A
  pop default q = pop_from default q.list q

  -- The loop of `pop(int)`: `i` rounds are left, `temp` is what has been moved so far.
  unfoldable pub pop_loop : ℕ → List A → List A → List A × List A
  pop_loop zero temp list = (temp, list)
  pop_loop (suc i) temp [] = (temp, [])
  pop_loop (suc i) temp (x ∷ list) = pop_loop i (temp ++ (x ∷ [])) list

  -- `std::list<T> pop(int num)`
  unfoldable pub pop_many : ℤ → SafeQueue A → List A × SafeQueue A
  unfolding pop_loop
  pop_many num q =
      let (temp, rest) = pop_loop (min (to_size num) (length q.list)) [] q.list in
      (temp, record q { list = rest })

  -- Both overloads of `push`.
  unfoldable pub push : A → SafeQueue A → SafeQueue A
  push value q = record q { list = q.list ++ (value ∷ []) }

  -- `setblock()`. The argument tells whether `sem_init` returns 0.
  unfoldable pub setblock : Bool → Method (SafeQueue A) (Unit {0})
  setblock sem_init_ok q =
      if q.isblock
      then throws block_already_enabled q
      else if sem_init_ok
      then returns tt (record q { m_sem = some 0; isblock = true })
      else throws sem_init_failed q

  abbrev pub sem_wait_at : Bool → Option ℕ → Method (SafeQueue A) (Unit {0})
  sem_wait_at interrupted none q = undefined
  sem_wait_at true (some n) q = throws sem_wait_error q
  sem_wait_at false (some zero) q = blocks q
  sem_wait_at false (some (suc n)) q = returns tt (record q { m_sem = some n })

  -- `if (sem_wait(&m_sem) != 0) throw`. The argument tells whether a signal interrupts the wait.
  unfoldable pub wait_or_throw : Bool → Method (SafeQueue A) (Unit {0})
  wait_or_throw interrupted q = sem_wait_at interrupted q.m_sem q

  abbrev pub take_first_of : List A → Method (SafeQueue A) A
  take_first_of [] q = throws list_is_empty q
  take_first_of (value ∷ rest) q = returns value (record q { list = rest })

  -- What `pop_b` does under the mutex.
  unfoldable pub take_first : Method (SafeQueue A) A
  take_first q = take_first_of q.list q

  -- `T pop_b()`. No path goes round its `do … while (1)` a second time.
  unfoldable pub pop_b : Bool → Method (SafeQueue A) A
  unfolding wait_or_throw take_first
  pop_b interrupted = wait_or_throw interrupted >>= λ _. take_first

  abbrev pub sem_post_at : Option ℕ → Method (SafeQueue A) (Unit {0})
  sem_post_at none q = undefined
  sem_post_at (some n) q = returns tt (record q { m_sem = some (suc n) })

  unfoldable pub post : Method (SafeQueue A) (Unit {0})
  post q = sem_post_at q.m_sem q

  -- Both overloads of `push_b`.
  unfoldable pub push_b : A → Method (SafeQueue A) (Unit {0})
  unfolding push post
  push_b value q = post (push value q)

  -- `bool isFull()`: the `int` bound is converted to `size_t` before the comparison.
  unfoldable pub is_full : SafeQueue A → Bool
  is_full q = leb (to_size q.m_max_count) (length q.list)

  abbrev pub front_of : List A → Option A
  front_of [] = none
  front_of (value ∷ rest) = some value

  -- `T front()`. `none` is `nullptr`: the function compiles for pointer types only.
  unfoldable pub front : SafeQueue A → Option A
  front q = front_of q.list

  abbrev pub is_nil : List A → Bool
  is_nil [] = true
  is_nil (x ∷ xs) = false

  -- `bool empty()`
  unfoldable pub empty : SafeQueue A → Bool
  empty q = is_nil q.list

  -- `size_t size()`
  unfoldable pub size : SafeQueue A → ℕ
  size q = length q.list
