-- ===== src/BlockQueue.antt =====
-- log/block_queue.h, class block_queue: a bounded queue in a circular array. Each call holds the
-- mutex, so it is one step; a wait on the condition variable ends the step.
pub mod Refinement
pub mod Runs
pub mod Front
mod Tests
use simplechatserver.Prelude.{
  ℕ, zero, suc, ◌+◌, ◌-◌, ◌*◌, ◌/◌, ◌%◌, Bool, true, false, Option, none, some, List, length,
  get_elem?, set, replicate, leb, ◌==◌, ltb, if◌then◌else◌, ℤ, pos, negsuc, is_positive, rounds_of,
  Outcome, returns, blocks, undefined, Method,
}

-- `m_size` is never below 0, and `m_max_size` is positive.
pub record BlockQueue {ℓ} (A : Type ℓ) : Type ℓ where
  pub m_array : List A
  pub m_size : ℕ
  pub m_max_size : ℕ
  pub m_front : ℤ
  pub m_back : ℤ

abbrev pub negate : ℕ → ℤ
negate zero = pos 0
negate (suc n) = negsuc n

-- `(i + 1) % m`, with the remainder of C++.
abbrev pub next_index : ℤ → ℕ → ℤ
next_index (pos n) m = pos (suc n % m)
next_index (negsuc n) m = negate (n % m)

module _ {ℓ} {A : Type ℓ} where
  -- `block_queue(int max_size)`; `none` is `exit(-1)`, and `default` is what `new T[max_size]`
  -- holds.
  unfoldable pub create : A → ℤ → Option (BlockQueue A)
  create default wanted =
      if is_positive wanted
      then some (record {
        m_array = replicate (rounds_of wanted) default;
        m_size = 0;
        m_max_size = rounds_of wanted;
        m_front = negsuc 0;
        m_back = negsuc 0;
      })
      else none

  -- `clear()`
  unfoldable pub clear : BlockQueue A → BlockQueue A
  clear q = record q { m_size = 0; m_front = negsuc 0; m_back = negsuc 0 }

  -- `full()`
  unfoldable pub full : BlockQueue A → Bool
  full q = leb q.m_max_size q.m_size

  -- `empty()`
  unfoldable pub empty : BlockQueue A → Bool
  empty q = 0 == q.m_size

  -- `size()` and `max_size()`
  unfoldable pub size : BlockQueue A → ℕ
  size q = q.m_size

  unfoldable pub max_size : BlockQueue A → ℕ
  max_size q = q.m_max_size

  -- `m_array[i]`: `none` outside the array.
  abbrev pub at : List A → ℤ → Option A
  at array (pos n) = get_elem? array n
  at array (negsuc n) = none

  abbrev pub read_at : Option A → Method (BlockQueue A) (Option A)
  read_at none q = undefined
  read_at (some value) q = returns (some value) q

  -- `front(T &value)`; `none` is the result `false`.
  unfoldable pub front : Method (BlockQueue A) (Option A)
  front q = if 0 == q.m_size then returns none q else read_at (at q.m_array q.m_front) q

  -- `back(T &value)`
  unfoldable pub back : Method (BlockQueue A) (Option A)
  back q = if 0 == q.m_size then returns none q else read_at (at q.m_array q.m_back) q

  abbrev pub write_at : ℤ → A → Method (BlockQueue A) Bool
  write_at (negsuc n) item q = undefined
  write_at (pos n) item q =
      if ltb n (length q.m_array)
      then returns true
          (record q { m_back = pos n; m_array = set q.m_array n item; m_size = suc q.m_size })
      else undefined

  -- `push(const T &item)`
  unfoldable pub push : A → Method (BlockQueue A) Bool
  push item q =
      if leb q.m_max_size q.m_size
      then returns false q
      else write_at (next_index q.m_back q.m_max_size) item q

  -- The end of both `pop`s: `m_front` moves on to `i`.
  abbrev pub take_at : ℤ → Option A → Method (BlockQueue A) (Option A)
  take_at i none q = undefined
  take_at i (some item) q = returns (some item) (record q { m_front = i; m_size = q.m_size - 1 })

  unfoldable pub take_next : Method (BlockQueue A) (Option A)
  take_next q = let i = next_index q.m_front q.m_max_size in take_at i (at q.m_array i) q

  -- `pop(T &item)`: an empty queue waits on the condition variable, unless that call fails.
  unfoldable pub pop : Bool → Method (BlockQueue A) (Option A)
  unfolding take_next
  pop wait_ok q =
      if leb q.m_size 0 then if wait_ok then blocks q else returns none q else take_next q

  abbrev pub take_after : Option (BlockQueue A) → Method (BlockQueue A) (Option A)
  take_after none q = returns none q
  take_after (some q') q = if leb q'.m_size 0 then returns none q' else take_next q'

  -- `pop(T &item, int ms_timeout)`: on an empty queue, `woken` is the queue that the wait finds
  -- when it is woken, `none` if it times out.
  unfoldable pub pop_timed : Option (BlockQueue A) → Method (BlockQueue A) (Option A)
  unfolding take_next
  pop_timed woken q = if leb q.m_size 0 then take_after woken q else take_next q

-- The time that `pop(T &item, int ms_timeout)` waits for, in seconds and nanoseconds.
unfoldable pub deadline : ℕ → ℕ → ℕ × ℕ
deadline tv_sec ms_timeout = (tv_sec + ms_timeout / 1000, (ms_timeout % 1000) * 1000)
