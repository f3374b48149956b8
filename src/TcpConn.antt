-- ===== src/TcpConn.antt =====
-- request/tcp_conn.h and request/tcp_conn.cpp, class tcp_conn: reading a request, answering it, and
-- the `epoll_ctl` calls that go with it. The kernel's `read` and `write` and the JSON library are
-- parameters; `MAXREADLEN` is 1024.
mod Conn
mod Answering
pub mod Reading
pub mod Delivery
pub mod Requests
pub mod Replies
pub mod Exchange
pub mod Racing
pub mod Calls
pub mod Arming
mod Tests
unfoldable pub use Conn.*
unfoldable pub use Answering.*
use simplechatserver.Prelude.{
  ℕ, zero, suc, ◌+◌, ◌-◌, Bool, true, false, Option, none, some, List, [], ◌∷◌, ◌++◌, length, take,
  set, leb, ltb, if◌then◌else◌, ℤ, pos, negsuc, Outcome, returns, throws, blocks, undefined, Method,
  ◌>>=◌, ◌>>◌, pure, json_error, zeros, copy_at, c_string, copy_string, on_part,
}
use simplechatserver.SqlConnectionPool.{Mysql, SqlConnectionPool, Borrower, raii_open, raii_close}

abbrev pub stored_in : World → ℕ → Option (List ℕ) → Option World
stored_in w n none = none
stored_in w n (some buf) =
    some (record w { conn = record w.conn { m_buf = buf; alllen = w.conn.alllen + n } })

-- The bytes of a `read` go into `sempbuf` and on into `m_buf`: `none` if either overflows.
unfoldable pub store_chunk : List ℕ → World → Option World
store_chunk bs w =
    if leb (length bs) semp_len
    then stored_in w (length bs) (copy_at w.conn.alllen bs w.conn.m_buf)
    else none

-- `m_buf[alllen] = '\0'`
unfoldable pub terminate : World → Option World
terminate w =
    if ltb w.conn.alllen (length w.conn.m_buf)
    then some (record w { conn = record w.conn { m_buf = set w.conn.m_buf w.conn.alllen 0 } })
    else none

-- How one round of a read loop ends.
pub data Next : Type 0 where
  stops : Outcome World Bool → Next
  goes_on : World → Next

abbrev pub or_undefined : Option World → (World → Next) → Next
or_undefined none next = stops undefined
or_undefined (some w) next = next w

-- `parseData(m_buf, …); memset(m_buf, …); alllen = 0; return true;`
unfoldable pub finish : (List ℕ → Option Message) → Method World Bool
finish decode = parse_data decode >>= λ _ w. returns true (clear_buf w)

module _ (decode : List ℕ → Option Message) where
  -- One round of the loop for `LT` with `mode` 0.
  unfoldable pub lt_step : ReadResult → World → Next
  lt_step (got []) w = stops (returns false (remove_fd (clear_buf w)))
  lt_step (got (b ∷ bs)) w =
      or_undefined (store_chunk (b ∷ bs) w) λ w'. or_undefined (terminate w') goes_on
  lt_step again w = stops (finish decode w)
  lt_step failed w = stops (returns false w)

  -- One round of the loop for `ET`.
  unfoldable pub et_step : ReadResult → World → Next
  et_step (got []) w = stops (returns true (remove_fd (clear_buf w)))
  et_step (got (b ∷ bs)) w = or_undefined (store_chunk (b ∷ bs) w) goes_on
  et_step again w = or_undefined (terminate w) λ w'. stops (finish decode w')
  et_step failed w = stops (returns false w)

  abbrev pub stop_with : Next → Option (Outcome World Bool)
  stop_with (stops o) = some o
  stop_with (goes_on w) = some (returns true w)

  -- The branch for `LT` with `mode` 1, which reads once.
  unfoldable pub part_step : ReadResult → World → Next
  part_step (got []) w = stops (returns false (clear_buf w))
  part_step (got (b ∷ bs)) w =
      or_undefined (store_chunk (b ∷ bs) w) λ w'. stops (returns true (update_events read_event w'))
  part_step again w = or_undefined (terminate w) λ w'. stops (finish decode w')
  part_step failed w = stops (returns false w)

  -- `while (1) { int len = read(m_fd, sempbuf, MAXREADLEN - alllen); … }`. `read i n` is what the
  -- i-th `read` gives when asked for at most `n` bytes. `none`: the fuel ran out.
  unfoldable pub read_loop :
      (ReadResult → World → Next)
      → (ℕ → ℕ → ReadResult)
      → ℕ
      → ℕ
      → World
      → Option (Outcome World Bool)
  read_loop step read zero i w = none
  read_loop step read (suc fuel) i w = elim (step (read i (max_read_len - w.conn.alllen)) w) [
    | stops o ↦ some o
    | goes_on w' ↦ read_loop step read fuel (i + 1) w'
  ]

  -- Enough rounds: each but the last reads a byte at least.
  abbrev pub rounds : World → ℕ
  rounds w = suc (suc (max_read_len - w.conn.alllen))

  unfoldable pub read_by : Trigger → ℕ → (ℕ → ℕ → ReadResult) → World → Option (Outcome World Bool)
  read_by lt zero read w = read_loop lt_step read (rounds w) 0 w
  read_by lt (suc zero) read w = stop_with (part_step (read 0 (max_read_len - w.conn.alllen)) w)
  read_by lt (suc (suc mode)) read w = some (returns false w)
  read_by et mode read w = read_loop et_step read (rounds w) 0 w

  -- `read_once()` between the guard's constructor and its destructor, with `cstate` and `mode`.
  unfoldable pub read_body :
      Trigger → ℕ → (ℕ → ℕ → ReadResult) → World → Option (Outcome World Bool)
  read_body cstate mode read w =
      if leb max_read_len w.conn.alllen then some (returns false w) else read_by cstate mode read w

  abbrev pub on_borrower {ℓ} : {A : Type ℓ} → Method Borrower A → Method World A
  on_borrower =
      on_part (λ w. record { pool = w.pool; sql = w.conn.m_sql })
        (λ b w. record w { pool = b.pool; conn = record w.conn { m_sql = b.sql } })

  -- The guard's destructor runs on a return and on an exception alike.
  abbrev pub leave : Mysql → Option (Outcome World Bool) → Option (Outcome World Bool)
  leave m_sql none = none
  leave m_sql (some (returns b w)) =
      some ((on_borrower (raii_close m_sql) >>= λ _ w'. returns b w') w)
  leave m_sql (some (throws e w)) =
      some ((on_borrower (raii_close m_sql) >>= λ _ w'. throws e w') w)
  leave m_sql (some (blocks w)) = some (blocks w)
  leave m_sql (some undefined) = some undefined

  abbrev pub enter :
      Outcome World Mysql → (World → Option (Outcome World Bool)) → Option (Outcome World Bool)
  enter (returns m_sql w) body = leave m_sql (body w)
  enter (throws e w) body = some (throws e w)
  enter (blocks w) body = some (blocks w)
  enter undefined body = some undefined

  -- `read_once()`. The class's `mode` is 0.
  unfoldable pub read_once : Trigger → (ℕ → ℕ → ReadResult) → World → Option (Outcome World Bool)
  read_once cstate read w = enter (on_borrower raii_open w) (read_body cstate 0 read)
