-- ===== src/TcpConn/Exchange.antt =====
-- request/tcp_conn.cpp: `read_once` as a whole, with its guard over the pool of connections.
use simplechatserver.Prelude.{
  ℕ, ◌-◌, ◌<◌, ◌≡◌, ◌≢◌, sym, ap, ◌∙◌, inl, inr, Bool, true, false, Option, some, List, [], ◌∷◌,
  length, length-append, arith, Outcome, returns, then_do, c_string, IsText,
}
use simplechatserver.SafeQueue.{SafeQueue, pop_b, push_b}
use simplechatserver.SafeQueue.Semaphore.{IsCoupled, pop_b-PopsOldest, push_b-IsCoupled}
use simplechatserver.SqlConnectionPool.{
  Mysql, SqlConnectionPool, get_connection, release_connection, raii_open, raii_close,
}
use simplechatserver.TcpConn.{
  World, ReadResult, again, Message, Trigger, max_read_len, reply, answer, update_events,
  write_event, clear_buf, read_body, read_once,
}
use simplechatserver.TcpConn.Delivery.{filled, joined, Arrives}
use simplechatserver.TcpConn.Requests.{request_delivered}
use simplechatserver.TcpConn.Replies.{answer-writes}

-- The connections of the pool can be borrowed: its semaphore counts them, and there is one.
pub record Lends (p : SqlConnectionPool) : Type 0 where
  pub coupled : IsCoupled p.conlist
  pub stocked : p.conlist.list ≢ []

-- The world with another pool and another `m_sql`.
abbrev with_pool : World → SqlConnectionPool → Mysql → World
with_pool w p sql = record w { pool = p; conn = record w.conn { m_sql = sql } }

-- What `read_once` leaves of a request that is answered with the text in `buf`.
abbrev pub answered : List ℕ → SqlConnectionPool → Mysql → World → World
answered buf p sql w = clear_buf (
    update_events write_event
      (record (with_pool w p sql) { conn = record w.conn { m_sql = sql; m_writebuf = buf } }))

-- What follows `parseData`.
abbrev cleared : Outcome World (Unit {0}) → Outcome World Bool
cleared o = then_do o (λ _ w. returns true (clear_buf w))

module _ (decode : List ℕ → Option Message) where
  read_once_at :
      (cstate : Trigger) (read : ℕ → ℕ → ReadResult) (w : World) (con : Mysql) (buf : List ℕ)
      (q q' : SafeQueue Mysql)
      → pop_b false w.pool.conlist ≡ returns con q
      → push_b w.conn.m_sql q ≡ returns tt q'
      → read_body decode cstate 0 read (with_pool w (record w.pool { conlist = q }) con)
        ≡ some (returns true (answered buf (record w.pool { conlist = q }) con w))
      → read_once decode cstate read w
        ≡ some (returns true (answered buf (record w.pool { conlist = q' }) con w))
  unfolding read_once raii_open raii_close get_connection release_connection clear_buf update_events
  read_once_at cstate read w con buf q q' popped pushed body = rw popped (rw body (rw pushed))

  -- The whole of `read_once` on a request that fits, arrives in reads of 1 to 100 bytes and has a
  -- number that is answered, with a pool that lends a connection: it gives true, the buffer is
  -- cleared, the answer is in `m_writebuf`, the descriptor is armed for writing, the borrowed
  -- connection stays in `m_sql`, and the pool can lend again.
  pub read_once_answers :
      (cstate : Trigger) (read : ℕ → ℕ → ReadResult) (cs : List (List ℕ)) (m : Message)
      (text : List ℕ) (w : World)
      → Lends w.pool
      → length w.conn.m_writebuf ≡ 1024
      → length (joined cs) < max_read_len
      → IsText (joined cs)
      → Arrives read 0 0 cs
      → read (length cs) (max_read_len - length (joined cs)) ≡ again
      → decode (joined cs) ≡ some m
      → reply m.id ≡ some text
      → (buf : List ℕ) × (p : SqlConnectionPool) × (con : Mysql) × (read_once decode cstate read
            (filled [] w)
          ≡ some (returns true (answered buf p con w)))
        × (c_string buf ≡ some text)
        × (length buf ≡ 1024)
        × Lends p
  unfolding clear_buf update_events
  read_once_answers cstate read cs m text w lends size small t a e decoded replied =
      elim (pop_b-PopsOldest w.pool.conlist lends.coupled) [
        | inl (empty, _) ↦ absurd (lends.stocked empty)
        | inr (con, q, _, popped, v) ↦
            let (q', pushed, stored, v') = push_b-IsCoupled w.conn.m_sql q v in
            let w₁ = with_pool w (record w.pool { conlist = q }) con in
            let (buf, answered_it, string, same) =
              answer-writes m text (filled (joined cs) w₁) size replied in
            let body = request_delivered decode read cstate cs w₁ small t a e in
            (
              buf,
              record w.pool { conlist = q' },
              con,
              read_once_at cstate read (filled [] w) con buf q q' popped pushed (
                  body
                  ∙ ap some (
                      ap (λ o. cleared (answer o (filled (joined cs) w₁))) decoded
                      ∙ ap cleared answered_it)),
              string,
              same,
              record {
                coupled = v';
                stocked = λ none_left. omega (
                  arith,
                  ap length (sym stored ∙ none_left),
                  length-append q.list (w.conn.m_sql ∷ []),
                );
              },
            )
      ]
