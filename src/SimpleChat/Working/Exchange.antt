-- ===== src/SimpleChat/Working/Exchange.antt =====
-- One request and its answer, through the event loop, the thread pool and the connection.
use simplechatserver.Prelude.{
  ℕ, suc, ◌-◌, ◌<◌, ◌≡◌, refl, sym, ap, ◌∙◌, true, false, Option, none, some, List, [], ◌∷◌, ◌++◌,
  append-nil, append_assoc, subst, length, length-replicate, take, ◌==◌, ==_iff, lt→ltb, not-le→leb,
  ℤ, pos, to_size, int_eq, returns, zeros, IsText,
}
use simplechatserver.SafeQueue.{push, size, pop, empty}
use simplechatserver.SqlConnectionPool.{SqlConnectionPool}
use simplechatserver.ThreadPool.{
  ThreadPool, append, has_room, enqueue, post_sem, take_task, dispatch,
}
use simplechatserver.TcpConn.{
  TcpConn, World, again, Message, max_read_len, reply, read_once, send_data, EpollCall, modifies,
  read_event, write_event, update_events, clear_buf,
}
use simplechatserver.TcpConn.Delivery.{joined, Arrives}
use simplechatserver.TcpConn.Replies.{send_data-sends}
use simplechatserver.TcpConn.Exchange.{Lends, answered, read_once_answers}
use simplechatserver.SimpleChat.{
  Handler, reads, sends, SimpleChat, max_fd, update_user, handle_batch, handle_read, handle_write,
}
use simplechatserver.SimpleChat.Working.{
  Serving, Kernel, work_round, serve_batch, and_then_run, Request, readable, writable, exchange,
}

-- An entry of `users` with nothing read and nothing to write.
pub record IsFresh (n : ℕ) (user : TcpConn) : Type 0 where
  pub blank : user ≡ record user { m_buf = zeros 1024; alllen = 0 }
  pub room : length user.m_writebuf ≡ 1024
  pub fd : user.m_fd ≡ pos n

-- The request is on a connection, it has fewer than 1024 bytes, none of them zero, and comes in reads
-- of 1 to 100 bytes; it decodes to a message that is answered with `text`.
pub record Asks (decode : List ℕ → Option Message) (m_lfd : ℤ) (n : ℕ) (r : Request) : Type 0 where
  pub small_fd : n < max_fd
  pub other : int_eq (pos n) m_lfd ≡ false
  pub chunks : List (List ℕ)
  pub fits : length (joined chunks) < max_read_len
  pub is_text : IsText (joined chunks)
  pub arrives : Arrives r.read 0 0 chunks
  pub arrived : r.read (length chunks) (max_read_len - length (joined chunks)) ≡ again
  pub message : Message
  pub decoded : decode (joined chunks) ≡ some message
  pub text : List ℕ
  pub replied : reply message.id ≡ some text

-- The calls of `epoll_ctl` that an exchange makes.
abbrev pub armed_twice : ℕ → List EpollCall
armed_twice n = modifies (pos n) write_event ∷ modifies (pos n) read_event ∷ []

module _ (c : SimpleChat) (p : ThreadPool Handler ℕ) where
  -- The server with these tasks queued, this value of the semaphore, these connections and database
  -- connections, after these calls of `epoll_ctl` and these writes.
  abbrev pub server :
      List (ℤ × Option ℕ)
      → ℕ
      → (ℕ → TcpConn)
      → SqlConnectionPool
      → List EpollCall
      → List (ℕ × List ℕ)
      → Serving
  server tasks sem users pool epoll sent = record {
    chat = record c {
      m_pool = some (record p {
        task_queue = record p.task_queue { list = tasks };
        sem = sem;
        funbox = reads ∷ sends ∷ [];
      });
      users = some users;
      loader = record c.loader { pool = pool };
      epoll = epoll;
    };
    sent = sent;
  }

  module _ (n : ℕ) (small : n < max_fd) (other : int_eq (pos n) c.m_lfd ≡ false)
      (room : 0 < to_size p.maxrequest) where
    reads_queued :
        (sem : ℕ) (users : ℕ → TcpConn) (pool : SqlConnectionPool) (epoll : List EpollCall)
        (sent : List (ℕ × List ℕ))
        → serve_batch (readable n ∷ []) (server [] sem users pool epoll sent)
          ≡ some (returns true (server ((pos 0, some n) ∷ []) (suc sem) users pool epoll sent))
    unfolding serve_batch handle_batch handle_read append has_room enqueue post_sem push size
    reads_queued sem users pool epoll sent =
        rw (other, not-le→leb max_fd n small, lt→ltb 0 (to_size p.maxrequest) room)

    writes_queued :
        (sem : ℕ) (users : ℕ → TcpConn) (pool : SqlConnectionPool) (epoll : List EpollCall)
        (sent : List (ℕ × List ℕ))
        → serve_batch (writable n ∷ []) (server [] sem users pool epoll sent)
          ≡ some (returns true (server ((pos 1, some n) ∷ []) (suc sem) users pool epoll sent))
    unfolding serve_batch handle_batch handle_write append has_room enqueue post_sem push size
    writes_queued sem users pool epoll sent =
        rw (other, not-le→leb max_fd n small, lt→ltb 0 (to_size p.maxrequest) room)

  -- A worker runs the queued task.
  read_runs :
      (decode : List ℕ → Option Message) (k : Kernel) (n sem : ℕ) (users : ℕ → TcpConn)
      (pool : SqlConnectionPool) (epoll : List EpollCall) (sent : List (ℕ × List ℕ)) (w : World)
      → read_once decode c.cstate k.read
          (record { conn = users n; pool = pool; epoll = epoll; sent = [] })
        ≡ some (returns true w)
      → w.sent ≡ []
      → work_round decode k (server ((pos 0, some n) ∷ []) (suc sem) users pool epoll sent)
        ≡ some
            (returns true (server [] sem (update_user n (λ _. w.conn) users) w.pool w.epoll sent))
  unfolding work_round take_task dispatch empty pop
  read_runs decode k n sem users pool epoll sent w e quiet =
      rw (e, quiet)
        (ap
          (λ l.
            some
              (returns true (server [] sem (update_user n (λ _. w.conn) users) w.pool w.epoll l)))
          (append-nil sent))

  send_runs :
      (decode : List ℕ → Option Message) (k : Kernel) (n sem : ℕ) (users : ℕ → TcpConn)
      (pool : SqlConnectionPool) (epoll : List EpollCall) (sent : List (ℕ × List ℕ)) (w : World)
      (text : List ℕ)
      → send_data k.wrote (record { conn = users n; pool = pool; epoll = epoll; sent = [] })
        ≡ returns true w
      → w.sent ≡ text ∷ []
      → work_round decode k (server ((pos 1, some n) ∷ []) (suc sem) users pool epoll sent)
        ≡ some (
            returns true (
              server [] sem
                (update_user n (λ _. w.conn) users)
                w.pool
                w.epoll
                (sent ++ ((n, text) ∷ []))))
  unfolding work_round take_task dispatch empty pop
  send_runs decode k n sem users pool epoll sent w text e wrote = rw (e, wrote)

  same_user :
      (n : ℕ) (user : TcpConn) (users : ℕ → TcpConn) → update_user n (λ _. user) users n ≡ user
  same_user n user users = let same : (n == n) ≡ true = (==_iff n n).1 refl in rw same

  -- A request on a fresh connection of a server with an idle thread pool and a pool of database
  -- connections that lends one: epoll reports the connection, a worker reads and answers, epoll
  -- reports it again, a worker sends. What `write` takes of the answer has been sent to this
  -- connection, which is fresh again and armed for reading; no other connection has changed, the
  -- thread pool is idle and the other pool lends again.
  pub request_answered :
      (decode : List ℕ → Option Message) (n : ℕ) (r : Request) (sem : ℕ) (users : ℕ → TcpConn)
      (pool : SqlConnectionPool) (epoll : List EpollCall) (sent : List (ℕ × List ℕ))
      → (q : Asks decode c.m_lfd n r) → 0 < to_size p.maxrequest
      → IsFresh n (users n)
      → Lends pool
      → (users' : ℕ → TcpConn) × (pool' : SqlConnectionPool) × (exchange decode n r
            (server [] sem users pool epoll sent)
          ≡ some (
              returns true (
                server [] sem users' pool'
                  (epoll ++ armed_twice n)
                  (sent ++ ((n, take r.taken q.text) ∷ [])))))
        × IsFresh n (users' n)
        × ((i : ℕ) → (i == n) ≡ false → users' i ≡ users i)
        × Lends pool'
  unfolding exchange update_events clear_buf
  request_answered decode n r sem users pool epoll sent q room fresh lends =
      let w : World = record { conn = users n; pool = pool; epoll = epoll; sent = [] } in
      let (buf, pool', sql, run, string, size, lends') =
        read_once_answers decode c.cstate r.read q.chunks q.message q.text w lends fresh.room q.fits
          q.is_text q.arrives q.arrived q.decoded q.replied in
      let w₁ = answered buf pool' sql w in
      let read_all : read_once decode c.cstate r.read w ≡ some (returns true w₁) =
        ap (λ u. read_once decode c.cstate r.read (record w { conn = u })) fresh.blank ∙ run in
      let users₁ = update_user n (λ _. w₁.conn) users in
      let same : users₁ n ≡ w₁.conn = same_user n w₁.conn users in
      let w₂ : World = record { conn = w₁.conn; pool = pool'; epoll = w₁.epoll; sent = [] } in
      let w₃ : World = update_events read_event (record w₂ {
        conn = record w₁.conn { m_writebuf = zeros 1024 };
        sent = take r.taken q.text ∷ [];
      }) in
      let send_all : send_data (some r.taken) (record w₂ { conn = users₁ n }) ≡ returns true w₃ =
        ap (λ u. send_data (some r.taken) (record w₂ { conn = u })) same
        ∙ send_data-sends r.taken q.text w₂ string in
      let users₂ = update_user n (λ _. w₃.conn) users₁ in
      let k₁ : Kernel = record { read = r.read; wrote = none } in
      let k₂ : Kernel = record { read = r.read; wrote = some r.taken } in
      let writing = serve_batch (writable n ∷ []) in
      let sending = work_round decode k₂ in
      let armed : w₃.epoll ≡ epoll ++ armed_twice n =
        append_assoc epoll _ _
        ∙ ap (λ (f : ℤ). epoll ++ (modifies f write_event ∷ modifies f read_event ∷ [])) fresh.fd in
      (
        users₂,
        pool',
        ap
              (λ o.
                and_then_run (and_then_run (and_then_run o (work_round decode k₁)) writing) sending)
              (reads_queued n q.small_fd q.other room sem users pool epoll sent)
            ∙ ap (λ o. and_then_run (and_then_run o writing) sending)
                (read_runs decode k₁ n sem users pool epoll sent w₁ read_all refl)
            ∙ ap (λ o. and_then_run o sending)
                (writes_queued n q.small_fd q.other room sem users₁ pool' w₁.epoll sent)
            ∙ send_runs decode k₂ n sem users₁ pool' w₁.epoll sent w₃ (take r.taken q.text) send_all
                refl
            ∙ ap
                (λ l. some (
                  returns true
                    (server [] sem users₂ pool' l (sent ++ ((n, take r.taken q.text) ∷ [])))))
                armed,
        subst (IsFresh n) (sym (same_user n w₃.conn users₁))
            (record { blank = refl; room = length-replicate {A = ℕ} 1024 0; fd = fresh.fd }),
        λ i apart. rw apart,
        lends',
      )
