-- ===== src/SimpleChat/Working.antt =====
-- thread/threadpool.h, `work`, on the server of simplechat.cpp: a worker runs `read_once` or
-- `sendData` of request/tcp_conn.cpp on an entry of the array `users`. The steps here follow one
-- another; SimpleChat/Turns has what other threads may do in between.
pub mod Exchange
pub mod Requests
pub mod Clients
mod Tests
use simplechatserver.Prelude.{
  ℕ, zero, suc, ◌≡◌, Bool, true, false, Option, none, some, List, [], ◌∷◌, ◌++◌, map, if◌then◌else◌,
  Outcome, returns, throws, blocks, undefined, Method, ◌>>=◌, put_back, pure,
}
use simplechatserver.SafeQueue.{empty}
use simplechatserver.ThreadPool.{ThreadPool, Action, calls, deletes, sleeps, take_task, dispatch}
use simplechatserver.TcpConn.{
  TcpConn, World, ReadResult, Message, Trigger, read_once, send_data, epollin, epollout,
}
use simplechatserver.SimpleChat.{
  Handler, reads, sends, SimpleChat, Event, update_user, handle_batch,
}

-- The server, and the texts that `write` has taken, each with the index of its connection.
pub record Serving : Type 0 where
  pub chat : SimpleChat
  pub sent : List (ℕ × List ℕ)

-- What the kernel gives to the calls of one task: the i-th `read`, asked for so many bytes, and
-- `write`.
pub record Kernel : Type 0 where
  pub read : ℕ → ℕ → ReadResult
  pub wrote : Option ℕ

-- An entry of `users` as its methods see it.
abbrev pub world_of : TcpConn → Serving → World
world_of user s = record { conn = user; pool = s.chat.loader.pool; epoll = s.chat.epoll; sent = [] }

abbrev pub put_world : ℕ → (ℕ → TcpConn) → Serving → World → Serving
put_world n users s w = record {
  chat = record s.chat {
    users = some (update_user n (λ _. w.conn) users);
    loader = record s.chat.loader { pool = w.pool };
    epoll = w.epoll;
  };
  sent = s.sent ++ map (λ text. (n, text)) w.sent;
}

abbrev pub put_result :
    (World → Serving) → Option (Outcome World Bool) → Option (Outcome Serving Bool)
put_result put none = none
put_result put (some o) = some (put_back put o)

module _ (decode : List ℕ → Option Message) (k : Kernel) where
  -- The two functions that `thread_pool` has added; `none` means that the fuel of `read_once` ran
  -- out.
  abbrev pub run_handler : Handler → Trigger → World → Option (Outcome World Bool)
  run_handler reads cstate w = read_once decode cstate k.read w
  run_handler sends cstate w = some (send_data k.wrote w)

  -- `funbox.at(task.first)(task.second)`
  abbrev pub run_on_user :
      Handler → ℕ → Option (ℕ → TcpConn) → Serving → Option (Outcome Serving Bool)
  run_on_user h n none s = some undefined
  run_on_user h n (some users) s =
      put_result (put_world n users s) (run_handler h s.chat.cstate (world_of (users n) s))

  -- The entries of an array cannot be deleted one by one.
  abbrev pub run_action : Action Handler ℕ → Serving → Option (Outcome Serving Bool)
  run_action (calls h n) s = run_on_user h n s.chat.users s
  run_action (deletes n) s = some undefined
  run_action sleeps s = some (returns true s)

  -- One round of `work` in an open pool: `sem_wait`, then the task, if there is one.
  abbrev pub run_round : ℕ → ThreadPool Handler ℕ → Serving → Option (Outcome Serving Bool)
  run_round zero p s = some (blocks s)
  run_round (suc sem) p s =
      let (task, p') = take_task (record p { sem = sem }) in
      if empty p.task_queue
      then some (
          returns true
            (record s { chat = record s.chat { m_pool = some (record p { sem = sem }) } }))
      else run_action (dispatch p.funbox task)
          (record s { chat = record s.chat { m_pool = some p' } })

  unfoldable pub work_round : Serving → Option (Outcome Serving Bool)
  unfolding take_task dispatch empty
  work_round s = elim s.chat.m_pool [ none ↦ some undefined | some p ↦ run_round p.sem p s ]

-- The event loop on the events of one `epoll_wait`.
unfoldable pub serve_batch : List Event → Serving → Option (Outcome Serving Bool)
serve_batch evs s =
    some (put_back (λ c. record s { chat = c }) ((handle_batch evs >>= λ _. pure true) s.chat))

abbrev pub and_then_run :
    Option (Outcome Serving Bool)
    → (Serving → Option (Outcome Serving Bool))
    → Option (Outcome Serving Bool)
and_then_run (some (returns b s)) next = next s
and_then_run o next = o

-- A request: the reads that bring it, and how much of the answer `write` takes.
pub record Request : Type 0 where
  pub read : ℕ → ℕ → ReadResult
  pub taken : ℕ

abbrev pub readable : ℕ → Event
readable n = record { fd = n; mask = epollin ∷ []; accepts = [] }

abbrev pub writable : ℕ → Event
writable n = record { fd = n; mask = epollout ∷ []; accepts = [] }

-- A request on the connection `n`: epoll reports it readable, a worker takes the task, epoll reports
-- it writable, a worker takes the task.
unfoldable pub exchange :
    (List ℕ → Option Message) → ℕ → Request → Serving → Option (Outcome Serving Bool)
unfolding serve_batch work_round
exchange decode n r s =
    and_then_run
      (and_then_run
        (and_then_run (serve_batch (readable n ∷ []) s)
          (work_round decode (record { read = r.read; wrote = none })))
        (serve_batch (writable n ∷ [])))
      (work_round decode (record { read = r.read; wrote = some r.taken }))

-- Requests one after the other, each with its connection.
unfoldable pub exchanges :
    (List ℕ → Option Message) → List (ℕ × Request) → Serving → Option (Outcome Serving Bool)
exchanges decode [] s = some (returns true s)
exchanges decode ((n, r) ∷ more) s = and_then_run (exchange decode n r s) (exchanges decode more)
