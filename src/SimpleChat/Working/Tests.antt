-- ===== src/SimpleChat/Working/Tests.antt =====
-- Two clients' requests on a small server.
use simplechatserver.Prelude.{
  ℕ, zero, suc, ◌<◌, ◌≡◌, refl, true, false, Option, some, List, [], ◌∷◌, arith, pos, returns,
  int_eq, codes, length-replicate,
}
use simplechatserver.SafeQueue.{create}
use simplechatserver.SqlConnectionPool.{SqlConnectionPool, fresh_pool}
use simplechatserver.ThreadPool.{ThreadPool}
use simplechatserver.TcpConn.{TcpConn, ReadResult, got, again, Message, new_conn, reply}
use simplechatserver.TcpConn.Exchange.{Lends}
use simplechatserver.SimpleChat.{Handler, reads, sends, SimpleChat, new_chat}
use simplechatserver.SimpleChat.Working.{Request, serve_batch, and_then_run, exchanges}
use simplechatserver.SimpleChat.Working.Exchange.{IsFresh, Asks, server}
use simplechatserver.SimpleChat.Accepting.{contains, watch}
use simplechatserver.SimpleChat.Working.Requests.{armings}
use simplechatserver.SimpleChat.Working.Clients.{IsBlank, knock, clients_answered}

abbrev handles : SqlConnectionPool
handles = record {
  conlist = record { list = some 10 ∷ []; isblock = true; m_sem = some 1; m_max_count = pos 0 };
  allocated = 10 ∷ [];
  closed = [];
}

handles-Lends : Lends handles
handles-Lends = record {
  coupled = record { blocking = refl; counts = refl };
  stocked = λ e. absurd (ground arith);
}

abbrev workers : ThreadPool Handler ℕ
unfolding create
workers = record {
  task_queue = create;
  thread_count = pos 2;
  maxrequest = pos 10;
  is_close = false;
  threads = some (100 ∷ 101 ∷ []);
  sem = 0;
  funbox = reads ∷ sends ∷ [];
}

abbrev chat : SimpleChat
unfolding new_chat fresh_pool
chat = record (new_chat (record { pool = fresh_pool; user = [] })) {
  m_lfd = pos 3;
  epoll_fd = pos 4;
}

abbrev users : ℕ → TcpConn
unfolding new_conn
users n = new_conn

users-IsBlank : (n : ℕ) → IsBlank (users n)
unfolding users new_conn
users-IsBlank n = record { blank = refl; room = length-replicate {A = ℕ} 1024 0 }

-- A login in two reads.
abbrev login : ℕ → ℕ → ReadResult
login zero n = got (codes "[0,")
login (suc zero) n = got (codes "1]")
login (suc (suc i)) n = again

abbrev login_message : Message
login_message = record { id = pos 0; name = []; password = []; email = [] }

abbrev decode : List ℕ → Option Message
decode bs = some login_message

abbrev request : Request
request = record { read = login; taken = 3 }

login-Asks : (n : ℕ) → n < 100 → (int_eq (pos n) (pos 3) ≡ false) → Asks decode (pos 3) n request
unfolding reply
login-Asks n small other = record {
  small_fd = omega arith;
  other = other;
  chunks = codes "[0," ∷ codes "1]" ∷ [];
  fits = omega arith;
  is_text = omega arith;
  arrives = (refl, omega arith, omega arith, (refl, omega arith, omega arith, tt));
  arrived = refl;
  message = login_message;
  decoded = refl;
  text = codes "[2]";
  replied = refl;
}

clients_answered_example :
    (users' : ℕ → TcpConn) × (pool' : SqlConnectionPool) × (and_then_run
        (serve_batch (knock 3 (7 ∷ 8 ∷ []) ∷ []) (server chat workers [] 0 users handles [] []))
        (exchanges decode ((7, request) ∷ (8, request) ∷ []))
      ≡ some (
          returns true (
            server chat workers [] 0 users' pool'
              (watch 7 ∷ watch 8 ∷ armings ((7, request) ∷ (8, request) ∷ []))
              ((7, codes "[2]") ∷ (8, codes "[2]") ∷ []))))
    × ((i : ℕ) → contains i (7 ∷ 8 ∷ []) ≡ true → IsFresh i (users' i))
    × Lends pool'
unfolding chat workers users login-Asks
clients_answered_example =
    clients_answered decode chat workers 3 (7 ∷ 8 ∷ []) ((7, request) ∷ (8, request) ∷ []) 0 users
      handles [] [] (login-Asks 7 (omega arith) refl, (login-Asks 8 (omega arith) refl, tt))
      (refl, (refl, tt)) refl (omega arith, (omega arith, tt)) (λ i member. users-IsBlank i)
      (omega arith) handles-Lends
