-- ===== src/SimpleChat/Turns/Tests.antt =====
-- A connection from its acceptance to the worker that reads from it.
use simplechatserver.Prelude.{
  ℕ, ◌==◌, if◌then◌else◌, true, false, none, some, [], ◌∷◌, pos, List, Option, negsuc, codes,
}
use simplechatserver.SafeQueue.{create}
use simplechatserver.ThreadPool.{ThreadPool, append, take_task}
use simplechatserver.TcpConn.{
  new_conn, epollin, adds, read_event, modifies, write_event, Message, World, got, again,
}
use simplechatserver.SimpleChat.Working.{Kernel}
use simplechatserver.SqlConnectionPool.{fresh_pool}
use simplechatserver.SimpleChat.{
  Handler, reads, sends, SimpleChat, Event, new_chat, serve_event, handle_read,
}
use simplechatserver.SimpleChat.Turns.{Turns, idle, before, accepts, disarm, update}

abbrev workers : ThreadPool Handler ℕ
unfolding create
workers = record {
  task_queue = create;
  thread_count = pos 2;
  maxrequest = pos 10;
  is_close = false;
  threads = some (100 ∷ 101 ∷ []);
  sem = 0;
  funbox = reads ∷ sends ∷ [];
}

abbrev listening : SimpleChat
unfolding new_chat fresh_pool new_conn
listening = record (new_chat (record { pool = fresh_pool; user = [] })) {
  m_pool = some workers;
  m_lfd = pos 3;
  epoll_fd = pos 4;
  users = some (λ n. new_conn);
}

abbrev knock : Event
knock = record { fd = 3; mask = epollin ∷ []; accepts = (7, true) ∷ [] }

abbrev readable : Event
readable = record { fd = 7; mask = epollin ∷ []; accepts = [] }

abbrev accepting : SimpleChat
unfolding new_conn
accepting = record listening {
  users = some (λ i. if i == 7 then record new_conn { m_fd = pos 7 } else new_conn);
  epoll = adds (pos 7) read_event ∷ [];
}

abbrev ready : Turns
ready = record {
  chat = accepting;
  armed = update 7 true (disarm listening (knock ∷ []) (λ n. false));
  is_open = update 7 true (λ n. false);
  batch = [];
  hands = idle ∷ idle ∷ [];
}

abbrev message : Message
message = record { id = pos 0; name = []; password = []; email = [] }

abbrev decode_any : List ℕ → Option Message
decode_any bs = some message

-- `[0]`, and then nothing more.
abbrev kernel : Kernel
kernel = record { read = λ i n. if i == 0 then got (codes "[0]") else again; wrote = none }

-- The connection 7, with a pool of one database connection.
abbrev entry : World
unfolding new_conn
entry = record {
  conn = record new_conn { m_fd = pos 7 };
  pool = record {
    conlist = record {
      list = some 10 ∷ [];
      isblock = true;
      m_sem = some 1;
      m_max_count = negsuc 0;
    };
    allocated = 10 ∷ [];
    closed = [];
  };
  epoll = [];
  sent = [];
}

-- The second worker has popped the task that the event loop appended, and runs it.
abbrev reading : Turns
unfolding take_task handle_read append
reading = record {
  chat = record (serve_event readable accepting) {
    m_pool = some (take_task (append (some 7) (pos 0) workers).1).1;
  };
  armed = disarm accepting (readable ∷ []) ready.armed;
  is_open = ready.is_open;
  batch = [];
  hands = idle ∷ before 7 (modifies (pos 7) write_event ∷ []) ∷ [];
}
