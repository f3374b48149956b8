-- ===== src/SimpleChat.antt =====
-- simplechat.h, simplechat.cpp and main.cpp: the server that ties the parts together. What the
-- system calls return is an argument; a connection `&users[n]` is its index `n`.
mod Server
mod Listen
mod Loop
pub mod Listening
pub mod Starting
pub mod Events
pub mod Accepting
pub mod Turns
pub mod Working
mod Tests
unfoldable pub use Server.*
unfoldable pub use Listen.*
unfoldable pub use Loop.*
use simplechatserver.Prelude.{
  ℕ, zero, suc, Bool, true, false, ◌||◌, not, Option, none, some, List, [], ◌∷◌, ◌++◌, ◌==◌, leb,
  if◌then◌else◌, ℤ, pos, negsuc, is_positive, int_eq, Outcome, returns, throws, blocks, undefined,
  Exception, Method, ◌>>=◌, ◌>>◌, pure, throw, put_back, on_part, invalid_pool_argument,
  thread_count_not_positive, socket_init_defeat, bind_error, listen_error, set_nonblock_error,
  epoll_create_error, epoll_add_error, loop_before_listen, epoll_wait_error,
}
use simplechatserver.SqlConnectionPool.{MysqlApi, SqlConnectionPool, init as init_sql}
use simplechatserver.ThreadPool.{
  ThreadPool, create_pool, add_function, start, append, close, destroy,
}
use simplechatserver.TcpConn.{
  TcpConn, Trigger, lt, et, Flag, epollin, epollout, epollrdhup, epollerr, epollhup, EpollCall,
  adds, deletes, read_event, new_conn, set_fd, clean_all_data,
}
use simplechatserver.UserTable.{Database, Loader, on_pool, init_all_result}

-- `if (fd != -1) close(fd)`
abbrev pub close_open : ℤ → List ℤ → List ℤ
close_open fd closed = if is_minus_one fd then closed else closed ++ (fd ∷ [])

-- `m_pool->close(); delete m_pool;`
abbrev pub delete_pool :
    Option (ThreadPool Handler ℕ) → Outcome (Option (ThreadPool Handler ℕ)) (Unit {0})
delete_pool none = returns tt none
delete_pool (some p) = elim (destroy (close p)) [
  | returns _ _ ↦ returns tt none
  | throws e _ ↦ throws e none
  | blocks _ ↦ blocks none
  | undefined ↦ undefined
]

-- `~SimpleChat()`
unfoldable pub destroy_chat : Method SimpleChat (Unit {0})
destroy_chat c =
    put_back
      (λ pool. record c {
        m_pool = pool;
        m_lfd = negsuc 0;
        epoll_fd = negsuc 0;
        users = none;
        closed = close_open c.m_lfd (close_open c.epoll_fd c.closed);
      })
      (delete_pool c.m_pool)

-- `main()`, without the destructor at its end.
unfoldable pub main :
    (ℕ → Option ℕ)
    → Bool
    → MysqlApi
    → Database
    → SocketApi
    → List Wait
    → Method SimpleChat (Unit {0})
main id_of sem_init_ok api db s waits c =
    (thread_pool id_of >> sql_pool sem_init_ok api db >> event_listen s >> event_loop waits)
      (init (pos 9990) (pos 100) (pos 10) c)
