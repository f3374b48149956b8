-- ===== src/TcpConn/Conn.antt =====
-- request/tcp_conn.h, request/tcp_conn.cpp: a connection, its buffers, and its calls of `epoll_ctl`.
use simplechatserver.Prelude.{ℕ, none, List, [], ◌∷◌, ◌++◌, ℤ, negsuc, zeros}
use simplechatserver.SqlConnectionPool.{Mysql, SqlConnectionPool}

-- The `epoll` flags that the program names.
pub data Flag : Type 0 where
  epollin epollout epollrdhup epolloneshot epollerr epollhup epollet : Flag

abbrev pub read_event : List Flag
read_event = epollin ∷ epollrdhup ∷ epolloneshot ∷ []

abbrev pub write_event : List Flag
write_event = epollout ∷ epollrdhup ∷ epolloneshot ∷ []

-- The calls of `epoll_ctl`, with their descriptor.
pub data EpollCall : Type 0 where
  adds modifies : ℤ → List Flag → EpollCall
  deletes : ℤ → EpollCall

pub data Trigger : Type 0 where
  lt et : Trigger

-- What one `read` gives: bytes (none of them: the peer has closed), EAGAIN, or another error.
pub data ReadResult : Type 0 where
  got : List ℕ → ReadResult
  again failed : ReadResult

-- A request once `json::parse` and the four `get` calls have gone through.
pub record Message : Type 0 where
  pub id : ℤ
  pub name : List ℕ
  pub password : List ℕ
  pub email : List ℕ

abbrev pub max_read_len : ℕ
max_read_len = 1024

-- `sempbuf[100]`
abbrev pub semp_len : ℕ
semp_len = 100

pub record TcpConn : Type 0 where
  pub m_sql : Mysql
  pub m_fd : ℤ
  pub m_buf : List ℕ
  pub m_writebuf : List ℕ
  pub alllen : ℕ

-- A connection as its methods see it: itself, the connection pool, and the record of the calls of
-- `epoll_ctl` and of the bytes given to `write`.
pub record World : Type 0 where
  pub conn : TcpConn
  pub pool : SqlConnectionPool
  pub epoll : List EpollCall
  pub sent : List (List ℕ)

-- `tcp_conn()`
unfoldable pub new_conn : TcpConn
new_conn = record {
  m_sql = none;
  m_fd = negsuc 0;
  m_buf = zeros 1024;
  m_writebuf = zeros 1024;
  alllen = 0;
}

-- `tcp_conn(int fd)`, which leaves the pointer and the arrays as they are: what they hold is an
-- argument.
unfoldable pub conn_of_fd : ℤ → Mysql → List ℕ → List ℕ → TcpConn
conn_of_fd fd sql buf writebuf = record {
  m_sql = sql;
  m_fd = fd;
  m_buf = buf;
  m_writebuf = writebuf;
  alllen = 0;
}

-- `getFd()`
unfoldable pub get_fd : TcpConn → ℤ
get_fd c = c.m_fd

-- `setFd(int)`
unfoldable pub set_fd : ℤ → TcpConn → TcpConn
set_fd fd c = record c { m_fd = fd }

-- `cleanAllData()`, and `init()`, which has the same body.
unfoldable pub clean_all_data : TcpConn → TcpConn
clean_all_data c = record c { m_buf = zeros 1024; m_writebuf = zeros 1024; alllen = 0 }

-- `memset(m_buf, 0, sizeof(m_buf)); alllen = 0;`
unfoldable pub clear_buf : World → World
clear_buf w = record w { conn = record w.conn { m_buf = zeros 1024; alllen = 0 } }

-- `update_events(uint32_t events)`
unfoldable pub update_events : List Flag → World → World
update_events events w = record w { epoll = w.epoll ++ (modifies w.conn.m_fd events ∷ []) }

-- `remove_fd()`, and the same lines of `read_once`.
unfoldable pub remove_fd : World → World
remove_fd w = record w { epoll = w.epoll ++ (deletes w.conn.m_fd ∷ []) }
