-- ===== src/SimpleChat/Server.antt =====
-- simplechat.cpp: the server object, `init`, and the two pools.
use simplechatserver.Prelude.{
  ℕ, zero, Bool, true, false, Option, none, some, List, [], ◌∷◌, ◌++◌, if◌then◌else◌, ℤ, pos,
  negsuc, is_positive, returns, throws, undefined, Method, ◌>>=◌, put_back, on_part,
  invalid_pool_argument, thread_count_not_positive,
}
use simplechatserver.SqlConnectionPool.{MysqlApi, init as init_sql}
use simplechatserver.ThreadPool.{ThreadPool, create_pool, add_function, start}
use simplechatserver.TcpConn.{TcpConn, Trigger, lt, et, EpollCall}
use simplechatserver.UserTable.{Database, Loader, on_pool, init_all_result}

abbrev pub max_fd : ℕ
max_fd = 65536

-- The two functions that `thread_pool` puts into the pool: `read_once` and `sendData`.
pub data Handler : Type 0 where
  reads sends : Handler

-- The server, with the static fields of `tcp_conn`, the database side, and the record of the calls
-- of `epoll_ctl` and of `close`.
pub record SimpleChat : Type 0 where
  pub m_pool : Option (ThreadPool Handler ℕ)
  pub m_con_num : ℤ
  pub m_port : ℤ
  pub m_lfd : ℤ
  pub epoll_fd : ℤ
  pub ep_size : ℕ
  pub users : Option (ℕ → TcpConn)
  pub m_thread_count : ℤ
  pub cstate : Trigger
  pub epfd : ℤ
  pub loader : Loader
  pub epoll : List EpollCall
  pub closed : List ℤ

-- `SimpleChat()`, before anything has set the static fields.
unfoldable pub new_chat : Loader → SimpleChat
new_chat loader = record {
  m_pool = none;
  m_con_num = pos 0;
  m_port = negsuc 0;
  m_lfd = negsuc 0;
  epoll_fd = negsuc 0;
  ep_size = 0;
  users = none;
  m_thread_count = pos 0;
  cstate = et;
  epfd = negsuc 0;
  loader = loader;
  epoll = [];
  closed = [];
}

-- `tcp_conn::setcstate(int)` and `tcp_conn::setepfd(int)`
abbrev pub set_cstate : Trigger → SimpleChat → SimpleChat
set_cstate cstate c = record c { cstate = cstate }

abbrev pub set_epfd : ℤ → SimpleChat → SimpleChat
set_epfd epfd c = record c { epfd = epfd }

-- `init(…)`, for the arguments that are read later.
unfoldable pub init : ℤ → ℤ → ℤ → SimpleChat → SimpleChat
init port con_num thread_count c =
    set_cstate lt (record c { m_port = port; m_con_num = con_num; m_thread_count = thread_count })

-- `m_pool = new ThreadPool<tcp_conn>(…)` up to `start()`.
abbrev pub start_pool :
    (ℕ → Option ℕ) → Option (ThreadPool Handler ℕ) → Method SimpleChat (Unit {0})
start_pool id_of none c = throws invalid_pool_argument c
start_pool id_of (some p) c =
    put_back (λ p'. record c { m_pool = some p' })
      (start id_of (add_function sends (add_function reads p).1).1)

-- The body of `thread_pool()`, by the thread count and the member `m_pool`.
abbrev pub make_pool :
    (ℕ → Option ℕ) → ℤ → Option (ThreadPool Handler ℕ) → Method SimpleChat (Unit {0})
make_pool id_of n m_pool c =
    if is_positive n
    then elim m_pool [
      | none ↦ start_pool id_of (create_pool n (pos 10000)) c
      | some p ↦ returns tt c
    ]
    else throws thread_count_not_positive c

-- `thread_pool()`. `id_of` is what `pthread_create` gives.
unfoldable pub thread_pool : (ℕ → Option ℕ) → Method SimpleChat (Unit {0})
thread_pool id_of c = make_pool id_of c.m_thread_count c.m_pool c

abbrev pub on_loader {ℓ} : {A : Type ℓ} → Method Loader A → Method SimpleChat A
on_loader = on_part (λ c. c.loader) (λ l c. record c { loader = l })

-- `users->initAllResult()`: a member call through a null pointer is undefined.
abbrev pub load_users : Database → Method SimpleChat (Unit {0})
load_users db c = elim c.users [ none ↦ undefined | some _ ↦ on_loader (init_all_result db) c ]

-- `sql_pool()`
unfoldable pub sql_pool : Bool → MysqlApi → Database → Method SimpleChat (Unit {0})
sql_pool sem_init_ok api db =
    on_loader (on_pool (init_sql sem_init_ok api (pos 8))) >>= λ _. load_users db

abbrev pub close_fd : ℤ → Method SimpleChat (Unit {0})
close_fd fd c = returns tt (record c { closed = c.closed ++ (fd ∷ []) })

abbrev pub is_minus_one : ℤ → Bool
is_minus_one (negsuc zero) = true
is_minus_one _ = false
