-- ===== src/SqlConnectionPool.antt =====
-- sql/sqlconnectionpool.h and sql/sqlconnectionpool.cpp: the pool of database connections, and the
-- guard `sqlRAII` that borrows one. The MySQL client library is a parameter.
pub mod Opening
pub mod Destroy
pub mod Guard
mod Tests
use simplechatserver.Prelude.{
  ℕ, zero, suc, ◌+◌, Bool, true, false, Option, none, some, List, [], ◌∷◌, ◌++◌, ℤ, rounds_of,
  Outcome, returns, throws, Method, ◌>>=◌, ◌>>◌, throw, on_part, mysql_init_failed,
  mysql_connect_failed,
}
use simplechatserver.SafeQueue.{SafeQueue, create, setblock, pop_b, push_b, size, empty}

-- `MYSQL *`: null, or a handle that `mysql_init` has allocated.
abbrev pub Mysql : Type 0
Mysql = Option ℕ

-- What the library returns: `mysql_init` at its i-th call, and `mysql_real_connect` on a handle.
pub record MysqlApi : Type 0 where
  pub mysql_init : ℕ → Mysql
  pub mysql_real_connect : ℕ → Mysql

-- The pool, with the record of the library's calls: the handles allocated by `mysql_init` and the
-- arguments of `mysql_close`, in order.
pub record SqlConnectionPool : Type 0 where
  pub conlist : SafeQueue Mysql
  pub allocated : List ℕ
  pub closed : List Mysql

unfoldable pub fresh_pool : SqlConnectionPool
unfolding create
fresh_pool = record { conlist = create; allocated = []; closed = [] }

abbrev pub on_conlist {ℓ} : {A : Type ℓ} → Method (SafeQueue Mysql) A → Method SqlConnectionPool A
on_conlist = on_part (λ p. p.conlist) (λ q p. record p { conlist = q })

abbrev pub allocate : ℕ → Method SqlConnectionPool (Unit {0})
allocate handle p = returns tt (record p { allocated = p.allocated ++ (handle ∷ []) })

-- The body of the loop of `init`, with the results of its two calls.
abbrev pub add_connected : Mysql → Method SqlConnectionPool (Unit {0})
add_connected none = throw mysql_connect_failed
add_connected (some handle) = on_conlist (push_b (some handle))

abbrev pub add_allocated : MysqlApi → Mysql → Method SqlConnectionPool (Unit {0})
add_allocated api none = throw mysql_init_failed
add_allocated api (some handle) =
    allocate handle >>= λ _. add_connected (api.mysql_real_connect handle)

-- `for (int i = …; i < con_num; i++)`, by the number of rounds left.
unfoldable pub init_loop : MysqlApi → ℕ → ℕ → Method SqlConnectionPool (Unit {0})
init_loop api zero i = returns tt
init_loop api (suc rounds) i =
    add_allocated api (api.mysql_init i) >>= λ _. init_loop api rounds (i + 1)

-- `init(…, con_num)`. The Boolean tells whether `sem_init` succeeds.
unfoldable pub init : Bool → MysqlApi → ℤ → Method SqlConnectionPool (Unit {0})
init sem_init_ok api con_num =
    on_conlist (setblock sem_init_ok) >>= λ _. init_loop api (rounds_of con_num) 0

-- `GetConnection()`. The Boolean tells whether a signal interrupts the wait.
unfoldable pub get_connection : Bool → Method SqlConnectionPool Mysql
get_connection interrupted = on_conlist (pop_b interrupted)

-- `ReleaseConnection(con)`
unfoldable pub release_connection : Mysql → Method SqlConnectionPool (Unit {0})
release_connection con = on_conlist (push_b con)

-- `GetFreeConn()`
unfoldable pub get_free_conn : SqlConnectionPool → ℕ
unfolding size
get_free_conn p = size p.conlist

abbrev pub close_handle : Mysql → Method SqlConnectionPool (Unit {0})
close_handle con p = returns tt (record p { closed = p.closed ++ (con ∷ []) })

-- The loop of `DestroyPool()`, on fuel; `none` means that the fuel ran out.
unfoldable pub destroy_loop : ℕ → SqlConnectionPool → Option (Outcome SqlConnectionPool (Unit {0}))
destroy_loop zero p = none
destroy_loop (suc fuel) p = elim (empty p.conlist) [
  | true ↦ some (returns tt p)
  | false ↦ elim ((get_connection false >>= close_handle) p) [
    | returns _ p' ↦ destroy_loop fuel p'
    | r ↦ some r
  ]
]

-- `DestroyPool()`, which is also the destructor.
unfoldable pub destroy_pool : SqlConnectionPool → Option (Outcome SqlConnectionPool (Unit {0}))
destroy_pool p = destroy_loop (suc (size p.conlist)) p

-- What `sqlRAII` touches: the pool, and the caller's pointer `*sql`.
pub record Borrower : Type 0 where
  pub pool : SqlConnectionPool
  pub sql : Mysql

abbrev pub on_pool {ℓ} : {A : Type ℓ} → Method SqlConnectionPool A → Method Borrower A
on_pool = on_part (λ b. b.pool) (λ p b. record b { pool = p })

-- `sqlRAII(MYSQL **sql)`: the result is the member `m_sql`.
unfoldable pub raii_open : Method Borrower Mysql
raii_open b =
    (on_pool (get_connection false) >>= λ con b'. returns b.sql (record b' { sql = con })) b

-- `~sqlRAII()`, with the member `m_sql`.
unfoldable pub raii_close : Mysql → Method Borrower (Unit {0})
raii_close m_sql = on_pool (release_connection m_sql)

-- A scope with a guard in it, around a body that leaves the pool and `*sql` alone.
unfoldable pub guarded : Method Borrower (Unit {0})
guarded = raii_open >>= raii_close

-- Connections with the given pointers, served one after the other, once each.
unfoldable pub serve_all : List Mysql → SqlConnectionPool → Option (List Mysql × SqlConnectionPool)
serve_all [] p = some ([], p)
serve_all (sql ∷ sqls) p = elim (guarded (record { pool = p; sql = sql })) [
  | returns _ b ↦ elim (serve_all sqls b.pool) [
    | some (sqls', p') ↦ some (b.sql ∷ sqls', p')
    | none ↦ none
  ]
  | _ ↦ none
]
