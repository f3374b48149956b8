-- ===== src/UserTable.antt =====
-- request/tcp_conn.cpp, `tcp_conn::initAllResult`: the table `user`, read from the database once.
pub mod Loading
pub mod Rows
mod Tests
use simplechatserver.Prelude.{
  ℕ, zero, suc, Bool, true, false, ◌&&◌, Option, none, some, List, [], ◌∷◌, ◌==◌, if◌then◌else◌,
  Outcome, returns, throws, Method, ◌>>=◌, throw, on_part, no_connection, query_failed,
  store_failed,
}
use simplechatserver.SqlConnectionPool.{
  Mysql, SqlConnectionPool, get_connection, release_connection,
}

abbrev pub Text : Type 0
Text = List ℕ

-- `MYSQL_ROW`: its fields, null ones as `none`.
abbrev pub Row : Type 0
Row = List (Option Text)

-- What the library answers to the query: `mysql_query` succeeds or not, and `mysql_store_result`
-- gives the rows, `none` for null.
pub record Database : Type 0 where
  pub query_ok : Bool
  pub result : Option (List Row)

-- `std::map<std::string, std::vector<std::string>>`: keys once each, here in the order of their
-- first assignment.
abbrev pub Table : Type 0
Table = List (Text × List Text)

pub record Loader : Type 0 where
  pub pool : SqlConnectionPool
  pub user : Table

abbrev pub text_eq : Text → Text → Bool
text_eq [] [] = true
text_eq (a ∷ as') (b ∷ bs) = (a == b) && text_eq as' bs
text_eq _ _ = false

-- `user[uid] = cols`
unfoldable pub assign : Text → List Text → Table → Table
assign uid cols [] = (uid, cols) ∷ []
assign uid cols ((k, v) ∷ t) = if text_eq k uid then (uid, cols) ∷ t else (k, v) ∷ assign uid cols t

unfoldable pub find : Text → Table → Option (List Text)
find uid [] = none
find uid ((k, v) ∷ t) = if text_eq k uid then some v else find uid t

-- `row[i] ? row[i] : ""`
abbrev pub or_empty : Option Text → Text
or_empty none = []
or_empty (some text) = text

abbrev pub fields : Row → List Text
fields [] = []
fields (f ∷ r) = or_empty f ∷ fields r

abbrev pub uid_of : Row → Text
uid_of [] = []
uid_of (f ∷ r) = or_empty f

abbrev pub cols_of : Row → List Text
cols_of [] = []
cols_of (f ∷ r) = fields r

-- `while ((row = mysql_fetch_row(res)) != nullptr)`
unfoldable pub add_rows : List Row → Table → Table
add_rows [] t = t
add_rows (r ∷ rs) t = add_rows rs (assign (uid_of r) (cols_of r) t)

abbrev pub on_pool {ℓ} : {A : Type ℓ} → Method SqlConnectionPool A → Method Loader A
on_pool = on_part (λ l. l.pool) (λ p l. record l { pool = p })

abbrev pub store_rows : Option (List Row) → Mysql → Method Loader (Unit {0})
store_rows none sql l = (on_pool (release_connection sql) >>= λ _. throw store_failed) l
store_rows (some rows) sql l =
    on_pool (release_connection sql) (record l { user = add_rows rows l.user })

abbrev pub query : Database → Mysql → Method Loader (Unit {0})
query db none l = throw no_connection l
query db (some h) l =
    if db.query_ok
    then store_rows db.result (some h) l
    else (on_pool (release_connection (some h)) >>= λ _. throw query_failed) l

-- `initAllResult()`
unfoldable pub init_all_result : Database → Method Loader (Unit {0})
init_all_result db l = (on_pool (get_connection false) >>= query db) (record l { user = [] })
