-- ===== src/SqlConnectionPool/Tests.antt =====
-- Runs of the pool at small inputs, and the theorems at inputs that meet their hypotheses.
use simplechatserver.Prelude.{
  ℕ, ◌+◌, ◌≡◌, ◌≢◌, refl, true, none, some, List, [], ◌∷◌, ◌++◌, length, negsuc,
}
use mathlib.Core.Logic.{ite}
use native.Mathlib.Decide.{dec_lt}
use simplechatserver.SafeQueue.Semaphore.{IsCoupled}
use simplechatserver.SqlConnectionPool.{Mysql, MysqlApi, SqlConnectionPool, serve_all}
use simplechatserver.SqlConnectionPool.Guard.{serve_all-rotates}

-- A library that allocates 10, 11, … and connects every handle below 12.
abbrev api : MysqlApi
api = record { mysql_init = λ i. some (10 + i); mysql_real_connect = below_twelve }
  where
    below_twelve : ℕ → Mysql
    below_twelve h = ite (dec_lt h 12) (some h) none

abbrev two_open : SqlConnectionPool
two_open = record {
  conlist = record {
    list = some 10 ∷ some 11 ∷ [];
    isblock = true;
    m_sem = some 2;
    m_max_count = negsuc 0;
  };
  allocated = 10 ∷ 11 ∷ [];
  closed = [];
}

two_open-IsCoupled : IsCoupled two_open.conlist
two_open-IsCoupled = record { blocking = refl; counts = refl }

two_open-ne : two_open.conlist.list ≢ []
two_open-ne e = cc

serve_all-rotates_example :
    (sqls : List Mysql) × (p : SqlConnectionPool) × (serve_all (none ∷ []) two_open
      ≡ some (sqls, p))
    × (length sqls ≡ 1)
    × (sqls ++ p.conlist.list ≡ some 10 ∷ some 11 ∷ none ∷ [])
    × IsCoupled p.conlist
serve_all-rotates_example = serve_all-rotates (none ∷ []) two_open two_open-IsCoupled two_open-ne
