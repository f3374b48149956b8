-- ===== src/UserTable/Tests.antt =====
-- The theorems at a table with two rows for one id, and a null field.
use simplechatserver.Prelude.{◌≡◌, refl, true, negsuc, none, some, List, [], ◌∷◌, returns}
use simplechatserver.SafeQueue.Semaphore.{IsCoupled}
use simplechatserver.SqlConnectionPool.{SqlConnectionPool}
use simplechatserver.UserTable.{Loader, Row, Text, add_rows, find, init_all_result}
use simplechatserver.UserTable.Loading.{init_all_result-gives_back}
use simplechatserver.UserTable.Rows.{Record, last_cols, init_all_result-last_cols}

abbrev two_open : SqlConnectionPool
two_open = record {
  conlist = record {
    list = some 10 ∷ some 11 ∷ [];
    isblock = true;
    m_sem = some 2;
    m_max_count = negsuc 0;
  };
  allocated = 10 ∷ 11 ∷ [];
  closed = [];
}

two_open-IsCoupled : IsCoupled two_open.conlist
two_open-IsCoupled = record { blocking = refl; counts = refl }

abbrev rows : List Row
rows =
    (some (65 ∷ []) ∷ some (1 ∷ []) ∷ none ∷ [])
    ∷ (some (66 ∷ []) ∷ some (2 ∷ []) ∷ some [] ∷ [])
    ∷ (some (65 ∷ []) ∷ some (3 ∷ []) ∷ some [] ∷ [])
    ∷ []

abbrev user : Text
user = 65 ∷ []

init_all_result-gives_back_example :
    (p' : SqlConnectionPool) × (init_all_result
        (record { query_ok = true; result = some rows })
        (record { pool = two_open; user = (user, []) ∷ [] })
      ≡ returns tt (record { pool = p'; user = add_rows rows [] }))
    × (p'.conlist.list ≡ some 11 ∷ some 10 ∷ [])
    × IsCoupled p'.conlist
init_all_result-gives_back_example =
    init_all_result-gives_back true (some rows) two_open ((user, []) ∷ []) 10 (some 11 ∷ [])
      two_open-IsCoupled refl

abbrev records : List Record
records =
    (some (65 ∷ []), some (1 ∷ []) ∷ none ∷ [])
    ∷ (some (66 ∷ []), some (2 ∷ []) ∷ some [] ∷ [])
    ∷ (some (65 ∷ []), some (3 ∷ []) ∷ some [] ∷ [])
    ∷ []

-- The last of the two rows of the user.
last_of_user : last_cols user records ≡ some ((3 ∷ []) ∷ [] ∷ [])
last_of_user = refl

init_all_result-last_cols_example :
    (l : Loader) × (init_all_result
        (record { query_ok = true; result = some rows })
        (record { pool = two_open; user = (user, []) ∷ [] })
      ≡ returns tt l)
    × (l.pool.conlist.list ≡ some 11 ∷ some 10 ∷ [])
    × ((uid : Text) → find uid l.user ≡ last_cols uid records)
init_all_result-last_cols_example =
    init_all_result-last_cols records two_open ((user, []) ∷ []) 10 (some 11 ∷ [])
      two_open-IsCoupled refl
