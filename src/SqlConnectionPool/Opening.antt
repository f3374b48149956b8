-- ===== src/SqlConnectionPool/Opening.antt =====
-- sql/sqlconnectionpool.cpp, `SqlConnectionPool::init`: what the pool holds when it returns and
-- when it throws.
use mathlib.Core.Path.{ap₂}
use simplechatserver.Prelude.{
  ℕ, zero, suc, ◌+◌, ◌-◌, ◌<◌, ◌≡◌, refl, sym, ap, ◌∙◌, true, none, some, List, [], ◌∷◌, ◌++◌, map,
  length, append-nil, append_assoc, arith, pos, returns, throws, mysql_connect_failed,
}
use simplechatserver.SafeQueue.{SafeQueue, create, setblock, push_b}
use simplechatserver.SafeQueue.Semaphore.{IsCoupled, push_b-IsCoupled}
use simplechatserver.SqlConnectionPool.{
  Mysql, MysqlApi, SqlConnectionPool, fresh_pool, init_loop, init,
}

-- From its i-th call on, the library allocates and connects these handles, one call each.
abbrev pub Connects : MysqlApi → ℕ → List ℕ → Type 0
Connects api i [] = Unit
Connects api i (h ∷ hs) =
    (api.mysql_init i ≡ some h) × (api.mysql_real_connect h ≡ some h) × Connects api (i + 1) hs

-- A pool after `init` has added the handles `hs` to it.
pub record Grown (hs : List ℕ) (p p' : SqlConnectionPool) : Type 0 where
  pub holds : p'.conlist.list ≡ p.conlist.list ++ map some hs
  pub coupled : IsCoupled p'.conlist
  pub counted : p'.allocated ≡ p.allocated ++ hs
  pub none_closed : p'.closed ≡ p.closed

init_loop_step :
    (api : MysqlApi) (h i r : ℕ) (p : SqlConnectionPool) (q : SafeQueue Mysql)
    → api.mysql_init i ≡ some h
    → api.mysql_real_connect h ≡ some h
    → push_b (some h) p.conlist ≡ returns tt q
    → init_loop api (suc r) i p
      ≡ init_loop api r (i + 1) (record p { conlist = q; allocated = p.allocated ++ (h ∷ []) })
unfolding init_loop
init_loop_step api h i r p q e c b = rw (e, c, b)

init_loop_fails :
    (api : MysqlApi) (h i r : ℕ) (p : SqlConnectionPool)
    → 0 < r
    → api.mysql_init i ≡ some h
    → api.mysql_real_connect h ≡ none
    → init_loop api r i p
      ≡ throws mysql_connect_failed (record p { allocated = p.allocated ++ (h ∷ []) })
unfolding init_loop
init_loop_fails api h i zero p few e c = absurd (omega arith)
init_loop_fails api h i (suc r) p few e c = rw (e, c)

Grown-cons :
    (h : ℕ) (hs : List ℕ) (p p' : SqlConnectionPool) (q : SafeQueue Mysql)
    → q.list ≡ p.conlist.list ++ (some h ∷ [])
    → Grown hs (record p { conlist = q; allocated = p.allocated ++ (h ∷ []) }) p'
    → Grown (h ∷ hs) p p'
Grown-cons h hs p p' q e g = record {
  holds =
      g.holds
      ∙ ap (λ l. l ++ map some hs) e
      ∙ append_assoc p.conlist.list (some h ∷ []) (map some hs);
  coupled = g.coupled;
  counted = g.counted ∙ append_assoc p.allocated (h ∷ []) hs;
  none_closed = g.none_closed;
}

-- The rounds in which the library connects grow the pool, and the loop goes on from there.
init_loop-Connects :
    (api : MysqlApi) (hs : List ℕ) (i j m rounds : ℕ) (p : SqlConnectionPool)
    → rounds ≡ length hs + m
    → j ≡ i + length hs
    → IsCoupled p.conlist
    → Connects api i hs
    → (p' : SqlConnectionPool) × (init_loop api rounds i p ≡ init_loop api m j p') × Grown hs p p'
init_loop-Connects api [] i j m rounds p e f v c = (
  p,
  ap₂ (λ r k. init_loop api r k p) (omega arith) (omega arith),
  record {
    holds = sym (append-nil p.conlist.list);
    coupled = v;
    counted = sym (append-nil p.allocated);
    none_closed = refl;
  },
)
init_loop-Connects api (h ∷ hs) i j m zero p e f v c = absurd (omega arith)
init_loop-Connects api (h ∷ hs) i j m (suc r) p e f v c =
    let (q, pushed, stored, v') = push_b-IsCoupled (some h) p.conlist v in
    let (p', run, g) =
      init_loop-Connects api hs (i + 1) j m r
        (record p { conlist = q; allocated = p.allocated ++ (h ∷ []) }) (omega arith) (omega arith)
        v' c.2 in
    (p', init_loop_step api h i r p q c.0 c.1 pushed ∙ run, Grown-cons h hs p p' q stored g)

abbrev blocking_pool : SqlConnectionPool
unfolding fresh_pool create
blocking_pool = record fresh_pool { conlist = record create { m_sem = some 0; isblock = true } }

-- `init` on a new pool, where the library allocates and connects `con_num` handles: it returns with
-- exactly these in the pool, in order, and with a semaphore that counts them.
pub init-Connects :
    (api : MysqlApi) (hs : List ℕ)
    → Connects api 0 hs
    → (p : SqlConnectionPool) × (init true api (pos (length hs)) fresh_pool ≡ returns tt p)
      × (p.conlist.list ≡ map some hs)
      × IsCoupled p.conlist
      × (p.allocated ≡ hs)
      × (p.closed ≡ [])
unfolding init fresh_pool create setblock init_loop
init-Connects api hs c =
    let (p, run, g) =
      init_loop-Connects api hs 0 (length hs) 0 (length hs) blocking_pool (omega arith)
        (omega arith) (record { blocking = refl; counts = refl }) c in
    (p, run, g.holds, g.coupled, g.counted, g.none_closed)

-- `init` on a new pool, where the library connects the handles `hs`, allocates one more and cannot
-- connect it: it throws, with `hs` left in the pool and usable; the last handle is neither in the
-- pool nor closed.
pub init-leaks :
    (api : MysqlApi) (hs : List ℕ) (h con_num : ℕ)
    → Connects api 0 hs
    → length hs < con_num
    → api.mysql_init (length hs) ≡ some h
    → api.mysql_real_connect h ≡ none
    → (p : SqlConnectionPool) × (init true api (pos con_num) fresh_pool
        ≡ throws mysql_connect_failed p)
      × (p.conlist.list ≡ map some hs)
      × IsCoupled p.conlist
      × (p.allocated ≡ hs ++ (h ∷ []))
      × (p.closed ≡ [])
unfolding init fresh_pool create setblock init_loop
init-leaks api hs h con_num c few e f =
    let (p, run, g) =
      init_loop-Connects api hs 0 (length hs) (con_num - length hs) con_num blocking_pool
        (omega arith) (omega arith) (record { blocking = refl; counts = refl }) c in
    (
      record p { allocated = p.allocated ++ (h ∷ []) },
      run ∙ init_loop_fails api h (length hs) (con_num - length hs) p (omega arith) e f,
      g.holds,
      g.coupled,
      ap (λ l. l ++ (h ∷ [])) g.counted,
      g.none_closed,
    )
