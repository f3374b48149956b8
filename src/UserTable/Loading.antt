-- ===== src/UserTable/Loading.antt =====
-- request/tcp_conn.cpp, `initAllResult`: the connection on every path, and what the table holds.
use simplechatserver.Prelude.{
  ℕ, ◌≡◌, sym, ap, ◌∙◌, inl, inr, Bool, true, false, Option, none, some, List, [], ◌∷◌, ◌++◌,
  length, arith, Outcome, returns, throws, query_failed, store_failed,
}
use simplechatserver.SafeQueue.{SafeQueue, pop_b, push_b}
use simplechatserver.SafeQueue.Semaphore.{IsCoupled, pop_b-PopsOldest, push_b-IsCoupled}
use simplechatserver.SqlConnectionPool.{
  Mysql, SqlConnectionPool, get_connection, release_connection,
}
use simplechatserver.UserTable.{Row, Table, Loader, init_all_result, add_rows}

-- How the call ends once the connection is back in the pool.
abbrev pub ending : Bool → Option (List Row) → SqlConnectionPool → Outcome Loader (Unit {0})
ending false r p = throws query_failed (record { pool = p; user = [] })
ending true none p = throws store_failed (record { pool = p; user = [] })
ending true (some rows) p = returns tt (record { pool = p; user = add_rows rows [] })

run_at :
    (ok : Bool) (r : Option (List Row)) (p : SqlConnectionPool) (t : Table) (h : ℕ)
    (q q' : SafeQueue Mysql)
    → pop_b false p.conlist ≡ returns (some h) q
    → push_b (some h) q ≡ returns tt q'
    → init_all_result (record { query_ok = ok; result = r }) (record { pool = p; user = t })
      ≡ ending ok r (record p { conlist = q' })
unfolding init_all_result get_connection release_connection
run_at false r p t h q q' a b = rw (a, b)
run_at true none p t h q q' a b = rw (a, b)
run_at true (some rows) p t h q q' a b = rw (a, b)

-- With a connection in front of a pool whose semaphore counts its entries, `initAllResult` ends, by
-- whether the query succeeds and has a result: with an exception and an empty table, or with the
-- table of the rows, whatever the table was; on every path the connection has gone back, to the end
-- of the pool.
pub init_all_result-gives_back :
    (ok : Bool) (r : Option (List Row)) (p : SqlConnectionPool) (t : Table) (h : ℕ)
    (rest : List Mysql)
    → IsCoupled p.conlist
    → p.conlist.list ≡ some h ∷ rest
    → (p' : SqlConnectionPool) × (init_all_result
          (record { query_ok = ok; result = r })
          (record { pool = p; user = t })
        ≡ ending ok r p')
      × (p'.conlist.list ≡ rest ++ (some h ∷ []))
      × IsCoupled p'.conlist
init_all_result-gives_back ok r p t h rest v e = elim (pop_b-PopsOldest p.conlist v) [
  | inl (e', _) ↦ absurd (omega (arith, ap length (sym e ∙ e')))
  | inr (y, q, e', ret, v') ↦
      let here : y ≡ some h = cc in
      let back : q.list ≡ rest = cc in
      let (q', pushed, stored, v'') = push_b-IsCoupled (some h) q v' in
      (
        record p { conlist = q' },
        run_at ok r p t h q q' (ret ∙ ap (λ c. returns c q) here) pushed,
        stored ∙ ap (λ l. l ++ (some h ∷ [])) back,
        v'',
      )
]
