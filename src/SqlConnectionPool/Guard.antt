-- ===== src/SqlConnectionPool/Guard.antt =====
-- sql/sqlconnectionpool.cpp, `sqlRAII`: which connection a guard gives back.
use simplechatserver.Prelude.{
  suc, ◌≡◌, ◌≢◌, refl, sym, ap, ◌∙◌, inl, inr, false, none, some, List, [], ◌∷◌, ◌++◌, length,
  append-nil, append_assoc, arith, returns, replicate, length-replicate, length-append,
  append-injective,
}
use simplechatserver.SafeQueue.{SafeQueue, pop_b, push_b}
use simplechatserver.SafeQueue.Semaphore.{IsCoupled, pop_b-PopsOldest, push_b-IsCoupled}
use simplechatserver.SqlConnectionPool.{
  Mysql, SqlConnectionPool, Borrower, get_connection, release_connection, raii_open, raii_close,
  guarded, serve_all,
}

guarded_at :
    (p : SqlConnectionPool) (old con : Mysql) (q q' : SafeQueue Mysql)
    → pop_b false p.conlist ≡ returns con q
    → push_b old q ≡ returns tt q'
    → guarded (record { pool = p; sql = old })
      ≡ returns tt (record { pool = record p { conlist = q' }; sql = con })
unfolding guarded raii_open raii_close get_connection release_connection
guarded_at p old con q q' a b = rw (a, b)

-- A guarded scope over a pool with at least one entry, whose semaphore counts the entries, returns;
-- the borrowed connection stays in `*sql`, and what goes back to the end of the pool is the pointer
-- that `*sql` held before.
pub guarded-swaps :
    (p : SqlConnectionPool) (old con : Mysql) (rest : List Mysql)
    → IsCoupled p.conlist
    → p.conlist.list ≡ con ∷ rest
    → (p' : SqlConnectionPool) × (guarded (record { pool = p; sql = old })
        ≡ returns tt (record { pool = p'; sql = con }))
      × (p'.conlist.list ≡ rest ++ (old ∷ []))
      × IsCoupled p'.conlist
guarded-swaps p old con rest v e = elim (pop_b-PopsOldest p.conlist v) [
  | inl (e', _) ↦ absurd (omega (arith, ap length (sym e ∙ e')))
  | inr (y, q, e', ret, v') ↦
      let (q', pushed, stored, v'') = push_b-IsCoupled old q v' in
      let here : y ≡ con = cc in
      let back : q.list ≡ rest = cc in
      (
        record p { conlist = q' },
        guarded_at p old y q q' ret pushed
            ∙ ap (λ c. returns tt (record { pool = record p { conlist = q' }; sql = c })) here,
        stored ∙ ap (λ l. l ++ (old ∷ [])) back,
        v'',
      )
]

serve_all_step :
    (sql : Mysql) (sqls : List Mysql) (p : SqlConnectionPool) (b : Borrower) (sqls' : List Mysql)
    (p' : SqlConnectionPool)
    → guarded (record { pool = p; sql = sql }) ≡ returns tt b
    → serve_all sqls b.pool ≡ some (sqls', p')
    → serve_all (sql ∷ sqls) p ≡ some (b.sql ∷ sqls', p')
unfolding serve_all
serve_all_step sql sqls p b sqls' p' e f = rw (e, serve_all) (rw f)

-- One guarded scope for each of the pointers `sqls`, one after the other, over a pool that is not
-- empty and whose semaphore counts its entries: all return, and the pointers followed by the pool
-- are a rotation of what they were, so every connection that was borrowed is held by a pointer, not
-- by the pool.
pub serve_all-rotates :
    (sqls : List Mysql) (p : SqlConnectionPool)
    → IsCoupled p.conlist
    → p.conlist.list ≢ []
    → (sqls' : List Mysql) × (p' : SqlConnectionPool) × (serve_all sqls p ≡ some (sqls', p'))
      × (length sqls' ≡ length sqls)
      × (sqls' ++ p'.conlist.list ≡ p.conlist.list ++ sqls)
      × IsCoupled p'.conlist
unfolding serve_all
serve_all-rotates [] p v ne = ([], p, refl, refl, sym (append-nil p.conlist.list), v)
serve_all-rotates (sql ∷ sqls) p v ne = elim (pop_b-PopsOldest p.conlist v) [
  | inl (e', _) ↦ absurd (ne e')
  | inr (y, q, e', ret, v') ↦
      let (q', pushed, stored, v'') = push_b-IsCoupled sql q v' in
      let (sqls', p', run, len, rot, v3) =
        serve_all-rotates sqls (record p { conlist = q' }) v''
          (λ e. omega (arith, ap length (sym stored ∙ e), length-append q.list (sql ∷ []))) in
      (
        y ∷ sqls',
        p',
        serve_all_step sql sqls p _ sqls' p' (guarded_at p sql y q q' ret pushed) run,
        ap suc len,
        ap (◌∷◌ y) (rot ∙ ap (λ l. l ++ sqls) stored ∙ append_assoc q.list (sql ∷ []) sqls)
            ∙ ap (λ l. l ++ (sql ∷ sqls)) (sym e'),
        v3,
      )
]

-- One guarded scope for each of as many null pointers as the pool has entries, over a pool that
-- is not empty and whose semaphore counts its entries: all return, the pointers are then the
-- connections of the pool, and the pool has as many entries as before, all of them null.
pub serve_all-exhausts :
    (p : SqlConnectionPool)
    → IsCoupled p.conlist
    → p.conlist.list ≢ []
    → (p' : SqlConnectionPool) × (serve_all (replicate (length p.conlist.list) none) p
        ≡ some (p.conlist.list, p'))
      × (p'.conlist.list ≡ replicate (length p.conlist.list) none)
serve_all-exhausts p v ne =
    let fresh = replicate (length p.conlist.list) none in
    let (sqls, p', run, len, rot, _) = serve_all-rotates fresh p v ne in
    let same = len ∙ length-replicate (length p.conlist.list) none in
    let (borrowed, left) = append-injective sqls p.conlist.list p'.conlist.list fresh same rot in
    (p', run ∙ ap (λ l. some (l, p')) borrowed, left)
