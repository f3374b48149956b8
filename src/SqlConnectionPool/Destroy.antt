-- ===== src/SqlConnectionPool/Destroy.antt =====
-- sql/sqlconnectionpool.cpp, `DestroyPool`: the loop ends, and closes each pooled pointer once.
use simplechatserver.Prelude.{
  ℕ, zero, suc, ◌<◌, ◌≡◌, refl, sym, ap, ◌∙◌, inl, inr, true, false, some, List, [], ◌∷◌, ◌++◌,
  length, append-nil, append_assoc, arith, returns,
}
use simplechatserver.SafeQueue.{SafeQueue, pop_b, empty, size, is_nil}
use simplechatserver.SafeQueue.Semaphore.{IsCoupled, pop_b-PopsOldest}
use simplechatserver.SqlConnectionPool.{
  Mysql, SqlConnectionPool, get_connection, destroy_loop, destroy_pool,
}

destroy_loop_step :
    (fuel : ℕ) (p : SqlConnectionPool) (x : Mysql) (q : SafeQueue Mysql)
    → empty p.conlist ≡ false
    → pop_b false p.conlist ≡ returns x q
    → destroy_loop (suc fuel) p
      ≡ destroy_loop fuel (record p { conlist = q; closed = p.closed ++ (x ∷ []) })
unfolding destroy_loop get_connection
destroy_loop_step fuel p x q e b = rw (e, destroy_loop) (rw b)

destroy_loop_end :
    (fuel : ℕ) (p : SqlConnectionPool)
    → empty p.conlist ≡ true
    → destroy_loop (suc fuel) p ≡ some (returns tt p)
unfolding destroy_loop
destroy_loop_end fuel p e = rw (e, destroy_loop)

-- What the loop leaves behind.
pub record Emptied (xs : List Mysql) (p p' : SqlConnectionPool) : Type 0 where
  pub drained : p'.conlist.list ≡ []
  pub coupled : IsCoupled p'.conlist
  pub closes : p'.closed ≡ p.closed ++ xs
  pub allocates : p'.allocated ≡ p.allocated

destroy_loop_total :
    (xs : List Mysql) (fuel : ℕ) (p : SqlConnectionPool)
    → p.conlist.list ≡ xs
    → IsCoupled p.conlist
    → length xs < fuel
    → (p' : SqlConnectionPool) × (destroy_loop fuel p ≡ some (returns tt p')) × Emptied xs p p'
unfolding empty
destroy_loop_total xs zero p e v h = absurd (omega arith)
destroy_loop_total [] (suc fuel) p e v h = (
  p,
  destroy_loop_end fuel p (ap is_nil e),
  record { drained = e; coupled = v; closes = sym (append-nil p.closed); allocates = refl },
)
destroy_loop_total (x ∷ xs) (suc fuel) p e v h = elim (pop_b-PopsOldest p.conlist v) [
  | inl (e', _) ↦ absurd (omega (arith, ap length (sym e ∙ e')))
  | inr (y, q, e', ret, v') ↦
      let here : x ≡ y = cc in
      let rest : q.list ≡ xs = cc in
      let (p', run, d) =
        destroy_loop_total xs fuel (record p { conlist = q; closed = p.closed ++ (y ∷ []) }) rest v'
          (omega arith) in
      (
        p',
        destroy_loop_step fuel p y q (ap is_nil e) ret ∙ run,
        record {
          drained = d.drained;
          coupled = d.coupled;
          closes =
              d.closes
              ∙ append_assoc p.closed (y ∷ []) xs
              ∙ ap (λ z. p.closed ++ (z ∷ xs)) (sym here);
          allocates = d.allocates;
        },
      )
]

-- `DestroyPool` on a pool whose semaphore counts its entries always returns, never waiting: it
-- has closed every pooled pointer once, in order, and the pool is empty.
pub destroy_pool_total :
    (p : SqlConnectionPool)
    → IsCoupled p.conlist
    → (p' : SqlConnectionPool) × (destroy_pool p ≡ some (returns tt p'))
      × (p'.conlist.list ≡ [])
      × (p'.closed ≡ p.closed ++ p.conlist.list)
unfolding destroy_pool size
destroy_pool_total p v =
    let (p', run, d) =
      destroy_loop_total p.conlist.list (suc (length p.conlist.list)) p refl v (omega arith) in
    (p', run, d.drained, d.closes)
