-- ===== src/SimpleChat/Working/Requests.antt =====
-- Any number of requests of any number of clients.
use simplechatserver.Prelude.{
  ℕ, ◌<◌, ◌≡◌, sym, ap, subst, ◌∙◌, inl, inr, Bool-cases, true, false, Option, some, List, [], ◌∷◌,
  ◌++◌, append-nil, append_assoc, take, ◌==◌, ==_iff, ℤ, to_size, returns,
}
use simplechatserver.SqlConnectionPool.{SqlConnectionPool}
use simplechatserver.ThreadPool.{ThreadPool}
use simplechatserver.TcpConn.{TcpConn, Message, EpollCall}
use simplechatserver.TcpConn.Exchange.{Lends}
use simplechatserver.SimpleChat.{Handler, SimpleChat}
use simplechatserver.SimpleChat.Working.{Request, and_then_run, exchanges}
use simplechatserver.SimpleChat.Working.Exchange.{
  IsFresh, Asks, server, armed_twice, request_answered,
}

abbrev pub AllAsk : (List ℕ → Option Message) → ℤ → List (ℕ × Request) → Type 0
AllAsk decode m_lfd [] = Unit
AllAsk decode m_lfd ((n, r) ∷ more) = Asks decode m_lfd n r × AllAsk decode m_lfd more

abbrev pub AllFresh : (ℕ → TcpConn) → List (ℕ × Request) → Type 0
AllFresh users [] = Unit
AllFresh users ((n, r) ∷ more) = IsFresh n (users n) × AllFresh users more

-- What `write` takes of the answers, in the order of the requests.
abbrev pub answers :
    (decode : List ℕ → Option Message) (m_lfd : ℤ) (rs : List (ℕ × Request))
    → AllAsk decode m_lfd rs
    → List (ℕ × List ℕ)
answers decode m_lfd [] qs = []
answers decode m_lfd ((n, r) ∷ more) (q, qs) =
    (n, take r.taken q.text) ∷ answers decode m_lfd more qs

-- Each request arms its descriptor for writing, and then for reading.
abbrev pub armings : List (ℕ × Request) → List EpollCall
armings [] = []
armings ((n, r) ∷ more) = armed_twice n ++ armings more

-- Every fresh connection of the one is fresh in the other.
abbrev pub KeepsFresh : (ℕ → TcpConn) → (ℕ → TcpConn) → Type 0
KeepsFresh users users' = (i : ℕ) → IsFresh i (users i) → IsFresh i (users' i)

update-KeepsFresh :
    (users users' : ℕ → TcpConn) (n : ℕ)
    → IsFresh n (users' n)
    → ((i : ℕ) → (i == n) ≡ false → users' i ≡ users i)
    → KeepsFresh users users'
update-KeepsFresh users users' n new same i fresh = elim (Bool-cases (i == n)) [
  | inl e ↦ subst (λ j. IsFresh j (users' j)) (sym ((==_iff i n).0 e)) new
  | inr apart ↦ subst (IsFresh i) (sym (same i apart)) fresh
]

AllFresh-KeepsFresh :
    (users users' : ℕ → TcpConn) (rs : List (ℕ × Request))
    → KeepsFresh users users'
    → AllFresh users rs
    → AllFresh users' rs
AllFresh-KeepsFresh users users' [] keeps all = tt
AllFresh-KeepsFresh users users' ((n, r) ∷ more) keeps (fresh, all) =
    (keeps n fresh, AllFresh-KeepsFresh users users' more keeps all)

-- Requests of any number of clients, one exchange after the other, on a server with an idle thread
-- pool and a pool of database connections that lends one, each request on a connection that is fresh
-- at the beginning: every exchange ends, each client has been sent what `write` takes of the answer
-- to each of its requests, in the order of the requests, every connection that was fresh is fresh,
-- the thread pool is idle and the other pool lends again.
pub requests_answered :
    (decode : List ℕ → Option Message) (c : SimpleChat) (p : ThreadPool Handler ℕ)
    (rs : List (ℕ × Request)) (sem : ℕ) (users : ℕ → TcpConn) (pool : SqlConnectionPool)
    (epoll : List EpollCall) (sent : List (ℕ × List ℕ))
    → (qs : AllAsk decode c.m_lfd rs) → 0 < to_size p.maxrequest
    → AllFresh users rs
    → Lends pool
    → (users' : ℕ → TcpConn) × (pool' : SqlConnectionPool) × (exchanges decode rs
          (server c p [] sem users pool epoll sent)
        ≡ some (
            returns true (
              server c p [] sem users' pool'
                (epoll ++ armings rs)
                (sent ++ answers decode c.m_lfd rs qs))))
      × ((i : ℕ) → IsFresh i (users i) → IsFresh i (users' i))
      × Lends pool'
unfolding exchanges
requests_answered decode c p [] sem users pool epoll sent qs room fresh lends = (
  users,
  pool,
  ap (λ l. some (returns true (server c p [] sem users pool l sent))) (sym (append-nil epoll))
      ∙ ap (λ l. some (returns true (server c p [] sem users pool (epoll ++ []) l)))
          (sym (append-nil sent)),
  λ i known. known,
  lends,
)
requests_answered decode c p ((n, r) ∷ more) sem users pool epoll sent (q, qs) room (fresh, all)
      lends =
    let answer = (n, take r.taken q.text) ∷ [] in
    let (users₁, pool₁, first, new, same, lends₁) =
      request_answered c p decode n r sem users pool epoll sent q room fresh lends in
    let keeps = update-KeepsFresh users users₁ n new same in
    let all₁ = AllFresh-KeepsFresh users users₁ more keeps all in
    let (users₂, pool₂, rest, keeps₂, lends₂) =
      requests_answered decode c p more sem users₁ pool₁ (epoll ++ armed_twice n) (sent ++ answer)
        qs room all₁ lends₁ in
    (
      users₂,
      pool₂,
      ap (λ o. and_then_run o (exchanges decode more)) first
          ∙ rest
          ∙ ap
              (λ l. some (
                returns true (
                  server c p [] sem users₂ pool₂ l
                    ((sent ++ answer) ++ answers decode c.m_lfd more qs))))
              (append_assoc epoll (armed_twice n) (armings more))
          ∙ ap
              (λ l. some (
                returns true
                  (server c p [] sem users₂ pool₂ (epoll ++ (armed_twice n ++ armings more)) l)))
              (append_assoc sent answer (answers decode c.m_lfd more qs)),
      λ i known. keeps₂ i (keeps i known),
      lends₂,
    )
