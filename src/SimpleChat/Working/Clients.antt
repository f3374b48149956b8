-- ===== src/SimpleChat/Working/Clients.antt =====
-- From the acceptance of the clients to the answers to all their requests.
use simplechatserver.Prelude.{
  ℕ, ◌<◌, ◌≡◌, refl, sym, ap, subst, ◌∙◌, true, Option, some, List, [], ◌∷◌, ◌++◌, map, length,
  ◌==◌, ==_iff, pos, int_eq, to_size, returns, zeros,
}
use simplechatserver.SqlConnectionPool.{SqlConnectionPool}
use simplechatserver.ThreadPool.{ThreadPool}
use simplechatserver.TcpConn.{TcpConn, Message, EpollCall, epollin, set_fd}
use simplechatserver.TcpConn.Exchange.{Lends}
use simplechatserver.SimpleChat.{Handler, SimpleChat, Event, handle_batch}
use simplechatserver.SimpleChat.Accepting.{
  AllSmall, set_fds, contains, added, watch, accept_loop_at, set_fds_at,
}
use simplechatserver.SimpleChat.Working.{Request, serve_batch, and_then_run, exchanges}
use simplechatserver.SimpleChat.Working.Exchange.{IsFresh, server}
use simplechatserver.SimpleChat.Working.Requests.{
  AllAsk, AllFresh, answers, armings, requests_answered,
}

-- An entry of `users` whose buffers are as the constructor or the last request left them.
pub record IsBlank (user : TcpConn) : Type 0 where
  pub blank : user ≡ record user { m_buf = zeros 1024; alllen = 0 }
  pub room : length user.m_writebuf ≡ 1024

-- The event of the listening socket for these clients.
abbrev pub knock : ℕ → List ℕ → Event
knock lfd ns = record { fd = lfd; mask = epollin ∷ []; accepts = map added ns }

-- Each request comes from one of the clients.
abbrev pub AllFrom : List ℕ → List (ℕ × Request) → Type 0
AllFrom ns [] = Unit
AllFrom ns ((n, r) ∷ more) = (contains n ns ≡ true) × AllFrom ns more

set_fds-IsFresh :
    (ns : List ℕ) (users : ℕ → TcpConn) (i : ℕ)
    → contains i ns ≡ true
    → IsBlank (users i)
    → IsFresh i (set_fds ns users i)
unfolding set_fd
set_fds-IsFresh ns users i member blank =
    let user : TcpConn = record (users i) { m_fd = pos i } in
    let there : set_fds ns users i ≡ user = set_fds_at ns users i ∙ rw member in
    subst (IsFresh i) (sym there)
      (record { blank = ap (set_fd (pos i)) blank.blank; room = blank.room; fd = refl })

AllFrom-AllFresh :
    (ns : List ℕ) (users : ℕ → TcpConn) (rs : List (ℕ × Request))
    → ((i : ℕ) → contains i ns ≡ true → IsFresh i (users i))
    → AllFrom ns rs
    → AllFresh users rs
AllFrom-AllFresh ns users [] fresh from = tt
AllFrom-AllFresh ns users ((n, r) ∷ more) fresh (member, from) =
    (fresh n member, AllFrom-AllFresh ns users more fresh from)

clients_accepted :
    (c : SimpleChat) (p : ThreadPool Handler ℕ) (lfd : ℕ) (ns : List ℕ) (sem : ℕ)
    (users : ℕ → TcpConn) (pool : SqlConnectionPool) (epoll : List EpollCall)
    (sent : List (ℕ × List ℕ))
    → c.m_lfd ≡ pos lfd
    → AllSmall ns
    → serve_batch (knock lfd ns ∷ []) (server c p [] sem users pool epoll sent)
      ≡ some (returns true (server c p [] sem (set_fds ns users) pool (epoll ++ map watch ns) sent))
unfolding serve_batch handle_batch
clients_accepted c p lfd ns sem users pool epoll sent e small =
    let same : (lfd == lfd) ≡ true = (==_iff lfd lfd).1 refl in
    let listens : int_eq (pos lfd) c.m_lfd ≡ true = ap (int_eq (pos lfd)) e ∙ same in
    rw (listens, accept_loop_at ns users epoll (server c p [] sem users pool epoll sent).chat small)

-- The server accepts the clients `ns`, whose entries of `users` are blank, and then serves requests
-- of theirs, in any order of the clients, one exchange after the other, with an idle thread pool and
-- a pool of database connections that lends one: every exchange ends, each client has been sent what
-- `write` takes of the answer to each of its requests, in the order of the requests, its entry is
-- blank again and has its descriptor, the thread pool is idle and the other pool lends again.
pub clients_answered :
    (decode : List ℕ → Option Message) (c : SimpleChat) (p : ThreadPool Handler ℕ) (lfd : ℕ)
    (ns : List ℕ) (rs : List (ℕ × Request)) (sem : ℕ) (users : ℕ → TcpConn)
    (pool : SqlConnectionPool) (epoll : List EpollCall) (sent : List (ℕ × List ℕ))
    → (qs : AllAsk decode c.m_lfd rs) → AllFrom ns rs
    → c.m_lfd ≡ pos lfd
    → AllSmall ns
    → ((i : ℕ) → contains i ns ≡ true → IsBlank (users i))
    → 0 < to_size p.maxrequest
    → Lends pool
    → (users' : ℕ → TcpConn) × (pool' : SqlConnectionPool) × (and_then_run
          (serve_batch (knock lfd ns ∷ []) (server c p [] sem users pool epoll sent))
          (exchanges decode rs)
        ≡ some (
            returns true (
              server c p [] sem users' pool'
                ((epoll ++ map watch ns) ++ armings rs)
                (sent ++ answers decode c.m_lfd rs qs))))
      × ((i : ℕ) → contains i ns ≡ true → IsFresh i (users' i))
      × Lends pool'
clients_answered decode c p lfd ns rs sem users pool epoll sent qs from e small blank room lends =
    let fresh : (i : ℕ) → contains i ns ≡ true → IsFresh i (set_fds ns users i) =
      λ i member. set_fds-IsFresh ns users i member (blank i member) in
    let (users', pool', served, keeps, lends') =
      requests_answered decode c p rs sem (set_fds ns users) pool (epoll ++ map watch ns) sent qs
        room (AllFrom-AllFresh ns (set_fds ns users) rs fresh from) lends in
    (
      users',
      pool',
      ap (λ o. and_then_run o (exchanges decode rs))
            (clients_accepted c p lfd ns sem users pool epoll sent e small)
          ∙ served,
      λ i member. keeps i (fresh i member),
      lends',
    )
