-- ===== src/SimpleChat/Accepting.antt =====
-- simplechat.cpp, the loop over `accept` in `eventLoop`: what a new connection starts with.
use simplechatserver.Prelude.{
  ℕ, ◌<◌, ◌≡◌, refl, sym, ap, ◌∙◌, inl, inr, Bool, Bool-cases, true, false, some, List, [], ◌∷◌,
  ◌++◌, map, append-nil, append_assoc, leb, ◌==◌, ==_iff, if◌then◌else◌, pos, returns, not-le→leb,
}
use simplechatserver.TcpConn.{TcpConn, EpollCall, adds, read_event, set_fd}
use simplechatserver.SimpleChat.{SimpleChat, accept_loop, accept_one, update_user, max_fd}

abbrev pub AllSmall : List ℕ → Type 0
AllSmall [] = Unit
AllSmall (n ∷ ns) = (n < max_fd) × AllSmall ns

-- The entries after `setFd` on each of the descriptors.
abbrev pub set_fds : List ℕ → (ℕ → TcpConn) → ℕ → TcpConn
set_fds [] users = users
set_fds (n ∷ ns) users = set_fds ns (update_user n (set_fd (pos n)) users)

abbrev pub contains : ℕ → List ℕ → Bool
contains i [] = false
contains i (n ∷ ns) = if i == n then true else contains i ns

abbrev pub added : ℕ → ℕ × Bool
added n = (n, true)

abbrev pub watch : ℕ → EpollCall
watch n = adds (pos n) read_event

accept_at :
    (n : ℕ) (users : ℕ → TcpConn) (calls : List EpollCall) (c : SimpleChat)
    → n < max_fd
    → accept_one n true (record c { users = some users; epoll = calls })
      ≡ returns tt (record c {
        users = some (update_user n (set_fd (pos n)) users);
        epoll = calls ++ (watch n ∷ []);
      })
unfolding accept_one
accept_at n users calls c h = let fits : leb max_fd n ≡ false = not-le→leb max_fd n h in rw fits

pub accept_loop_at :
    (fds : List ℕ) (users : ℕ → TcpConn) (calls : List EpollCall) (c : SimpleChat)
    → AllSmall fds
    → accept_loop (map added fds) (record c { users = some users; epoll = calls })
      ≡ returns tt (record c { users = some (set_fds fds users); epoll = calls ++ map watch fds })
unfolding accept_loop
accept_loop_at [] users calls c h =
    ap (λ l. returns tt (record c { users = some users; epoll = l })) (sym (append-nil calls))
accept_loop_at (n ∷ ns) users calls c h = rw (accept_at n users calls c h.0) (
    accept_loop_at ns (update_user n (set_fd (pos n)) users) (calls ++ (watch n ∷ [])) c h.1
    ∙ ap (λ l. returns tt (record c { users = some (set_fds (n ∷ ns) users); epoll = l }))
        (append_assoc calls (watch n ∷ []) (map watch ns)))

pub set_fds_at :
    (fds : List ℕ) (users : ℕ → TcpConn) (i : ℕ)
    → set_fds fds users i ≡ (if contains i fds then set_fd (pos i) (users i) else users i)
unfolding set_fd
set_fds_at [] users i = refl
set_fds_at (n ∷ ns) users i = elim (Bool-cases (i == n)) [
  | inl h ↦
      let same : i ≡ n = (==_iff i n).0 h in
      elim (Bool-cases (contains i ns)) [
        | inl g ↦ set_fds_at ns (update_user n (set_fd (pos n)) users) i ∙ rw (g, h)
        | inr g ↦
            set_fds_at ns (update_user n (set_fd (pos n)) users) i
            ∙ rw (g, h) (ap (λ k. set_fd (pos k) (users i)) (sym same))
      ]
  | inr h ↦ set_fds_at ns (update_user n (set_fd (pos n)) users) i ∙ rw h
]

-- Accepted descriptors below `MAX_FD` that `epoll` takes: each is watched, in order, and its entry
-- of `users` gets the descriptor; every entry keeps the buffers and the length that the previous
-- connection with that number left, and no other entry changes.
pub accept_loop-keeps :
    (fds : List ℕ) (users : ℕ → TcpConn) (c : SimpleChat)
    → AllSmall fds
    → (users' : ℕ → TcpConn) × (accept_loop (map added fds) (record c { users = some users })
        ≡ returns tt (record c { users = some users'; epoll = c.epoll ++ map watch fds }))
      × ((i : ℕ)
          → users' i ≡ (if contains i fds then record (users i) { m_fd = pos i } else users i))
unfolding set_fd
accept_loop-keeps fds users c h =
    (set_fds fds users, accept_loop_at fds users c.epoll c h, set_fds_at fds users)
