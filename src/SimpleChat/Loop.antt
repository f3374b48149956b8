-- ===== src/SimpleChat/Loop.antt =====
-- simplechat.cpp: `eventLoop`, `handleRead` and `handleWrite`.
use simplechatserver.Prelude.{
  ℕ, Bool, true, false, ◌||◌, none, some, List, [], ◌∷◌, ◌++◌, ◌==◌, leb, if◌then◌else◌, ℤ, pos,
  int_eq, returns, throws, blocks, undefined, Method, ◌>>◌, pure, loop_before_listen,
  epoll_wait_error,
}
use simplechatserver.ThreadPool.{append}
use simplechatserver.TcpConn.{
  TcpConn, Flag, epollin, epollout, epollrdhup, epollerr, epollhup, adds, deletes, read_event,
  set_fd, clean_all_data,
}
use simplechatserver.SimpleChat.Server.{max_fd, SimpleChat, close_fd, is_minus_one}

abbrev pub update_user : ℕ → (TcpConn → TcpConn) → (ℕ → TcpConn) → ℕ → TcpConn
update_user n f users i = if i == n then f (users i) else users i

-- `users[n].…`: a method of the entry `n`.
abbrev pub on_user : ℕ → (TcpConn → TcpConn) → Method SimpleChat (Unit {0})
on_user n f c = elim c.users [
  | none ↦ undefined
  | some users ↦ returns tt (record c { users = some (update_user n f users) })
]

abbrev pub add_user : ℕ → Method SimpleChat (Unit {0})
add_user n c = returns tt (record c { epoll = c.epoll ++ (adds (pos n) read_event ∷ []) })

-- One accepted descriptor; the Boolean tells whether `EPOLL_CTL_ADD` succeeds for it.
unfoldable pub accept_one : ℕ → Bool → Method SimpleChat (Unit {0})
accept_one n add_ok =
    if leb max_fd n
    then close_fd (pos n)
    else (on_user n (set_fd (pos n))
        >> add_user n
        >> (if add_ok then pure tt else (on_user n clean_all_data >> close_fd (pos n))))

-- The loop over `accept`: the descriptors that it gives before it fails.
unfoldable pub accept_loop : List (ℕ × Bool) → Method SimpleChat (Unit {0})
accept_loop [] = pure tt
accept_loop ((n, add_ok) ∷ more) = accept_one n add_ok >> accept_loop more

-- `m_pool->append(&users[sockfd], state)` behind the test of the two handlers; what `append`
-- returns is not read.
abbrev pub hand_over : ℕ → ℤ → SimpleChat → SimpleChat
hand_over n state c = if leb max_fd n then c else elim c.m_pool [
  | none ↦ c
  | some p ↦ record c { m_pool = some (append (some n) state p).1 }
]

-- `handleRead(sockfd)`
unfoldable pub handle_read : ℕ → SimpleChat → SimpleChat
handle_read n = hand_over n (pos 0)

-- `handleWrite(sockfd)`
unfoldable pub handle_write : ℕ → SimpleChat → SimpleChat
handle_write n = hand_over n (pos 1)

-- An `epoll_event`; for the listening socket, with what `accept` then gives.
pub record Event : Type 0 where
  pub fd : ℕ
  pub mask : List Flag
  pub accepts : List (ℕ × Bool)

abbrev pub same_flag : Flag → Flag → Bool
same_flag epollin epollin = true
same_flag epollout epollout = true
same_flag epollrdhup epollrdhup = true
same_flag epollerr epollerr = true
same_flag epollhup epollhup = true
same_flag _ _ = false

-- `event_mask & flag`
abbrev pub has_flag : Flag → List Flag → Bool
has_flag f [] = false
has_flag f (g ∷ mask) = same_flag f g || has_flag f mask

-- `event_mask & (EPOLLERR | EPOLLRDHUP | EPOLLHUP)`
abbrev pub hung_up : List Flag → Bool
hung_up mask = has_flag epollerr mask || has_flag epollrdhup mask || has_flag epollhup mask

abbrev pub drop_fd : ℕ → SimpleChat → SimpleChat
drop_fd n c = record c {
  epoll = c.epoll ++ (deletes (pos n) ∷ []);
  closed = c.closed ++ (pos n ∷ []);
}

abbrev pub serve_event : Event → SimpleChat → SimpleChat
serve_event ev c =
    if has_flag epollin ev.mask
    then handle_read ev.fd c
    else if has_flag epollout ev.mask
    then handle_write ev.fd c
    else c

-- `for (int i = 0; i < num; ++i)`: the `break` after a hang-up leaves the loop.
unfoldable pub handle_batch : List Event → Method SimpleChat (Unit {0})
handle_batch [] c = returns tt c
handle_batch (ev ∷ evs) c =
    let rest = handle_batch evs in
    if int_eq (pos ev.fd) c.m_lfd
    then (accept_loop ev.accepts >> rest) c
    else if hung_up ev.mask
    then returns tt (drop_fd ev.fd c)
    else rest (serve_event ev c)

-- What `epoll_wait` gives: events, EINTR, or another error.
pub data Wait : Type 0 where
  events : List Event → Wait
  interrupted failed : Wait

-- The rounds of `while (true)`, for the results of `epoll_wait` up to now.
unfoldable pub wait_loop : List Wait → Method SimpleChat (Unit {0})
wait_loop [] c = blocks c
wait_loop (events evs ∷ waits) c = (handle_batch evs >> wait_loop waits) c
wait_loop (interrupted ∷ waits) c = wait_loop waits c
wait_loop (failed ∷ waits) c = throws epoll_wait_error c

-- `eventLoop()`
unfoldable pub event_loop : List Wait → Method SimpleChat (Unit {0})
event_loop waits c =
    if is_minus_one c.epoll_fd || is_minus_one c.m_lfd
    then throws loop_before_listen c
    else wait_loop waits c
