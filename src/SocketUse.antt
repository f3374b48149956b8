-- ===== src/SocketUse.antt =====
-- learn/socket_use.cpp: a single-threaded server on epoll that sends each client what it has
-- received from it. What the system calls return are arguments; console output is left out, but for
-- the string that it reads.
pub mod Echo
pub mod Exits
mod Tests
use simplechatserver.Prelude.{
  ℕ, Bool, true, false, Option, none, some, List, [], ◌∷◌, ◌++◌, if◌then◌else◌, ℤ, pos, negsuc,
  int_eq, Outcome, returns, blocks, undefined, Method, ◌>>=◌, pure, pad, c_string,
}
use simplechatserver.TcpConn.{epollin, EpollCall, adds, deletes}

abbrev pub Text : Type 0
Text = List ℕ

-- What `recv` gives: bytes, at least one and at most `sizeof(buf)` of them; the end of the
-- connection; or an error.
pub data Received : Type 0 where
  bytes : Text → Received
  ended failed : Received

-- A ready descriptor. If it is the listening socket, `accept` gives `userfd`, and `add_ok` tells
-- whether `EPOLL_CTL_ADD` succeeds for that; if not, `recv` gives `received`.
pub record Event : Type 0 where
  pub fd : ℤ
  pub userfd : ℤ
  pub add_ok : Bool
  pub received : Received

-- The calls of `epoll_ctl`, the texts given to `send`, and the descriptors given to `close`.
pub record Server : Type 0 where
  pub epoll : List EpollCall
  pub sent : List (ℤ × Text)
  pub closed : List ℤ

abbrev pub buf_size : ℕ
buf_size = 1024

abbrev pub add_fd : ℤ → Server → Server
add_fd fd s = record s { epoll = s.epoll ++ (adds fd (epollin ∷ []) ∷ []) }

-- The branch of the listening socket; `some` is the status of an `exit`.
unfoldable pub accept_user : ℤ → Bool → Method Server (Option ℕ)
accept_user userfd add_ok s =
    if add_ok
    then returns (if int_eq userfd (negsuc 0) then some 1 else none) (add_fd userfd s)
    else returns (some 0) (add_fd userfd s)

abbrev pub send_back : ℤ → Text → Option Text → Method Server (Option ℕ)
send_back fd bs none s = undefined
send_back fd bs (some text) s = returns none (record s { sent = s.sent ++ ((fd, bs) ∷ []) })

-- The other branch; `printf` reads the buffer as a string.
unfoldable pub answer : ℤ → Received → Method Server (Option ℕ)
answer fd (bytes bs) s = send_back fd bs (c_string (pad buf_size bs)) s
answer fd ended s =
    returns none (record s { epoll = s.epoll ++ (deletes fd ∷ []); closed = s.closed ++ (fd ∷ []) })
answer fd failed s = returns (some 0) s

-- The body of the inner loop.
unfoldable pub handle_event : ℤ → Event → Method Server (Option ℕ)
handle_event lfd ev =
    if int_eq ev.fd lfd then accept_user ev.userfd ev.add_ok else answer ev.fd ev.received

-- What follows is done unless `exit` has been called.
abbrev pub unless_exit : Method Server (Option ℕ) → Option ℕ → Method Server (Option ℕ)
unless_exit next none = next
unless_exit next (some status) = pure (some status)

-- `for (int i = 0; i < num; i++)`
unfoldable pub handle_batch : ℤ → List Event → Method Server (Option ℕ)
handle_batch lfd [] = pure none
handle_batch lfd (ev ∷ evs) = handle_event lfd ev >>= unless_exit (handle_batch lfd evs)

-- The rounds of `while (1)`, for the results of `epoll_wait` up to now; a failed one gives no event.
unfoldable pub wait_loop : ℤ → List (List Event) → Method Server (Option ℕ)
wait_loop lfd [] = blocks
wait_loop lfd (evs ∷ waits) = handle_batch lfd evs >>= unless_exit (wait_loop lfd waits)

-- What the calls before the loop return that the program looks at. It tests `socket` and `bind`
-- too, but only to build an exception that nothing throws.
pub record Setup : Type 0 where
  pub socket : ℤ
  pub add_ok : Bool

-- `main()`
unfoldable pub main : Setup → List (List Event) → Method Server (Option ℕ)
main setup waits s =
    let s' = add_fd setup.socket s in
    if setup.add_ok then wait_loop setup.socket waits s' else returns (some 0) s'
