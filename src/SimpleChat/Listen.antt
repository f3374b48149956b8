-- ===== src/SimpleChat/Listen.antt =====
-- simplechat.cpp: `eventListen`.
use simplechatserver.Prelude.{
  ℕ, Bool, Option, none, some, [], ◌∷◌, ◌++◌, if◌then◌else◌, ℤ, negsuc, returns, Exception, Method,
  ◌>>=◌, ◌>>◌, pure, throw, socket_init_defeat, bind_error, listen_error, set_nonblock_error,
  epoll_create_error, epoll_add_error,
}
use simplechatserver.TcpConn.{TcpConn, epollin, adds, new_conn}
use simplechatserver.SimpleChat.Server.{SimpleChat, close_fd, is_minus_one, set_epfd}

-- What the system calls of `eventListen` return. The results of `setsockopt` and of the first
-- `setNonBlock` are not read.
pub record SocketApi : Type 0 where
  pub socket : ℤ
  pub bind_ok : Bool
  pub listen_ok : Bool
  pub nonblock_ok : Bool
  pub epoll_create : ℤ
  pub add_ok : Bool

-- `if (call == -1) { close(fd); throw … }`
abbrev pub or_close : Bool → ℤ → Exception → Method SimpleChat (Unit {0})
or_close ok fd e = if ok then pure tt else (close_fd fd >>= λ _. throw e)

abbrev pub open_socket : ℤ → Method SimpleChat (Unit {0})
open_socket lfd = if is_minus_one lfd then throw socket_init_defeat else pure tt

abbrev pub set_lfd : ℤ → Method SimpleChat (Unit {0})
set_lfd lfd c = returns tt (record c { m_lfd = lfd })

abbrev pub close_lfd : Method SimpleChat (Unit {0})
close_lfd c = returns tt (record c { m_lfd = negsuc 0; closed = c.closed ++ (c.m_lfd ∷ []) })

-- `epoll_create` and `setepfd`.
abbrev pub open_epoll : ℤ → Method SimpleChat (Unit {0})
open_epoll epfd =
    if is_minus_one epfd
    then (close_lfd >>= λ _. throw epoll_create_error)
    else (λ c. returns tt (set_epfd epfd c))

-- `epoll_ctl(epfd, EPOLL_CTL_ADD, lfd, &ev)`
abbrev pub add_listener : ℤ → Method SimpleChat (Unit {0})
add_listener lfd c = returns tt (record c { epoll = c.epoll ++ (adds lfd (epollin ∷ []) ∷ []) })

abbrev pub or_new : Option (ℕ → TcpConn) → Option (ℕ → TcpConn)
or_new (some users) = some users
or_new none = some (λ _. new_conn)

abbrev pub finish_listen : ℤ → Method SimpleChat (Unit {0})
finish_listen epfd c =
    returns tt (record c { epoll_fd = epfd; ep_size = 1024; users = or_new c.users })

-- `eventListen()`
unfoldable pub event_listen : SocketApi → Method SimpleChat (Unit {0})
event_listen s =
    open_socket s.socket
    >> or_close s.bind_ok s.socket bind_error
    >> or_close s.listen_ok s.socket listen_error
    >> or_close s.nonblock_ok s.socket set_nonblock_error
    >> set_lfd s.socket
    >> open_epoll s.epoll_create
    >> add_listener s.socket
    >> or_close s.add_ok s.epoll_create epoll_add_error
    >> finish_listen s.epoll_create
