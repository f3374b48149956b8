-- ===== src/SimpleChat/Listening.antt =====
-- simplechat.cpp, `eventListen`, the destructor and main.cpp: descriptors, and the start order.
use simplechatserver.Prelude.{
  zero, suc, ◌≡◌, refl, Bool, true, false, Option, none, some, List, [], ◌∷◌, ℤ, pos, negsuc,
  if◌then◌else◌, Outcome, returns, throws, blocks, undefined,
}
use simplechatserver.UserTable.{Loader}
use simplechatserver.SimpleChat.{
  SimpleChat, SocketApi, new_chat, event_listen, destroy_chat, is_minus_one,
}

-- The state that a call leaves behind.
abbrev pub state_of : Outcome SimpleChat (Unit {0}) → Option SimpleChat
state_of (returns _ c) = some c
state_of (throws _ c) = some c
state_of (blocks c) = some c
state_of undefined = none

-- The descriptors that the calls of `eventListen` open: the socket, and the epoll descriptor if
-- the calls before it succeed.
abbrev pub opened : SocketApi → List ℤ
opened s =
    if is_minus_one s.socket
    then []
    else if s.bind_ok
    then if s.listen_ok
      then if s.nonblock_ok
        then if is_minus_one s.epoll_create then s.socket ∷ [] else s.epoll_create ∷ s.socket ∷ []
        else s.socket ∷ []
      else s.socket ∷ []
    else s.socket ∷ []

-- `eventListen` on a new server, then the destructor, whatever its calls return.
abbrev pub listen_then_destroy : SocketApi → SimpleChat → Option (List ℤ)
listen_then_destroy s c = elim (state_of (event_listen s c)) [
  | none ↦ none
  | some c' ↦ elim (state_of (destroy_chat c')) [ none ↦ none | some c'' ↦ some c''.closed ]
]

-- The same run, by what the calls return.
closes_at :
    (sock ep : ℤ) (b l n a : Bool) (loader : Loader)
    → let s : SocketApi = record {
      socket = sock;
      bind_ok = b;
      listen_ok = l;
      nonblock_ok = n;
      epoll_create = ep;
      add_ok = a;
    } in
      listen_then_destroy s (new_chat loader) ≡ some (opened s)
unfolding event_listen destroy_chat new_chat
closes_at (negsuc zero) ep b l n a c = refl
closes_at (pos m) ep false l n a c = refl
closes_at (pos m) ep true false n a c = refl
closes_at (pos m) ep true true false a c = refl
closes_at (pos m) (negsuc zero) true true true a c = refl
closes_at (pos m) (pos k) true true true false c = refl
closes_at (pos m) (pos k) true true true true c = refl
closes_at (pos m) (negsuc (suc k)) true true true false c = refl
closes_at (pos m) (negsuc (suc k)) true true true true c = refl
closes_at (negsuc (suc m)) ep false l n a c = refl
closes_at (negsuc (suc m)) ep true false n a c = refl
closes_at (negsuc (suc m)) ep true true false a c = refl
closes_at (negsuc (suc m)) (negsuc zero) true true true a c = refl
closes_at (negsuc (suc m)) (pos k) true true true false c = refl
closes_at (negsuc (suc m)) (pos k) true true true true c = refl
closes_at (negsuc (suc m)) (negsuc (suc k)) true true true false c = refl
closes_at (negsuc (suc m)) (negsuc (suc k)) true true true true c = refl

-- `eventListen` on a new server and then the destructor close each descriptor that was opened
-- once, whichever of the calls fails.
pub listen_then_destroy_closes :
    (s : SocketApi) (loader : Loader) → listen_then_destroy s (new_chat loader) ≡ some (opened s)
listen_then_destroy_closes s loader =
    closes_at s.socket s.epoll_create s.bind_ok s.listen_ok s.nonblock_ok s.add_ok loader
