-- ===== src/SocketUse/Tests.antt =====
-- The theorems about learn/socket_use.cpp at small inputs.
use simplechatserver.Prelude.{
  ◌++◌, ◌≡◌, refl, true, false, List, [], ◌∷◌, ℤ, pos, negsuc, blocks, codes, arith,
}
use simplechatserver.SocketUse.{Text, bytes, ended, Event, Server, wait_loop}
use simplechatserver.SocketUse.Echo.{bytes_for, received_from, wait_loop-echo}

abbrev quiet : Server
quiet = record { epoll = []; sent = []; closed = [] }

-- A client comes, on the descriptor 5.
abbrev knock : Event
knock = record { fd = pos 3; userfd = pos 5; add_ok = true; received = ended }

abbrev says : Text → Event
says text = record { fd = pos 5; userfd = negsuc 0; add_ok = false; received = bytes text }

abbrev leaves : Event
leaves = record { fd = pos 5; userfd = negsuc 0; add_ok = false; received = ended }

abbrev visit : List (List Event)
visit = (knock ∷ []) ∷ (says (codes "ab") ∷ []) ∷ (says (codes "c") ∷ []) ∷ (leaves ∷ []) ∷ []

wait_loop-echo_example :
    (s' : Server) × (wait_loop (pos 3) visit quiet ≡ blocks s')
    × ((fd : ℤ) → bytes_for fd s'.sent ≡ bytes_for fd quiet.sent ++ received_from (pos 3) fd visit)
wait_loop-echo_example =
    wait_loop-echo (pos 3) visit quiet
      ((((refl, refl), tt), ((omega arith, tt), ((omega arith, tt), ((tt, tt), tt)))))
