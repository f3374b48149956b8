-- ===== src/SimpleChat/Turns/Exclusive.antt =====
-- In every interleaving of the event loop and the workers each connection has one turn at most.
use simplechatserver.Prelude.{ℕ, ◌≤◌}
use simplechatserver.SimpleChat.{SimpleChat}
use simplechatserver.SimpleChat.Turns.{Turns, bit}
use simplechatserver.SimpleChat.Turns.Counting.{turns_of}

-- An open connection has one turn at most, any other none.
abbrev pub HasOneTurn : Turns → Type 0
HasOneTurn t = (n : ℕ) → turns_of n t ≤ bit (t.is_open n)
