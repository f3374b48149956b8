-- ===== src/TcpConn/Arming.antt =====
-- request/tcp_conn.cpp: how often a task calls `epoll_ctl`.
use simplechatserver.Prelude.{
  ℕ, suc, ◌+◌, ◌≤◌, ◌≡◌, refl, subst, Bool, Option, some, List, [], ◌∷◌, length, total, arith, ℤ,
  pos, int_eq, if◌then◌else◌, Outcome, returns, throws, blocks, undefined,
}
use simplechatserver.TcpConn.{
  World, ReadResult, Message, Trigger, read_body, read_once, send_data, EpollCall, adds, modifies,
  deletes, Flag,
}
use simplechatserver.TcpConn.Calls.{
  OneMore, OneMoreAt, read_body-OneMore, read_once-OneMore, send_data-OneMore,
}

-- However the call ends, there are at most `n` calls of `epoll_ctl` then.
abbrev pub AtMost {ℓ} : {A : Type ℓ} → ℕ → Outcome World A → Type 0
AtMost n (returns a w) = length w.epoll ≤ n
AtMost n (throws e w) = length w.epoll ≤ n
AtMost n (blocks w) = length w.epoll ≤ n
AtMost n undefined = Unit

-- Each call counts as one.
abbrev each : EpollCall → ℕ
each c = 1

abbrev one : ℤ → ℕ
one fd = 1

each_arming : (fd : ℤ) (flags : List Flag) → each (modifies fd flags) ≤ one fd
each_arming fd flags = omega arith

each_deleting : (fd : ℤ) → each (deletes fd) ≤ one fd
each_deleting fd = omega arith

total-each : (calls : List EpollCall) → total each calls ≡ length calls
total-each [] = refl
total-each (c ∷ calls) = omega (arith, total-each calls)

counted :
    (w : World) (o : Outcome World Bool)
    → OneMore each one each_arming each_deleting w o
    → AtMost (suc (length w.epoll)) o
counted w (returns a w') h = omega (arith, h, total-each w.epoll, total-each w'.epoll)
counted w (throws e w') h = omega (arith, h, total-each w.epoll, total-each w'.epoll)
counted w (blocks w') h = omega (arith, h, total-each w.epoll, total-each w'.epoll)
counted w undefined h = tt

module _ (decode : List ℕ → Option Message) where
  -- Whatever `read` and `write` give, and in both trigger modes: a task, `read_once` behind its guard
  -- or `sendData`, calls `epoll_ctl` at most once, also where it throws.
  pub tasks_call_once :
      (cstate : Trigger) (read : ℕ → ℕ → ReadResult) (wrote : Option ℕ) (w : World)
      → ((o : Outcome World Bool)
          → read_body decode cstate 0 read w ≡ some o
          → AtMost (suc (length w.epoll)) o)
        × AtMost (suc (length w.epoll)) (send_data wrote w)
  tasks_call_once cstate read wrote w = (
    λ o e. counted w o (
        subst (OneMoreAt each one each_arming each_deleting w) e
          (read_body-OneMore each one each_arming each_deleting decode cstate read w)),
    counted w _ (send_data-OneMore each one each_arming each_deleting decode wrote w),
  )

-- What a call adds to the arming of the descriptor `n`.
abbrev pub armed_by : ℕ → ℤ → ℕ
armed_by n fd = if int_eq fd (pos n) then 1 else 0

-- A call that arms the descriptor `n` counts as one, any other as none.
abbrev pub arms : ℕ → EpollCall → ℕ
arms n (adds fd flags) = armed_by n fd
arms n (modifies fd flags) = armed_by n fd
arms n (deletes fd) = 0

-- However the call ends, the calls made up to then arm the descriptor `n` at most `k` times.
abbrev pub ArmsAtMost : ℕ → ℕ → Outcome World Bool → Type 0
ArmsAtMost n k (returns a w) = total (arms n) w.epoll ≤ k
ArmsAtMost n k (throws e w) = total (arms n) w.epoll ≤ k
ArmsAtMost n k (blocks w) = total (arms n) w.epoll ≤ k
ArmsAtMost n k undefined = Unit

module _ (decode : List ℕ → Option Message) (n : ℕ) where
  arms_arming : (fd : ℤ) (flags : List Flag) → arms n (modifies fd flags) ≤ armed_by n fd
  arms_arming fd flags = omega arith

  arms_deleting : (fd : ℤ) → arms n (deletes fd) ≤ armed_by n fd
  arms_deleting fd = omega arith

  as_arms :
      (w : World) (o : Outcome World Bool)
      → OneMore (arms n) (armed_by n) arms_arming arms_deleting w o
      → ArmsAtMost n (total (arms n) w.epoll + armed_by n w.conn.m_fd) o
  as_arms w (returns a w') h = h
  as_arms w (throws e w') h = h
  as_arms w (blocks w') h = h
  as_arms w undefined h = tt

  -- A task arms its own descriptor at most once, and no other.
  pub read_once-arms :
      (cstate : Trigger) (read : ℕ → ℕ → ReadResult) (w : World) (o : Outcome World Bool)
      → read_once decode cstate read w ≡ some o
      → ArmsAtMost n (total (arms n) w.epoll + armed_by n w.conn.m_fd) o
  read_once-arms cstate read w o e = as_arms w o (
      subst (OneMoreAt (arms n) (armed_by n) arms_arming arms_deleting w) e
        (read_once-OneMore (arms n) (armed_by n) arms_arming arms_deleting decode cstate read w))

  pub send_data-arms :
      (wrote : Option ℕ) (w : World)
      → ArmsAtMost n (total (arms n) w.epoll + armed_by n w.conn.m_fd) (send_data wrote w)
  send_data-arms wrote w =
      as_arms w _ (send_data-OneMore (arms n) (armed_by n) arms_arming arms_deleting decode wrote w)
