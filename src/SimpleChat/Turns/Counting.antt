-- ===== src/SimpleChat/Turns/Counting.antt =====
-- What each step does to the number of places in which a connection's turn stands.
use mathlib.Core.Option.{some-injective}
use simplechatserver.Prelude.{
  ℕ, ◌+◌, ◌-◌, ◌≤◌, ◌≡◌, refl, ap, ◌∙◌, subst, ◌++◌, Outcome, throws, blocks, undefined, inl, inr,
  Bool, Bool-cases, Option-cases, Option, none, some, List, [], ◌∷◌, total, total-append, ◌==◌,
  if◌then◌else◌, leb, arith, ℤ, pos, int_eq, returns,
}
use simplechatserver.ThreadPool.{ThreadPool, Task, append, take_task}
use simplechatserver.TcpConn.{
  epollin, epollout, EpollCall, adds, modifies, deletes, World, Message, Trigger,
}
use simplechatserver.TcpConn.Arming.{ArmsAtMost, arms, armed_by, read_once-arms, send_data-arms}
use simplechatserver.SimpleChat.{
  Handler, reads, sends, SimpleChat, Event, serve_event, hand_over, handle_read, handle_write,
  accept_one, has_flag, max_fd,
}
use simplechatserver.SimpleChat.Turns.{
  Hand, idle, before, after, Turns, bit, reports, armed_after, hand_after, world_after,
}
use simplechatserver.SimpleChat.Working.{Kernel, run_handler}

abbrev pub task_for : ℕ → Task ℕ → ℕ
task_for n (state, none) = 0
task_for n (state, some m) = bit (m == n)

abbrev pub tasks_in : ℕ → Option (ThreadPool Handler ℕ) → ℕ
tasks_in n none = 0
tasks_in n (some p) = total (task_for n) p.task_queue.list

-- The tasks of the connection `n` that the pool has queued.
abbrev pub queued : ℕ → SimpleChat → ℕ
queued n c = tasks_in n c.m_pool

-- How often the calls of `epoll_ctl` arm the connection `n`.
abbrev pub arming : ℕ → List EpollCall → ℕ
arming n made = total (arms n) made

-- A worker before its call has the turn of its connection, and any worker the turns that its calls
-- will give away.
abbrev pub hand_for : ℕ → Hand → ℕ
hand_for n idle = 0
hand_for n (before m made) = bit (m == n) + (arming n made - bit (m == n))
hand_for n (after m made) = arming n made

-- The places in which the turn of the connection `n` stands: epoll, the batch, the queue of the
-- pool, a worker's hand.
abbrev pub turns_of : ℕ → Turns → ℕ
turns_of n t =
    bit (t.armed n) + reports t.chat n t.batch + queued n t.chat + total (hand_for n) t.hands

pub reports_same :
    (c c' : SimpleChat) (n : ℕ) (evs : List Event)
    → c'.m_lfd ≡ c.m_lfd
    → reports c' n evs ≡ reports c n evs
reports_same c c' n evs e =
    ap (λ (l : ℤ). total (λ (ev : Event). if int_eq (pos ev.fd) l then 0 else bit (ev.fd == n)) evs)
      e

tasks_in-append :
    (n m : ℕ) (state : ℤ) (p : ThreadPool Handler ℕ)
    → tasks_in n (some (append (some m) state p).1) ≤ tasks_in n (some p) + bit (m == n)
unfolding append
tasks_in-append n m state p =
    ground (arith, total-append (task_for n) p.task_queue.list ((state, some m) ∷ []))

hand_over-queued :
    (n m : ℕ) (state : ℤ) (c : SimpleChat)
    → (queued n (hand_over m state c) ≤ queued n c + bit (m == n))
      × ((hand_over m state c).m_lfd ≡ c.m_lfd)
hand_over-queued n m state c = elim (Bool-cases (leb max_fd m)) [
  | inl big ↦ rw big (omega arith, refl)
  | inr small ↦ rw small (elim (Option-cases c.m_pool) [
    | inl e ↦ rw e (omega (arith, ap (tasks_in n) e), refl)
    | inr (p, e) ↦ rw e (tasks_in-append n m state p, refl)
  ])
]

-- A served event queues at most one task, of its own connection.
pub queued-serve_event :
    (n : ℕ) (ev : Event) (c : SimpleChat)
    → (queued n (serve_event ev c) ≤ queued n c + bit (ev.fd == n))
      × ((serve_event ev c).m_lfd ≡ c.m_lfd)
unfolding handle_read handle_write
queued-serve_event n ev c = elim (Bool-cases (has_flag epollin ev.mask)) [
  | inl e ↦ rw e (hand_over-queued n ev.fd (pos 0) c)
  | inr e ↦ rw e (elim (Bool-cases (has_flag epollout ev.mask)) [
    | inl e' ↦ rw e' (hand_over-queued n ev.fd (pos 1) c)
    | inr e' ↦ rw e' (omega arith, refl)
  ])
]

-- An accepted descriptor changes neither the pool nor the listening socket.
pub accept_one-pool :
    (n : ℕ) (add_ok : Bool) (c c' : SimpleChat)
    → accept_one n add_ok c ≡ returns tt c'
    → (c'.m_pool ≡ c.m_pool) × (c'.m_lfd ≡ c.m_lfd)
unfolding accept_one
accept_one-pool n add_ok c c' e = ground arith

-- Taking the oldest task.
pub tasks_in-take_task :
    (n m : ℕ) (state : ℤ) (p : ThreadPool Handler ℕ) (rest : List (Task ℕ))
    → p.task_queue.list ≡ (state, some m) ∷ rest
    → tasks_in n (some (take_task p).1) + bit (m == n) ≡ tasks_in n (some p)
unfolding take_task
tasks_in-take_task n m state p rest e = rw e (omega arith)

-- A call of `epoll_ctl` arms no more than it is counted for.
pub armed_after-le :
    (n : ℕ) (c : EpollCall) (armed : ℕ → Bool)
    → bit (armed_after c armed n) ≤ bit (armed n) + arms n c
armed_after-le n (adds fd flags) armed = ground arith
armed_after-le n (modifies fd flags) armed = ground arith
armed_after-le n (deletes fd) armed = ground arith

pub hand_after-le :
    (n m : ℕ) (c : EpollCall) (more : List EpollCall)
    → hand_for n (hand_after c m more) + arms n c ≤ hand_for n (before m (c ∷ more))
hand_after-le n m (adds fd flags) more = omega arith
hand_after-le n m (modifies fd flags) more = omega arith
hand_after-le n m (deletes fd) more = omega arith

ends-made :
    (n : ℕ) (w w' : World) (o : Outcome World Bool) (made : List EpollCall) (b : ℕ)
    → ArmsAtMost n (total (arms n) w.epoll + b) o
    → world_after o ≡ some w'
    → w'.epoll ≡ w.epoll ++ made
    → arming n made ≤ b
ends-made n w w' o made b h e same =
    let most : total (arms n) w'.epoll ≤ total (arms n) w.epoll + b = by_end o h e in
    omega (arith, ap (total (arms n)) same, total-append (arms n) w.epoll made)
  where
    by_end :
        (o : Outcome World Bool)
        → ArmsAtMost n (total (arms n) w.epoll + b) o
        → world_after o ≡ some w'
        → total (arms n) w'.epoll ≤ total (arms n) w.epoll + b
    by_end (returns a u) h e = ground arith
    by_end (throws a u) h e = ground arith
    by_end (blocks u) h e = ground arith
    by_end undefined h e = cc

armed_by-bit : (n m : ℕ) → armed_by n (pos m) ≡ bit (m == n)
armed_by-bit n m = elim (Bool-cases (m == n)) [ inl e ↦ rw e refl | inr e ↦ rw e refl ]

-- A task arms its own connection at most once, and no other.
pub run_handler-made :
    (n m : ℕ) (decode : List ℕ → Option Message) (k : Kernel) (h : Handler) (cstate : Trigger)
    (w w' : World) (o : Outcome World Bool) (made : List EpollCall)
    → w.conn.m_fd ≡ pos m
    → run_handler decode k h cstate w ≡ some o
    → world_after o ≡ some w'
    → w'.epoll ≡ w.epoll ++ made
    → arming n made ≤ bit (m == n)
run_handler-made n m decode k reads cstate w w' o made fd run e same =
    let own = ap (armed_by n) fd ∙ armed_by-bit n m in
    subst (λ b. arming n made ≤ b) own
      (ends-made n w w' o made _ (read_once-arms decode n cstate k.read w o run) e same)
run_handler-made n m decode k sends cstate w w' o made fd run e same =
    let own = ap (armed_by n) fd ∙ armed_by-bit n m in
    subst (λ b. arming n made ≤ b) own
      (ends-made n w w' o made _
        (subst (ArmsAtMost n _) (some-injective _ _ run) (send_data-arms decode n k.wrote w)) e
        same)
