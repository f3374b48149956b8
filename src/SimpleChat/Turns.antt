-- ===== src/SimpleChat/Turns.antt =====
-- simplechat.cpp with request/tcp_conn.cpp and thread/threadpool.h: whose turn it is on a
-- connection. The event loop registers each connection with EPOLLONESHOT, so epoll reports it once
-- and not again before `update_events`; the steps below are those of the event loop, one event or
-- one accepted descriptor at a time, and of the workers: a task and its calls of `epoll_ctl`, which are
-- those that the run of `read_once` or `sendData` makes.
pub mod Counting
pub mod Exclusive
mod Tests
use simplechatserver.Prelude.{
  ℕ, zero, suc, ◌+◌, ◌≤◌, ◌≡◌, Bool, true, false, Option, none, some, List, [], ◌∷◌, get_elem?, set,
  replicate, total, ◌==◌, if◌then◌else◌, leb, ℤ, pos, int_eq, Outcome, returns, throws, blocks,
  undefined, ◌++◌,
}
use simplechatserver.ThreadPool.{ThreadPool, Task, calls, take_task, dispatch}
use simplechatserver.TcpConn.{World, Message, EpollCall, adds, modifies, deletes}
use simplechatserver.SimpleChat.Working.{Kernel, run_handler}
use simplechatserver.SimpleChat.{
  Handler, SimpleChat, Event, hung_up, drop_fd, serve_event, accept_one, max_fd,
}

-- Where a worker stands: it has no task, or it runs a task of the connection with this number, before
-- or after the task's call of `update_events`; with the calls of `epoll_ctl` that the task has still
-- to make.
pub data Hand : Type 0 where
  idle : Hand
  before : ℕ → List EpollCall → Hand
  after : ℕ → List EpollCall → Hand

-- The server; what epoll is armed for; the open descriptors; the events of the batch that the loop
-- has still to serve; and the workers.
pub record Turns : Type 0 where
  pub chat : SimpleChat
  pub armed : ℕ → Bool
  pub is_open : ℕ → Bool
  pub batch : List Event
  pub hands : List Hand

abbrev pub update : ℕ → Bool → (ℕ → Bool) → ℕ → Bool
update n b f i = if i == n then b else f i

abbrev pub bit : Bool → ℕ
bit true = 1
bit false = 0

-- `sockfd == m_lfd`
abbrev pub is_listener : SimpleChat → Event → Bool
is_listener c ev = int_eq (pos ev.fd) c.m_lfd

-- How often a batch reports the connection `n`.
abbrev pub reports : SimpleChat → ℕ → List Event → ℕ
reports c n = total (λ ev. if is_listener c ev then 0 else bit (ev.fd == n))

-- EPOLLONESHOT: what is reported is disarmed.
abbrev pub disarm : SimpleChat → List Event → (ℕ → Bool) → ℕ → Bool
disarm c evs armed n = if 0 == reports c n evs then armed n else false

-- `EPOLL_CTL_ADD` and `EPOLL_CTL_MOD` arm their descriptor, `EPOLL_CTL_DEL` takes it off.
abbrev pub armed_after : EpollCall → (ℕ → Bool) → ℕ → Bool
armed_after (adds fd flags) armed n = if int_eq fd (pos n) then true else armed n
armed_after (modifies fd flags) armed n = if int_eq fd (pos n) then true else armed n
armed_after (deletes fd) armed n = if int_eq fd (pos n) then false else armed n

-- A task that has called `epoll_ctl` for the connection `n`.
abbrev pub hand_after : EpollCall → ℕ → List EpollCall → Hand
hand_after (deletes fd) n more = before n more
hand_after (adds fd flags) n more = after n more
hand_after (modifies fd flags) n more = after n more

-- Where a task leaves its connection, however it ends.
abbrev pub world_after : Outcome World Bool → Option World
world_after (returns b w) = some w
world_after (throws e w) = some w
world_after (blocks w) = some w
world_after undefined = none

pub data Turn (t : Turns) : Turns → Type 0 where
  -- `epoll_wait` reports each connection at most once, and only if it is armed.
  polls :
      (evs : List Event)
      → t.batch ≡ []
      → ((n : ℕ) → reports t.chat n evs ≤ bit (t.armed n))
      → Turn t (record t { batch = evs; armed = disarm t.chat evs t.armed })
  -- `accept` gives a descriptor that is not open.
  accepts :
      (ev : Event) (evs : List Event) (n : ℕ) (add_ok : Bool) (c : SimpleChat)
      → t.batch ≡ ev ∷ evs
      → is_listener t.chat ev ≡ true
      → t.is_open n ≡ false
      → accept_one n add_ok t.chat ≡ returns tt c
      → Turn t (record t {
        chat = c;
        armed = if leb max_fd n then t.armed else update n add_ok t.armed;
        is_open = if leb max_fd n then t.is_open else update n add_ok t.is_open;
      })
  -- `accept` fails, and its loop is left.
  accepted :
      (ev : Event) (evs : List Event)
      → t.batch ≡ ev ∷ evs
      → is_listener t.chat ev ≡ true
      → Turn t (record t { batch = evs })
  -- A hang-up: the descriptor is closed, and the loop over the batch is left.
  drops :
      (ev : Event) (evs : List Event)
      → t.batch ≡ ev ∷ evs
      → is_listener t.chat ev ≡ false
      → hung_up ev.mask ≡ true
      → Turn t (record t {
        chat = drop_fd ev.fd t.chat;
        armed = update ev.fd false t.armed;
        is_open = update ev.fd false t.is_open;
        batch = [];
      })
  serves :
      (ev : Event) (evs : List Event)
      → t.batch ≡ ev ∷ evs
      → is_listener t.chat ev ≡ false
      → hung_up ev.mask ≡ false
      → Turn t (record t { chat = serve_event ev t.chat; batch = evs })
  -- The i-th worker pops the oldest task and begins to run the function that `funbox` has for it,
  -- `read_once` or `sendData`. Its buffers, the database connections and what the kernel gives may be
  -- any, also what other workers leave behind; `accept_one` has stored the descriptor in the entry.
  -- `made` are the calls of `epoll_ctl` that the function makes in this run.
  takes :
      (i : ℕ) (p : ThreadPool Handler ℕ) (n : ℕ) (state : ℤ) (rest : List (Task ℕ)) (h : Handler)
      (decode : List ℕ → Option Message) (k : Kernel) (w w' : World) (o : Outcome World Bool)
      (made : List EpollCall)
      → get_elem? t.hands i ≡ some idle
      → t.chat.m_pool ≡ some p
      → p.task_queue.list ≡ (state, some n) ∷ rest
      → dispatch p.funbox (take_task p).0 ≡ calls h n
      → w.conn.m_fd ≡ pos n
      → run_handler decode k h t.chat.cstate w ≡ some o
      → world_after o ≡ some w'
      → w'.epoll ≡ w.epoll ++ made
      → Turn t (record t {
        chat = record t.chat { m_pool = some (take_task p).1 };
        hands = set t.hands i (before n made);
      })
  -- The task makes the next of its calls of `epoll_ctl`.
  controls :
      (i n : ℕ) (c : EpollCall) (more : List EpollCall)
      → get_elem? t.hands i ≡ some (before n (c ∷ more))
      → Turn t
          (record t { armed = armed_after c t.armed; hands = set t.hands i (hand_after c n more) })
  controls_again :
      (i n : ℕ) (c : EpollCall) (more : List EpollCall)
      → get_elem? t.hands i ≡ some (after n (c ∷ more))
      → Turn t (record t { armed = armed_after c t.armed; hands = set t.hands i (after n more) })
  -- The task ends: with no call of `update_events` (`remove_fd`, an error, or a request without an
  -- answer), or some time after it.
  ends :
      (i n : ℕ)
      → get_elem? t.hands i ≡ some (before n [])
      → Turn t (record t { hands = set t.hands i idle })
  ends_after :
      (i n : ℕ)
      → get_elem? t.hands i ≡ some (after n [])
      → Turn t (record t { hands = set t.hands i idle })

-- Before the first `epoll_wait`: nothing is connected or queued, and the `k` workers are idle.
pub data Begin (k : ℕ) : Turns → Type 0 where
  begins :
      (c : SimpleChat) (p : ThreadPool Handler ℕ)
      → c.m_pool ≡ some p
      → p.task_queue.list ≡ []
      → Begin k (record {
        chat = c;
        armed = λ n. false;
        is_open = λ n. false;
        batch = [];
        hands = replicate k idle;
      })

pub data Reach (k : ℕ) : Turns → Type 0 where
  begun : {t : Turns} → Begin k t → Reach k t
  next : {t u : Turns} → Reach k t → Turn t u → Reach k u
