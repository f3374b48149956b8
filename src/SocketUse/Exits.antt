-- ===== src/SocketUse/Exits.antt =====
-- How the program ends.
use simplechatserver.Prelude.{
  ℕ, ◌≡◌, refl, inl, inr, Bool, Bool-cases, Option-cases, then_do, arith, true, false, Option, none,
  some, List, [], ◌∷◌, ℤ, negsuc, int_eq, Outcome, returns, throws, blocks, undefined, Method, pad,
  c_string,
}
use simplechatserver.SocketUse.{
  Received, bytes, ended, failed, Event, Server, Setup, main, buf_size, accept_user, answer,
  handle_event, unless_exit, handle_batch, wait_loop,
}

-- `epoll_ctl` refuses the descriptor -1.
abbrev pub Refuses : ℤ → Bool → Type 0
Refuses fd add_ok = int_eq fd (negsuc 0) ≡ true → add_ok ≡ false

abbrev pub RefusesIn : List Event → Type 0
RefusesIn [] = Unit
RefusesIn (ev ∷ evs) = Refuses ev.userfd ev.add_ok × RefusesIn evs

abbrev pub RefusesAll : List (List Event) → Type 0
RefusesAll [] = Unit
RefusesAll (evs ∷ waits) = RefusesIn evs × RefusesAll waits

-- If the call exits, then with the status 0.
abbrev ExitsWithZero : Outcome Server (Option ℕ) → Type 0
ExitsWithZero o = (status : ℕ) (s : Server) → o ≡ returns (some status) s → status ≡ 0

accept_user-ExitsWithZero :
    (userfd : ℤ) (add_ok : Bool) (s : Server)
    → Refuses userfd add_ok
    → ExitsWithZero (accept_user userfd add_ok s)
unfolding accept_user
accept_user-ExitsWithZero userfd false s refuses status s' e = ground arith
accept_user-ExitsWithZero userfd true s refuses status s' e =
    elim (Bool-cases (int_eq userfd (negsuc 0))) [
      | inl failed_fd ↦ absurd (let f = refuses failed_fd in ground arith)
      | inr valid ↦ absurd (let e' = rw valid at e in ground arith)
    ]

answer-ExitsWithZero : (fd : ℤ) (r : Received) (s : Server) → ExitsWithZero (answer fd r s)
unfolding answer
answer-ExitsWithZero fd (bytes bs) s status s' e =
    elim (Option-cases (c_string (pad buf_size bs))) [
      | inl open_end ↦ absurd (let e' = rw open_end at e in ground arith)
      | inr (text, string) ↦ absurd (let e' = rw string at e in ground arith)
    ]
answer-ExitsWithZero fd ended s status s' e = absurd (ground arith)
answer-ExitsWithZero fd failed s status s' e = ground arith

handle_event-ExitsWithZero :
    (lfd : ℤ) (ev : Event) (s : Server)
    → Refuses ev.userfd ev.add_ok
    → ExitsWithZero (handle_event lfd ev s)
unfolding handle_event
handle_event-ExitsWithZero lfd ev s refuses = elim (Bool-cases (int_eq ev.fd lfd)) [
  | inl listens ↦ rw listens (accept_user-ExitsWithZero ev.userfd ev.add_ok s refuses)
  | inr other ↦ rw other (answer-ExitsWithZero ev.fd ev.received s)
]

then-ExitsWithZero :
    (o : Outcome Server (Option ℕ)) (next : Method Server (Option ℕ))
    → ExitsWithZero o
    → ((s : Server) → ExitsWithZero (next s))
    → ExitsWithZero (then_do o (unless_exit next))
then-ExitsWithZero (returns none s) next first after = after s
then-ExitsWithZero (returns (some n) s) next first after = first
then-ExitsWithZero (throws x s) next first after = λ status s' e. absurd (ground arith)
then-ExitsWithZero (blocks s) next first after = λ status s' e. absurd (ground arith)
then-ExitsWithZero undefined next first after = λ status s' e. absurd (ground arith)

handle_batch-ExitsWithZero :
    (lfd : ℤ) (evs : List Event) (s : Server)
    → RefusesIn evs
    → ExitsWithZero (handle_batch lfd evs s)
unfolding handle_batch
handle_batch-ExitsWithZero lfd [] s refuses = λ status s' e. absurd (ground arith)
handle_batch-ExitsWithZero lfd (ev ∷ evs) s (refuses, more) =
    then-ExitsWithZero (handle_event lfd ev s) (handle_batch lfd evs)
      (handle_event-ExitsWithZero lfd ev s refuses)
      (λ s'. handle_batch-ExitsWithZero lfd evs s' more)

wait_loop-ExitsWithZero :
    (lfd : ℤ) (waits : List (List Event)) (s : Server)
    → RefusesAll waits
    → ExitsWithZero (wait_loop lfd waits s)
unfolding wait_loop
wait_loop-ExitsWithZero lfd [] s refuses = λ status s' e. absurd (ground arith)
wait_loop-ExitsWithZero lfd (evs ∷ waits) s (refuses, more) =
    then-ExitsWithZero (handle_batch lfd evs s) (wait_loop lfd waits)
      (handle_batch-ExitsWithZero lfd evs s refuses)
      (λ s'. wait_loop-ExitsWithZero lfd waits s' more)

-- With an `epoll_ctl` that refuses the descriptor -1, every error that ends the program gives the
-- exit status 0, a failed `accept` included, for which the source means 1; and a failed `socket`
-- ends it too, at `epoll_ctl`, before any event.
pub main_exits :
    (setup : Setup) (waits : List (List Event)) (s : Server)
    → Refuses setup.socket setup.add_ok
    → RefusesAll waits
    → ((status : ℕ) (s' : Server) → main setup waits s ≡ returns (some status) s' → status ≡ 0)
      × (int_eq setup.socket (negsuc 0) ≡ true
          → (s' : Server) × (main setup waits s ≡ returns (some 0) s') × (s'.sent ≡ s.sent))
unfolding main
main_exits setup waits s refuses more = elim (Bool-cases setup.add_ok) [
  | inl ok ↦ rw ok (
    wait_loop-ExitsWithZero setup.socket waits _ more,
    λ failed_fd. absurd (let f = refuses failed_fd in ground arith),
  )
  | inr refused ↦ rw refused (λ status s' e. ground arith, λ failed_fd. (_, refl, refl))
]
