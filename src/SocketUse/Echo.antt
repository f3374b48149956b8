-- ===== src/SocketUse/Echo.antt =====
-- What the server sends.
use simplechatserver.Prelude.{
  ℕ, suc, ◌-◌, ◌<◌, ◌≡◌, refl, ap, ◌∙◌, inl, inr, Bool-cases, true, false, Option, none, some, List,
  [], ◌∷◌, ◌++◌, append_assoc, append-nil, sym, negsuc, ◌==◌, Outcome, Method, length,
  if◌then◌else◌, arith, ℤ, int_eq, returns, blocks, ◌>>=◌, pad, zeros, c_string,
}
use simplechatserver.SocketUse.{
  Text, Received, bytes, ended, failed, Event, Server, buf_size, add_fd, accept_user, answer,
  handle_event, unless_exit, handle_batch, wait_loop,
}

-- The bytes that a list of texts holds for the descriptor `fd`, one after the other.
abbrev pub bytes_for : ℤ → List (ℤ × Text) → Text
bytes_for fd [] = []
bytes_for fd ((n, bs) ∷ texts) =
    if int_eq n fd then bs ++ bytes_for fd texts else bytes_for fd texts

-- The bytes that an event brings from the descriptor `fd`.
abbrev pub bytes_of : Received → Text
bytes_of (bytes bs) = bs
bytes_of ended = []
bytes_of failed = []

abbrev pub received_of : ℤ → ℤ → Event → Text
received_of lfd fd ev =
    if int_eq ev.fd lfd then [] else if int_eq ev.fd fd then bytes_of ev.received else []

abbrev pub received_in : ℤ → ℤ → List Event → Text
received_in lfd fd [] = []
received_in lfd fd (ev ∷ evs) = received_of lfd fd ev ++ received_in lfd fd evs

abbrev pub received_from : ℤ → ℤ → List (List Event) → Text
received_from lfd fd [] = []
received_from lfd fd (evs ∷ waits) = received_in lfd fd evs ++ received_from lfd fd waits

-- `recv` does not fail and leaves room for the zero that ends a string.
abbrev pub IsShort : Received → Type 0
IsShort (bytes bs) = length bs < buf_size
IsShort ended = Unit
IsShort failed = ⊥

-- `accept` and `epoll_ctl` succeed, or the data are short.
abbrev pub IsServed : ℤ → Event → Type 0
IsServed lfd ev =
    if int_eq ev.fd lfd
    then (ev.add_ok ≡ true) × (int_eq ev.userfd (negsuc 0) ≡ false)
    else IsShort ev.received

abbrev pub AllServed : ℤ → List Event → Type 0
AllServed lfd [] = Unit
AllServed lfd (ev ∷ evs) = IsServed lfd ev × AllServed lfd evs

abbrev pub EachServed : ℤ → List (List Event) → Type 0
EachServed lfd [] = Unit
EachServed lfd (evs ∷ waits) = AllServed lfd evs × EachServed lfd waits

bytes_for-append :
    (fd : ℤ) (xs ys : List (ℤ × Text))
    → bytes_for fd (xs ++ ys) ≡ bytes_for fd xs ++ bytes_for fd ys
bytes_for-append fd [] ys = refl
bytes_for-append fd ((n, bs) ∷ xs) ys = elim (Bool-cases (int_eq n fd)) [
  | inl e ↦ rw e (ap (◌++◌ bs) (bytes_for-append fd xs ys) ∙ sym (append_assoc bs _ _))
  | inr e ↦ rw e (bytes_for-append fd xs ys)
]

-- A zero ends a string.
c_string-zero : (xs rest : Text) → (text : Text) × (c_string (xs ++ (0 ∷ rest)) ≡ some text)
unfolding c_string
c_string-zero [] rest = ([], refl)
c_string-zero (b ∷ xs) rest =
    let (text, e) = c_string-zero xs rest in
    elim (Bool-cases (b == 0)) [ inl z ↦ ([], rw z) | inr z ↦ (b ∷ text, rw (z, e)) ]

c_string-short :
    (bs : Text) → length bs < buf_size → (text : Text) × (c_string (pad buf_size bs) ≡ some text)
c_string-short bs h =
    let e : buf_size - length bs ≡ suc (buf_size - length bs - 1) = omega arith in
    rw e (c_string-zero bs (zeros (buf_size - length bs - 1)))

-- The state `s'` comes from `s` by sending each client `more fd`.
abbrev IsSending : (ℤ → Text) → Server → Server → Type 0
IsSending more s s' = (fd : ℤ) → bytes_for fd s'.sent ≡ bytes_for fd s.sent ++ more fd

-- One call returns without an exit, and each client has been sent `more fd`.
abbrev Sends : Outcome Server (Option ℕ) → (ℤ → Text) → Server → Type 0
Sends o more s = (s' : Server) × (o ≡ returns none s') × IsSending more s s'

answer-Sends :
    (n : ℤ) (r : Received) (s : Server)
    → IsShort r
    → Sends (answer n r s) (λ fd. if int_eq n fd then bytes_of r else []) s
unfolding answer
answer-Sends n (bytes bs) s short =
    let (text, e) = c_string-short bs short in
    (
      record s { sent = s.sent ++ ((n, bs) ∷ []) },
      rw e,
      λ fd. elim (Bool-cases (int_eq n fd)) [
        | inl same ↦
            bytes_for-append fd s.sent ((n, bs) ∷ [])
            ∙ rw same (ap (◌++◌ (bytes_for fd s.sent)) (append-nil bs))
        | inr other ↦ bytes_for-append fd s.sent ((n, bs) ∷ []) ∙ rw other
      ],
    )
answer-Sends n ended s short = (
  _,
  refl,
  λ fd. elim (Bool-cases (int_eq n fd)) [
    | inl same ↦ rw same (sym (append-nil _))
    | inr other ↦ rw other (sym (append-nil _))
  ],
)
answer-Sends n failed s short = absurd short

handle_event-Sends :
    (lfd : ℤ) (ev : Event) (s : Server)
    → IsServed lfd ev
    → Sends (handle_event lfd ev s) (λ fd. received_of lfd fd ev) s
unfolding handle_event accept_user
handle_event-Sends lfd ev s served = elim (Bool-cases (int_eq ev.fd lfd)) [
  | inl listens ↦
      let (add, valid) : (ev.add_ok ≡ true) × (int_eq ev.userfd (negsuc 0) ≡ false) =
        rw listens at served in
      rw listens (add_fd ev.userfd s, rw (add, valid), λ fd. sym (append-nil _))
  | inr other ↦
      let short : IsShort ev.received = rw other at served in
      rw other (answer-Sends ev.fd ev.received s short)
]

then-Sends :
    (m next : Method Server (Option ℕ)) (more rest : ℤ → Text) (s : Server)
    → Sends (m s) more s
    → ((s' : Server) → Sends (next s') rest s')
    → Sends ((m >>= unless_exit next) s) (λ fd. more fd ++ rest fd) s
then-Sends m next more rest s (s', e, sent) after =
    let (s'', e', sent') = after s' in
    (
      s'',
      rw e e',
      λ fd. sent' fd ∙ ap (λ xs. xs ++ rest fd) (sent fd) ∙ append_assoc (bytes_for fd s.sent) _ _,
    )

handle_batch-Sends :
    (lfd : ℤ) (evs : List Event) (s : Server)
    → AllServed lfd evs
    → Sends (handle_batch lfd evs s) (λ fd. received_in lfd fd evs) s
unfolding handle_batch
handle_batch-Sends lfd [] s served = (s, refl, λ fd. sym (append-nil _))
handle_batch-Sends lfd (ev ∷ evs) s (served, all) =
    then-Sends (handle_event lfd ev) (handle_batch lfd evs) _ _ s
      (handle_event-Sends lfd ev s served) (λ s'. handle_batch-Sends lfd evs s' all)

-- Over any number of rounds with any number of clients: as long as `accept`, `epoll_ctl` and `recv`
-- succeed and each `recv` brings fewer than 1024 bytes, the server stays in its loop, and each
-- client has been given, beyond what it had been given before, the bytes received from it, all of
-- them and in the order in which they came.
pub wait_loop-echo :
    (lfd : ℤ) (waits : List (List Event)) (s : Server)
    → EachServed lfd waits
    → (s' : Server) × (wait_loop lfd waits s ≡ blocks s')
      × ((fd : ℤ) → bytes_for fd s'.sent ≡ bytes_for fd s.sent ++ received_from lfd fd waits)
unfolding wait_loop
wait_loop-echo lfd [] s served = (s, refl, λ fd. sym (append-nil _))
wait_loop-echo lfd (evs ∷ waits) s (served, each) =
    let (s', e, sent) = handle_batch-Sends lfd evs s served in
    let (s'', e', sent') = wait_loop-echo lfd waits s' each in
    (
      s'',
      rw e e',
      λ fd.
          sent' fd
          ∙ ap (λ xs. xs ++ received_from lfd fd waits) (sent fd)
          ∙ append_assoc (bytes_for fd s.sent) _ _,
    )
