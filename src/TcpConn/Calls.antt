-- ===== src/TcpConn/Calls.antt =====
-- request/tcp_conn.cpp: the calls of `epoll_ctl` that a task makes, each with a weight. A task makes
-- one call at most, on the descriptor of its connection.
use simplechatserver.Prelude.{
  ℕ, zero, suc, ◌+◌, ◌-◌, ◌≤◌, ◌≡◌, refl, ◌∙◌, subst, inl, inr, Bool, Bool-cases, true, Option,
  none, some, List, [], ◌∷◌, length, total, total-append, leb, ltb, arith, ℤ, Outcome, returns,
  throws, blocks, undefined, then_do, ◌>>=◌, c_string, copy_string, copy_at, put_back,
}
use simplechatserver.SqlConnectionPool.{Mysql, Borrower, raii_open, raii_close}
use simplechatserver.TcpConn.{
  World, ReadResult, got, again, failed, Message, Trigger, lt, et, max_read_len, semp_len,
  store_chunk, stored_in, terminate, finish, Next, stops, goes_on, or_undefined, lt_step, et_step,
  read_loop, read_by, read_body, rounds, reply, answer, answer_with, put_reply, decode_string,
  parse_data, send_data, send_string, update_events, write_event, read_event, remove_fd, clear_buf,
  EpollCall, modifies, deletes, Flag, read_once, leave, enter,
}

module _ (weight : EpollCall → ℕ) (cost : ℤ → ℕ)
    (arming : (fd : ℤ) (flags : List Flag) → weight (modifies fd flags) ≤ cost fd)
    (deleting : (fd : ℤ) → weight (deletes fd) ≤ cost fd) where
  -- What the calls made so far weigh, and one more on the descriptor of the connection.
  abbrev pub budget : World → ℕ
  budget w = total weight w.epoll + cost w.conn.m_fd

  -- However the call ends, the calls of `epoll_ctl` up to then weigh at most `n`.
  abbrev pub AtMost {ℓ} : {A : Type ℓ} → ℕ → Outcome World A → Type 0
  AtMost n (returns a w) = total weight w.epoll ≤ n
  AtMost n (throws e w) = total weight w.epoll ≤ n
  AtMost n (blocks w) = total weight w.epoll ≤ n
  AtMost n undefined = Unit

  abbrev pub OneMore {ℓ} : {A : Type ℓ} → World → Outcome World A → Type 0
  OneMore w o = AtMost (budget w) o

  abbrev replied : Option (List ℕ) → World → Outcome World (Unit {0})
  replied o = put_reply o >>= λ _ w. returns tt (update_events write_event w)

  replied-OneMore : (o : Option (List ℕ)) (w : World) → OneMore w (replied o w)
  unfolding update_events
  replied-OneMore none w = tt
  replied-OneMore (some buf) w =
      omega (arith, total-append weight w.epoll (_ ∷ []), arming w.conn.m_fd write_event)

  answer_with-OneMore : (o : Option (List ℕ)) (w : World) → OneMore w (answer_with o w)
  answer_with-OneMore none w = omega arith
  answer_with-OneMore (some text) w = replied-OneMore (copy_string text w.conn.m_writebuf) w

  answer-OneMore : (o : Option Message) (w : World) → OneMore w (answer o w)
  answer-OneMore none w = omega arith
  answer-OneMore (some m) w = answer_with-OneMore (reply m.id) w

  decoded-OneMore :
      (decode : List ℕ → Option Message) (o : Option (List ℕ)) (w : World)
      → OneMore w (decode_string decode o w)
  decoded-OneMore decode none w = tt
  decoded-OneMore decode (some text) w = answer-OneMore (decode text) w

  cleared-AtMost :
      (n : ℕ) (o : Outcome World (Unit {0}))
      → AtMost n o
      → AtMost n (then_do o (λ _ w. returns true (clear_buf w)))
  unfolding clear_buf
  cleared-AtMost n (returns a w) h = h
  cleared-AtMost n (throws e w) h = h
  cleared-AtMost n (blocks w) h = h
  cleared-AtMost n undefined h = tt

  finish-OneMore : (decode : List ℕ → Option Message) (w : World) → OneMore w (finish decode w)
  unfolding finish parse_data
  finish-OneMore decode w = cleared-AtMost _ _ (decoded-OneMore decode (c_string w.conn.m_buf) w)

  -- A part of a round makes no call.
  abbrev Quiet : World → Option World → Type 0
  Quiet w none = Unit
  Quiet w (some w') = budget w' ≡ budget w

  stored-Quiet : (w : World) (n : ℕ) (o : Option (List ℕ)) → Quiet w (stored_in w n o)
  stored-Quiet w n none = tt
  stored-Quiet w n (some buf) = refl

  store_chunk-Quiet : (bs : List ℕ) (w : World) → Quiet w (store_chunk bs w)
  unfolding store_chunk
  store_chunk-Quiet bs w = elim (Bool-cases (leb (length bs) semp_len)) [
    | inl small ↦ rw small (stored-Quiet w (length bs) (copy_at w.conn.alllen bs w.conn.m_buf))
    | inr big ↦ rw big tt
  ]

  terminate-Quiet : (w : World) → Quiet w (terminate w)
  unfolding terminate
  terminate-Quiet w = elim (Bool-cases (ltb w.conn.alllen (length w.conn.m_buf))) [
    | inl fits ↦ rw fits refl
    | inr over ↦ rw over tt
  ]

  Quiet-trans : (w w' : World) (o : Option World) → budget w' ≡ budget w → Quiet w' o → Quiet w o
  Quiet-trans w w' none e quiet = tt
  Quiet-trans w w' (some w'') e quiet = quiet ∙ e

  -- A round that goes on has made no call, and one that stops one at most.
  abbrev Round : World → Next → Type 0
  Round w (stops o) = OneMore w o
  Round w (goes_on w') = budget w' ≡ budget w

  or_undefined-Round :
      (w : World) (o : Option World) (next : World → Next)
      → Quiet w o
      → ((w' : World) → budget w' ≡ budget w → Round w (next w'))
      → Round w (or_undefined o next)
  or_undefined-Round w none next quiet then = tt
  or_undefined-Round w (some w') next quiet then = then w' quiet

  -- The same of a loop, which may run out of fuel.
  abbrev pub OneMoreAt : World → Option (Outcome World Bool) → Type 0
  OneMoreAt w none = Unit
  OneMoreAt w (some o) = OneMore w o

  module _ (decode : List ℕ → Option Message) where
    finish-Round : (w w' : World) → budget w' ≡ budget w → Round w (stops (finish decode w'))
    finish-Round w w' e = subst (λ n. AtMost n (finish decode w')) e (finish-OneMore decode w')

    lt_step-Round : (r : ReadResult) (w : World) → Round w (lt_step decode r w)
    unfolding lt_step remove_fd clear_buf
    lt_step-Round (got []) w =
        omega (arith, total-append weight w.epoll (_ ∷ []), deleting w.conn.m_fd)
    lt_step-Round (got (b ∷ bs)) w =
        or_undefined-Round w _ _ (store_chunk-Quiet (b ∷ bs) w) (λ w' e.
          or_undefined-Round w _ _ (Quiet-trans w w' _ e (terminate-Quiet w')) (λ w'' e'. e'))
    lt_step-Round again w = finish-OneMore decode w
    lt_step-Round failed w = omega arith

    et_step-Round : (r : ReadResult) (w : World) → Round w (et_step decode r w)
    unfolding et_step remove_fd clear_buf
    et_step-Round (got []) w =
        omega (arith, total-append weight w.epoll (_ ∷ []), deleting w.conn.m_fd)
    et_step-Round (got (b ∷ bs)) w =
        or_undefined-Round w _ _ (store_chunk-Quiet (b ∷ bs) w) (λ w' e. e)
    et_step-Round again w = or_undefined-Round w _ _ (terminate-Quiet w) (finish-Round w)
    et_step-Round failed w = omega arith

    loop-OneMore :
        (step : ReadResult → World → Next)
        → ((r : ReadResult) (w : World) → Round w (step r w))
        → (read : ℕ → ℕ → ReadResult) (fuel i : ℕ) (w w₀ : World) → budget w ≡ budget w₀
        → OneMoreAt w₀ (read_loop decode step read fuel i w)
    unfolding read_loop
    loop-OneMore step rounds_ok read zero i w w₀ e = tt
    loop-OneMore step rounds_ok read (suc fuel) i w w₀ e =
        let r = read i (max_read_len - w.conn.alllen) in
        elim (step r w)
            as (λ next.
              Round w next
              → OneMoreAt w₀ (elim next [
                | stops o ↦ some o
                | goes_on w' ↦ read_loop decode step read fuel (i + 1) w'
              ])) [
                | stops o ↦ λ h. subst (λ n. AtMost n o) e h
                | goes_on w' ↦ λ h. loop-OneMore step rounds_ok read fuel (i + 1) w' w₀ (h ∙ e)
              ]
          (rounds_ok r w)

    read_by-OneMore :
        (cstate : Trigger) (read : ℕ → ℕ → ReadResult) (w : World)
        → OneMoreAt w (read_by decode cstate 0 read w)
    unfolding read_by
    read_by-OneMore lt read w =
        loop-OneMore (lt_step decode) lt_step-Round read (rounds decode w) 0 w w refl
    read_by-OneMore et read w =
        loop-OneMore (et_step decode) et_step-Round read (rounds decode w) 0 w w refl

    pub read_body-OneMore :
        (cstate : Trigger) (read : ℕ → ℕ → ReadResult) (w : World)
        → OneMoreAt w (read_body decode cstate 0 read w)
    unfolding read_body
    read_body-OneMore cstate read w = elim (Bool-cases (leb max_read_len w.conn.alllen)) [
      | inl full ↦ rw full (omega arith)
      | inr room ↦ rw room (read_by-OneMore cstate read w)
    ]

    send_string-OneMore :
        (wrote : Option ℕ) (o : Option (List ℕ)) (w : World) → OneMore w (send_string wrote o w)
    unfolding update_events
    send_string-OneMore wrote none w = tt
    send_string-OneMore none (some text) w = omega arith
    send_string-OneMore (some n) (some text) w =
        omega (arith, total-append weight w.epoll (_ ∷ []), arming w.conn.m_fd read_event)

    pub send_data-OneMore : (wrote : Option ℕ) (w : World) → OneMore w (send_data wrote w)
    unfolding send_data
    send_data-OneMore wrote w = send_string-OneMore wrote (c_string w.conn.m_writebuf) w

    -- What is put back of a guard leaves the calls and the descriptor alone.
    kept : World → Borrower → World
    kept w b = record w { pool = b.pool; conn = record w.conn { m_sql = b.sql } }

    closed-AtMost :
        (n : ℕ) (o : Outcome Borrower (Unit {0})) (w : World) (next : World → Outcome World Bool)
        → total weight w.epoll ≤ n
        → ((w' : World) → total weight w'.epoll ≤ n → AtMost n (next w'))
        → AtMost n (then_do (put_back (kept w) o) (λ _ w'. next w'))
    unfolding kept
    closed-AtMost n (returns a b) w next h after = after _ h
    closed-AtMost n (throws e b) w next h after = h
    closed-AtMost n (blocks b) w next h after = h
    closed-AtMost n undefined w next h after = tt

    leave-OneMore :
        (m_sql : Mysql) (w : World) (o : Option (Outcome World Bool))
        → OneMoreAt w o
        → OneMoreAt w (leave decode m_sql o)
    unfolding kept
    leave-OneMore m_sql w none h = tt
    leave-OneMore m_sql w (some (returns b w')) h =
        closed-AtMost (budget w) (raii_close m_sql (record { pool = w'.pool; sql = w'.conn.m_sql }))
          w' (returns b) h (λ _ h'. h')
    leave-OneMore m_sql w (some (throws e w')) h =
        closed-AtMost (budget w) (raii_close m_sql (record { pool = w'.pool; sql = w'.conn.m_sql }))
          w' (throws e) h (λ _ h'. h')
    leave-OneMore m_sql w (some (blocks w')) h = h
    leave-OneMore m_sql w (some undefined) h = tt

    enter-OneMore :
        (o : Outcome Borrower Mysql) (w : World) (body : World → Option (Outcome World Bool))
        → ((w' : World) → OneMoreAt w' (body w'))
        → OneMoreAt w (enter decode (put_back (kept w) o) body)
    unfolding kept
    enter-OneMore (returns m_sql b) w body h =
        leave-OneMore m_sql w (body (kept w b)) (h (kept w b))
    enter-OneMore (throws e b) w body h = omega arith
    enter-OneMore (blocks b) w body h = omega arith
    enter-OneMore undefined w body h = tt

    -- The guard makes no call of `epoll_ctl`.
    pub read_once-OneMore :
        (cstate : Trigger) (read : ℕ → ℕ → ReadResult) (w : World)
        → OneMoreAt w (read_once decode cstate read w)
    unfolding read_once kept
    read_once-OneMore cstate read w =
        enter-OneMore (raii_open (record { pool = w.pool; sql = w.conn.m_sql })) w
          (read_body decode cstate 0 read) (read_body-OneMore cstate read)
