-- ===== src/Log/Threads/Single.antt =====
-- With one thread in `write_log`, nothing comes between the test of the queue and the push.
use simplechatserver.Prelude.{
  ℕ, zero, suc, ◌≡◌, refl, sym, ap, subst, ◌∙◌, inl, inr, Bool-cases, Option-cases, true, false,
  Option, none, some, List, [], ◌∷◌, get_elem?, set, total, ◌+◌, leb, arith, not, ◌&&◌,
  if◌then◌else◌, Outcome, returns, put_back,
}
use simplechatserver.BlockQueue
use simplechatserver.BlockQueue.{BlockQueue, at, next_index, take_at}
use simplechatserver.LogText.{Text}
use simplechatserver.Log.{Log, on_queue, is_full}
use simplechatserver.Log.Threads.{
  Pc, idle, formatting, testing, pushing, printing, Threads, Step, counts, formats, tests, pushes,
  prints, pops, puts, Reach, begun, next,
}
use simplechatserver.Log.Threads.Effects.{Pushes, push-Pushes, Puts, fputs-Puts, QueueHolds}
use simplechatserver.Log.Threads.Kept.{written_weight, in_hand, held_by, Reach-Accounts}

abbrev HasRoom : Log → Type 0
HasRoom c = is_full c.m_log_queue ≡ false

-- The queue still has room when the thread has tested it.
abbrev RoomFor : Pc → Log → Type 0
RoomFor (pushing line) c = HasRoom c
RoomFor _ c = Unit

record Alone (t : Threads) : Type 0 where
  pc : Pc
  only : t.threads ≡ pc ∷ []
  room : RoomFor pc t.log
  none_lost : t.lost ≡ []

abbrev RoomAfter : Outcome Log (Option Text) → Type 0
RoomAfter (returns _ c) = HasRoom c
RoomAfter _ = Unit

-- `pop` makes room.
take_next-RoomAfter :
    (c : Log) (q : BlockQueue Text)
    → BlockQueue.full q ≡ false
    → RoomAfter (put_back (λ q'. record c { m_log_queue = some q' }) (BlockQueue.take_next q))
unfolding BlockQueue.take_next BlockQueue.full
take_next-RoomAfter c q room = go (at q.m_array (next_index q.m_front q.m_max_size))
  where
    go :
        (o : Option Text)
        → RoomAfter (
            put_back
              (λ q'. record c { m_log_queue = some q' })
              (take_at (next_index q.m_front q.m_max_size) o q))
    go none = tt
    go (some line) = ground (arith, room)

pop-RoomAfter : (c : Log) → HasRoom c → RoomAfter (on_queue (BlockQueue.pop true) c)
unfolding BlockQueue.pop
pop-RoomAfter c room = elim (Option-cases c.m_log_queue) [
  | inl e ↦ rw e tt
  | inr (q, e) ↦
      let room' : BlockQueue.full q ≡ false = sym (ap is_full e) ∙ room in
      rw e (elim (Bool-cases (leb q.m_size 0)) [
        | inl gone ↦ rw gone tt
        | inr some_left ↦ rw some_left (take_next-RoomAfter c q room')
      ])
]

only_entry :
    (p x : Pc) (i : ℕ)
    → get_elem? (p ∷ []) i ≡ some x
    → (p ≡ x) × ((y : Pc) → set (p ∷ []) i y ≡ y ∷ [])
only_entry p x zero e = (ground arith, λ y. refl)
only_entry p x (suc i) e = absurd (ground arith)

-- Where the one thread stands.
at_only :
    (threads : List Pc) (p x : Pc) (i : ℕ)
    → threads ≡ p ∷ []
    → get_elem? threads i ≡ some x
    → (p ≡ x) × ((y : Pc) → set threads i y ≡ y ∷ [])
at_only threads p x i e =
    subst (λ ts. get_elem? ts i ≡ some x → (p ≡ x) × ((y : Pc) → set ts i y ≡ y ∷ [])) (sym e)
      (only_entry p x i)

room_tested :
    (c : Log) (line : Text)
    → RoomFor
        (if c.m_is_async && not (is_full c.m_log_queue) then pushing line else printing line)
        c
room_tested c line = elim (Bool-cases c.m_is_async) [
  | inl async ↦ elim (Bool-cases (is_full c.m_log_queue)) [
    | inl full ↦ rw (async, full) tt
    | inr room ↦ rw (async, room) room
  ]
  | inr direct ↦ rw direct tt
]

RoomFor-pops :
    (p : Pc) (line : Text) (c c' : Log)
    → RoomFor p c
    → on_queue (BlockQueue.pop true) c ≡ returns (some line) c'
    → RoomFor p c'
RoomFor-pops idle line c c' room e = tt
RoomFor-pops (formatting now level msg) line c c' room e = tt
RoomFor-pops (testing x) line c c' room e = tt
RoomFor-pops (pushing x) line c c' room e = subst RoomAfter e (pop-RoomAfter c room)
RoomFor-pops (printing x) line c c' room e = tt

RoomFor-alike : (p : Pc) (c c' : Log) → c'.m_log_queue ≡ c.m_log_queue → RoomFor p c → RoomFor p c'
RoomFor-alike idle c c' same room = tt
RoomFor-alike (formatting now level msg) c c' same room = tt
RoomFor-alike (testing x) c c' same room = tt
RoomFor-alike (pushing x) c c' same room = ap is_full same ∙ room
RoomFor-alike (printing x) c c' same room = tt

Step-Alone :
    {t u : Threads} (l : List Text) → QueueHolds t.log.m_log_queue l → Alone t → Step t u → Alone u
Step-Alone {t} l h a (counts i opens now level msg c at e) =
    let (_, moved) = at_only t.threads a.pc idle i a.only at in
    record { pc = formatting now level msg; only = moved _; room = tt; none_lost = a.none_lost }
Step-Alone {t} l h a (formats i now level msg line c at e) =
    let (_, moved) = at_only t.threads a.pc _ i a.only at in
    record { pc = testing line; only = moved _; room = tt; none_lost = a.none_lost }
Step-Alone {t} l h a (tests i line at) =
    let (_, moved) = at_only t.threads a.pc _ i a.only at in
    record { pc = _; only = moved _; room = room_tested t.log line; none_lost = a.none_lost }
Step-Alone {t} l h a (pushes i line true c at e) =
    let (_, moved) = at_only t.threads a.pc _ i a.only at in
    record { pc = idle; only = moved _; room = tt; none_lost = a.none_lost }
Step-Alone {t} l h a (pushes i line false c at e) =
    let (here, _) = at_only t.threads a.pc (pushing line) i a.only at in
    let room : HasRoom t.log = subst (λ p. RoomFor p t.log) here a.room in
    let (_, _, full) : Pushes line l t.log (returns false c) =
      subst (Pushes line l t.log) e (push-Pushes line l t.log h) in
    absurd (ground (arith, room, full))
Step-Alone {t} l h a (prints i line c at e) =
    let (_, moved) = at_only t.threads a.pc _ i a.only at in
    record { pc = idle; only = moved _; room = tt; none_lost = a.none_lost }
Step-Alone {t} l h a (pops line c free e) = record {
  pc = a.pc;
  only = a.only;
  room = RoomFor-pops a.pc line t.log c a.room e;
  none_lost = a.none_lost;
}
Step-Alone {t} l h a (puts line c has e) =
    let (queue, _) : Puts line t.log (returns tt c) =
      subst (Puts line t.log) e (fputs-Puts line t.log) in
    record {
      pc = a.pc;
      only = a.only;
      room = RoomFor-alike a.pc t.log c queue a.room;
      none_lost = a.none_lost;
    }

Reach-Alone :
    {c : Log} {t : Threads} → QueueHolds c.m_log_queue [] → c.written ≡ [] → Reach 1 c t → Alone t
Reach-Alone holds blank begun = record { pc = idle; only = refl; room = tt; none_lost = refl }
Reach-Alone holds blank (next r s) =
    let (l, a) = Reach-Accounts holds blank r in Step-Alone l a.holds (Reach-Alone holds blank r) s

-- With one thread in `write_log` beside the writing thread, no line is ever lost: once it is outside
-- `write_log`, every line that it has formatted has been written, is in the queue (whose lines are
-- `l`), or is in the hand of the writing thread.
pub one_thread_loses_nothing :
    {c : Log} {t : Threads}
    → QueueHolds c.m_log_queue []
    → c.written ≡ []
    → Reach 1 c t
    → get_elem? t.threads 0 ≡ some idle
    → (l : List Text) × QueueHolds t.log.m_log_queue l
      × (t.lost ≡ [])
      × ((f : Text → ℕ)
          → written_weight f t.log + total f l + total f (in_hand t.single_log)
            ≡ total f t.formatted)
one_thread_loses_nothing {c} {t} holds blank r out =
    let (l, a) = Reach-Accounts holds blank r in
    let alone = Reach-Alone holds blank r in
    let (here, _) = at_only t.threads alone.pc idle 0 alone.only out in
    (
      l,
      a.holds,
      alone.none_lost,
      λ f.
          let nothing_lost : total f t.lost ≡ 0 = ap (total f) alone.none_lost in
          let outside : total (held_by f) t.threads ≡ 0 =
            ap (total (held_by f)) alone.only ∙ ap (λ p. held_by f p + 0) here ∙ omega arith in
          omega (arith, a.kept f),
    )
