-- ===== src/Log/Draining.antt =====
-- log/log.h and log/log.cpp: the end of `write_log` and the thread that writes the queue to the
-- file.
use simplechatserver.Prelude.{
  suc, ◌<◌, ◌≡◌, refl, sym, ap, ◌∙◌, ◌⊎◌, inl, inr, Bool, true, false, ◌&&◌, not, none, some, List,
  [], ◌∷◌, ◌++◌, map, append-nil, append_assoc, length, length-append, leb, le→leb, not-le→leb,
  arith, returns, blocks,
}
use simplechatserver.BlockQueue
use simplechatserver.BlockQueue.{BlockQueue}
use simplechatserver.BlockQueue.Refinement.{Holds, push-Holds, pop-Holds}
use simplechatserver.LogText.{Text}
use simplechatserver.Log.{Log, hand_over, write_one, async_write_log}

-- The lines as they are written to a file.
abbrev pub lines_in : Text → List Text → List (Text × Text)
lines_in name = map (λ line. (name, line))

pub pop-nil : (q : BlockQueue Text) → Holds q [] → BlockQueue.pop true q ≡ blocks q
unfolding BlockQueue.pop
pop-nil q v = let gone : leb q.m_size 0 ≡ true = le→leb _ _ (omega (arith, v.counted)) in rw gone

room_left :
    (q : BlockQueue Text) (l : List Text)
    → Holds q l
    → length l < q.m_max_size
    → BlockQueue.full q ≡ false
unfolding BlockQueue.full
room_left q l v h = not-le→leb _ _ (omega (arith, v.counted))

pub no_room :
    (q : BlockQueue Text) (l : List Text)
    → Holds q l
    → length l ≡ q.m_max_size
    → BlockQueue.full q ≡ true
unfolding BlockQueue.full
no_room q l v h = le→leb _ _ (omega (arith, v.counted))

and_false : (b : Bool) → (b && false) ≡ false
and_false true = refl
and_false false = refl

module _ (name : Text) (c : Log) where
  -- The logger with a file open, a queue, and what has been written.
  abbrev pub writing : BlockQueue Text → List (Text × Text) → Log
  writing q w = record c { m_log_queue = some q; m_fp = some name; written = w }

  write_one_step :
      (x : Text) (q q' : BlockQueue Text) (w : List (Text × Text))
      → BlockQueue.pop true q ≡ returns (some x) q'
      → write_one true (writing q w) ≡ returns true (writing q' (w ++ ((name, x) ∷ [])))
  unfolding write_one
  write_one_step x q q' w e = rw e

  write_one_waits :
      (q : BlockQueue Text) (w : List (Text × Text))
      → BlockQueue.pop true q ≡ blocks q
      → write_one true (writing q w) ≡ blocks (writing q w)
  unfolding write_one
  write_one_waits q w e = rw e

  -- The writer's thread: with the queue holding the lines `l` and a file open, it writes them to
  -- the file in their order and then waits at the empty queue.
  pub async_write_log-Holds :
      (l : List Text) (q : BlockQueue Text) (w : List (Text × Text))
      → Holds q l
      → (q' : BlockQueue Text) × (async_write_log (suc (length l)) true (writing q w)
          ≡ some (blocks (writing q' (w ++ lines_in name l))))
        × Holds q' []
  unfolding async_write_log
  async_write_log-Holds [] q w v = (
    q,
    rw (write_one_waits q w (pop-nil q v), async_write_log)
        (ap (λ u. some (blocks (writing q u))) (sym (append-nil w))),
    v,
  )
  async_write_log-Holds (x ∷ l) q w v =
      let (q1, popped, _, _, v1) = pop-Holds true none x q l v in
      let (q', rest, v') = async_write_log-Holds l q1 (w ++ ((name, x) ∷ [])) v1 in
      (
        q',
        rw (write_one_step x q q1 w popped, async_write_log)
            (rest
              ∙ ap (λ u. some (blocks (writing q' u)))
                  (append_assoc w ((name, x) ∷ []) (lines_in name l))),
        v',
      )

  hand_over-push :
      (line : Text) (q q' : BlockQueue Text) (w : List (Text × Text))
      → c.m_is_async ≡ true
      → BlockQueue.full q ≡ false
      → BlockQueue.push line q ≡ returns true q'
      → hand_over line (writing q w) ≡ returns tt (writing q' w)
  unfolding hand_over
  hand_over-push line q q' w async room e =
      let queued : (c.m_is_async && not (BlockQueue.full q)) ≡ true = rw (async, room) in
      rw queued (rw e)

  hand_over-fputs :
      (line : Text) (q : BlockQueue Text) (w : List (Text × Text))
      → BlockQueue.full q ≡ true
      → hand_over line (writing q w) ≡ returns tt (writing q (w ++ ((name, line) ∷ [])))
  unfolding hand_over
  hand_over-fputs line q w full =
      let direct : (c.m_is_async && not (BlockQueue.full q)) ≡ false =
        rw full (and_false c.m_is_async) in
      rw direct

  -- A line at the end of `write_log` in the asynchronous mode, with a file open and the queue
  -- holding the lines `l`; then the writer's thread runs until it waits. If there is room, the line
  -- is written behind `l`; if the queue is full, it is written in front of `l`, which is older.
  pub hand_over_then_drain :
      (line : Text) (l : List Text) (q : BlockQueue Text) (w : List (Text × Text))
      → c.m_is_async ≡ true
      → Holds q l
      → (c1 : Log) × (q' : BlockQueue Text) × (hand_over line (writing q w) ≡ returns tt c1)
        × (((length l < q.m_max_size)
              × (async_write_log (suc (suc (length l))) true c1
                  ≡ some (blocks (writing q' (w ++ lines_in name (l ++ (line ∷ [])))))))
            ⊎ ((length l ≡ q.m_max_size)
                × (async_write_log (suc (length l)) true c1
                    ≡ some (blocks (writing q' (w ++ lines_in name (line ∷ l)))))))
        × Holds q' []
  hand_over_then_drain line l q w async v = elim (push-Holds line q l v) [
    | inr (room, (q1, pushed, _, v1)) ↦
        let (q', drained, v') = async_write_log-Holds (l ++ (line ∷ [])) q1 w v1 in
        let longer : length (l ++ (line ∷ [])) ≡ suc (length l) =
          omega (arith, length-append l (line ∷ [])) in
        let handed = hand_over-push line q q1 w async (room_left q l v room) pushed in
        (
          writing q1 w,
          q',
          handed,
          inl (room, ap (λ n. async_write_log (suc n) true (writing q1 w)) (sym longer) ∙ drained),
          v',
        )
    | inl (full, refused) ↦
        let (q', drained, v') = async_write_log-Holds l q (w ++ ((name, line) ∷ [])) v in
        (
          writing q (w ++ ((name, line) ∷ [])),
          q',
          hand_over-fputs line q w (no_room q l v full),
          inr (
            full,
            drained
                ∙ ap (λ u. some (blocks (writing q' u)))
                    (append_assoc w ((name, line) ∷ []) (lines_in name l)),
          ),
          v',
        )
  ]
