-- ===== src/Log/Threads/Effects.antt =====
-- What each stretch of `write_log` and of `async_write_log` does to the queue and to what is written.
use simplechatserver.Prelude.{
  suc, ◌≡◌, refl, subst, inl, inr, Bool, Option-cases, true, false, Option, none, some, List, [],
  ◌∷◌, ◌++◌, ℤ, Outcome, returns, throws, blocks, undefined, put_back,
}
use simplechatserver.BlockQueue
use simplechatserver.BlockQueue.{BlockQueue}
use simplechatserver.BlockQueue.Refinement.{Holds, push-Holds, pop-Holds}
use simplechatserver.LogText.{Text, Moment}
use simplechatserver.Log.{
  Log, count_line, rotate_if, rotate, reopen, is_due, next_name, format_line, take_line, fputs,
  on_queue, is_full,
}
use simplechatserver.Log.Draining.{pop-nil, no_room}

-- The logger `c'` has the queue of `c`, and has written the same lines.
abbrev pub Alike : Log → Log → Type 0
Alike c c' = (c'.m_log_queue ≡ c.m_log_queue) × (c'.written ≡ c.written)

-- A call that returns leaves the queue and the written lines of `c`.
abbrev pub Keeps {ℓ} : {A : Type ℓ} → Log → Outcome Log A → Type 0
Keeps c (returns a c') = Alike c c'
Keeps c (throws e c') = Unit
Keeps c (blocks c') = Unit
Keeps c undefined = Unit

reopen-Keeps :
    (opens : Text → Bool) (now : Moment) (name : Option Text) (c : Log)
    → Keeps c (reopen opens now name c)
reopen-Keeps opens now none c = tt
reopen-Keeps opens now (some name) c = (refl, refl)

rotate-Keeps : (opens : Text → Bool) (now : Moment) (c : Log) → Keeps c (rotate opens now c)
rotate-Keeps opens now c =
    elim c.m_fp
      as (λ fp.
        Keeps c (elim fp [ none ↦ undefined | some old ↦ reopen opens now (next_name now c) c ])) [
          | none ↦ tt
          | some old ↦ reopen-Keeps opens now (next_name now c) c
        ]

rotate_if-Keeps :
    (opens : Text → Bool) (now : Moment) (due : Option Bool) (c : Log)
    → Keeps c (rotate_if opens now due c)
rotate_if-Keeps opens now none c = tt
rotate_if-Keeps opens now (some true) c = rotate-Keeps opens now c
rotate_if-Keeps opens now (some false) c = (refl, refl)

pub count_line-Keeps :
    (opens : Text → Bool) (now : Moment) (c : Log) → Keeps c (count_line opens now c)
unfolding count_line
count_line-Keeps opens now c =
    let c' : Log = record c { m_count = suc c.m_count } in
    rotate_if-Keeps opens now (is_due now c') c'

take_line-Keeps : (o : Option (Text × Text)) (c : Log) → Keeps c (take_line o c)
take_line-Keeps none c = tt
take_line-Keeps (some (line, buf)) c = (refl, refl)

pub format_line-Keeps :
    (now : Moment) (level : ℤ) (msg : Text) (c : Log) → Keeps c (format_line now level msg c)
unfolding format_line
format_line-Keeps now level msg c = take_line-Keeps _ c

-- What `fputs` does, where it returns: one more line is written, to some file.
abbrev pub Puts : Text → Log → Outcome Log (Unit {0}) → Type 0
Puts line c (returns _ c') =
    (c'.m_log_queue ≡ c.m_log_queue)
    × ((name : Text) × (c'.written ≡ c.written ++ ((name, line) ∷ [])))
Puts line c _ = Unit

pub fputs-Puts : (line : Text) (c : Log) → Puts line c (fputs line c)
fputs-Puts line c = elim (Option-cases c.m_fp) [
  | inl e ↦ rw e tt
  | inr (name, e) ↦ rw e (refl, (name, refl))
]

-- The queue of the logger, if it has one, holds the lines `l`.
abbrev pub QueueHolds : Option (BlockQueue Text) → List Text → Type 0
QueueHolds none l = l ≡ []
QueueHolds (some q) l = Holds q l

-- What `push` does, where it returns: the line is behind the others, or refused.
abbrev pub Pushes : Text → List Text → Log → Outcome Log Bool → Type 0
Pushes line l c (returns true c') =
    QueueHolds c'.m_log_queue (l ++ (line ∷ [])) × (c'.written ≡ c.written)
Pushes line l c (returns false c') =
    QueueHolds c'.m_log_queue l × (c'.written ≡ c.written) × (is_full c.m_log_queue ≡ true)
Pushes line l c _ = Unit

pub push-Pushes :
    (line : Text) (l : List Text) (c : Log)
    → QueueHolds c.m_log_queue l
    → Pushes line l c (on_queue (BlockQueue.push line) c)
push-Pushes line l c h = elim (Option-cases c.m_log_queue) [
  | inl e ↦ rw e tt
  | inr (q, e) ↦
      let v : Holds q l = subst (λ o. QueueHolds o l) e h in
      elim (push-Holds line q l v) [
        | inl (full, refused) ↦ rw (e, refused) (v, refl, no_room q l v full)
        | inr (room, (q', taken, same, v')) ↦ rw (e, taken) (v', refl)
      ]
]

-- What `pop` does, where it returns: the oldest line is taken out.
abbrev pub Pops : List Text → Log → Outcome Log (Option Text) → Type 0
Pops l c (returns (some line) c') =
    (rest : List Text) × (l ≡ line ∷ rest)
    × QueueHolds c'.m_log_queue rest
    × (c'.written ≡ c.written)
Pops l c _ = Unit

pub pop-Pops :
    (l : List Text) (c : Log)
    → QueueHolds c.m_log_queue l
    → Pops l c (on_queue (BlockQueue.pop true) c)
pop-Pops l c h = elim (Option-cases c.m_log_queue) [
  | inl e ↦ rw e tt
  | inr (q, e) ↦ let v : Holds q l = subst (λ o. QueueHolds o l) e h in rw e (go l q v)
]
  where
    go :
        (l : List Text) (q : BlockQueue Text)
        → Holds q l
        → Pops l c (put_back (λ q'. record c { m_log_queue = some q' }) (BlockQueue.pop true q))
    go [] q v = rw (pop-nil q v) tt
    go (line ∷ rest) q v =
        let (q', popped, _, _, v') = pop-Holds true none line q rest v in
        rw popped (rest, refl, v', refl)
