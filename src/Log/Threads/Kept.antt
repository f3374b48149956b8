-- ===== src/Log/Threads/Kept.antt =====
-- Where each line of `write_log` is, in every interleaving.
use simplechatserver.Prelude.{
  ℕ, zero, suc, ◌+◌, ◌≡◌, refl, sym, ap, subst, ◌∙◌, Bool, true, false, Option, none, some, List,
  [], ◌∷◌, ◌++◌, append_assoc, replicate, total, total-append, total-set, arith, not, ◌&&◌,
  if◌then◌else◌, returns,
}
use simplechatserver.LogText.{Text}
use simplechatserver.Log.{Log, is_full}
use simplechatserver.Log.Threads.{
  Pc, idle, formatting, testing, pushing, printing, Threads, Step, counts, formats, tests, pushes,
  prints, pops, puts, Reach, begun, next,
}
use simplechatserver.Log.Threads.Effects.{
  Alike, Keeps, Puts, Pushes, Pops, QueueHolds, count_line-Keeps, format_line-Keeps, fputs-Puts,
  push-Pushes, pop-Pops,
}

-- How often a thread has the line: `f` is the weight of each text.
abbrev pub held_by : (Text → ℕ) → Pc → ℕ
held_by f idle = 0
held_by f (formatting now level msg) = 0
held_by f (testing line) = f line
held_by f (pushing line) = f line
held_by f (printing line) = f line

abbrev pub in_hand : Option Text → List Text
in_hand none = []
in_hand (some line) = line ∷ []

-- The lines written to any file, counted by the weight `f`.
abbrev pub written_weight : (Text → ℕ) → Log → ℕ
written_weight f c = total (λ (w : Text × Text). f w.1) c.written

-- With the lines `l` in the queue: every line that has been formatted is in one place.
pub record Accounts (t : Threads) (l : List Text) : Type 0 where
  pub holds : QueueHolds t.log.m_log_queue l
  pub kept :
      (f : Text → ℕ)
      → written_weight f t.log
          + total f l
          + total f (in_hand t.single_log)
          + total (held_by f) t.threads
          + total f t.lost
        ≡ total f t.formatted
  pub in_order : t.by_writer ++ (in_hand t.single_log ++ l) ≡ t.pushed

held_by_either :
    (f : Text → ℕ) (line : Text) (b : Bool)
    → held_by f (if b then pushing line else printing line) ≡ f line
held_by_either f line true = refl
held_by_either f line false = refl

written_same :
    (f : Text → ℕ) (c c' : Log) → c'.written ≡ c.written → written_weight f c' ≡ written_weight f c
written_same f c c' = ap (total (λ (w : Text × Text). f w.1))

written_more :
    (f : Text → ℕ) (name line : Text) (c c' : Log)
    → c'.written ≡ c.written ++ ((name, line) ∷ [])
    → written_weight f c' ≡ written_weight f c + f line
written_more f name line c c' e =
    let weight = λ (w : Text × Text). f w.1 in
    ap (total weight) e ∙ total-append weight c.written ((name, line) ∷ []) ∙ omega arith

Step-Accounts :
    {t u : Threads} (l : List Text) → Accounts t l → Step t u → (l' : List Text) × Accounts u l'
Step-Accounts {t} l a (counts i opens now level msg c at e) =
    let (queue, written) : Alike t.log c =
      subst (Keeps t.log) e (count_line-Keeps opens now t.log) in
    (
      l,
      record {
        holds = subst (λ o. QueueHolds o l) (sym queue) a.holds;
        kept = λ f.
            let moved = total-set (held_by f) t.threads i idle (formatting now level msg) at in
            omega (arith, a.kept f, written_same f t.log c written);
        in_order = a.in_order;
      },
    )
Step-Accounts {t} l a (formats i now level msg line c at e) =
    let (queue, written) : Alike t.log c =
      subst (Keeps t.log) e (format_line-Keeps now level msg t.log) in
    (
      l,
      record {
        holds = subst (λ o. QueueHolds o l) (sym queue) a.holds;
        kept = λ f.
            let moved =
              total-set (held_by f) t.threads i (formatting now level msg) (testing line) at in
            omega (
              arith,
              a.kept f,
              written_same f t.log c written,
              total-append f t.formatted (line ∷ []),
            );
        in_order = a.in_order;
      },
    )
Step-Accounts {t} l a (tests i line at) =
    let b = t.log.m_is_async && not (is_full t.log.m_log_queue) in
    (
      l,
      record {
        holds = a.holds;
        kept = λ f.
            let moved =
              total-set (held_by f) t.threads i (testing line)
                (if b then pushing line else printing line) at in
            omega (arith, a.kept f, held_by_either f line b);
        in_order = a.in_order;
      },
    )
Step-Accounts {t} l a (pushes i line true c at e) =
    let (holds, written) : Pushes line l t.log (returns true c) =
      subst (Pushes line l t.log) e (push-Pushes line l t.log a.holds) in
    (
      l ++ (line ∷ []),
      record {
        holds = holds;
        kept = λ f.
            let moved = total-set (held_by f) t.threads i (pushing line) idle at in
            omega (arith, a.kept f, written_same f t.log c written, total-append f l (line ∷ []));
        in_order =
            ap (λ xs. t.by_writer ++ xs) (sym (append_assoc (in_hand t.single_log) l (line ∷ [])))
            ∙ sym (append_assoc t.by_writer _ (line ∷ []))
            ∙ ap (λ xs. xs ++ (line ∷ [])) a.in_order;
      },
    )
Step-Accounts {t} l a (pushes i line false c at e) =
    let (holds, written, full) : Pushes line l t.log (returns false c) =
      subst (Pushes line l t.log) e (push-Pushes line l t.log a.holds) in
    (
      l,
      record {
        holds = holds;
        kept = λ f.
            let moved = total-set (held_by f) t.threads i (pushing line) idle at in
            omega
              (arith, a.kept f, written_same f t.log c written, total-append f t.lost (line ∷ []));
        in_order = a.in_order;
      },
    )
Step-Accounts {t} l a (prints i line c at e) =
    let (queue, (name, written)) : Puts line t.log (returns tt c) =
      subst (Puts line t.log) e (fputs-Puts line t.log) in
    (
      l,
      record {
        holds = subst (λ o. QueueHolds o l) (sym queue) a.holds;
        kept = λ f.
            let moved = total-set (held_by f) t.threads i (printing line) idle at in
            omega (arith, a.kept f, written_more f name line t.log c written);
        in_order = a.in_order;
      },
    )
Step-Accounts {t} l a (pops line c free e) =
    let (rest, oldest, holds, written) : Pops l t.log (returns (some line) c) =
      subst (Pops l t.log) e (pop-Pops l t.log a.holds) in
    (
      rest,
      record {
        holds = holds;
        kept = λ f.
            let taken : total f l ≡ f line + total f rest = ap (total f) oldest in
            let empty : total f (in_hand t.single_log) ≡ 0 = ap (λ o. total f (in_hand o)) free in
            omega (arith, a.kept f, written_same f t.log c written);
        in_order =
            ap (λ xs. t.by_writer ++ xs) (sym (ap (λ o. in_hand o ++ l) free ∙ oldest))
            ∙ a.in_order;
      },
    )
Step-Accounts {t} l a (puts line c has e) =
    let (queue, (name, written)) : Puts line t.log (returns tt c) =
      subst (Puts line t.log) e (fputs-Puts line t.log) in
    (
      l,
      record {
        holds = subst (λ o. QueueHolds o l) (sym queue) a.holds;
        kept = λ f.
            let held : total f (in_hand t.single_log) ≡ f line + 0 =
              ap (λ o. total f (in_hand o)) has in
            omega (arith, a.kept f, written_more f name line t.log c written);
        in_order =
            append_assoc t.by_writer (line ∷ []) l
            ∙ ap (λ o. t.by_writer ++ (in_hand o ++ l)) (sym has)
            ∙ a.in_order;
      },
    )

idle_weight : (f : Text → ℕ) (m : ℕ) → total (held_by f) (replicate m idle) ≡ 0
idle_weight f zero = refl
idle_weight f (suc m) = omega (arith, idle_weight f m)

pub Reach-Accounts :
    {m : ℕ} {c : Log} {t : Threads}
    → QueueHolds c.m_log_queue []
    → c.written ≡ []
    → Reach m c t
    → (l : List Text) × Accounts t l
Reach-Accounts {m} {c} holds blank begun = (
  [],
  record {
    holds = holds;
    kept = λ f.
        let none_written : written_weight f c ≡ 0 = ap (total (λ (w : Text × Text). f w.1)) blank in
        omega (arith, idle_weight f m);
    in_order = refl;
  },
)
Reach-Accounts holds blank (next r s) =
    let (l, a) = Reach-Accounts holds blank r in Step-Accounts l a s

-- In every interleaving of `m` threads in `write_log` with the writing thread, from a logger with an
-- empty queue or none: each formatted line is in exactly one place, as often as it was formatted:
-- written to a file, in the queue (whose lines are `l`), in the hand of the writing thread, with a
-- thread on its way to the queue or the file, or refused by `push` and lost; and the lines that
-- `push` has taken come out in their order, first those that the writing thread has written, then
-- that in its hand, then `l`.
pub lines_kept :
    {m : ℕ} {c : Log} {t : Threads}
    → QueueHolds c.m_log_queue []
    → c.written ≡ []
    → Reach m c t
    → (l : List Text) × QueueHolds t.log.m_log_queue l
      × ((f : Text → ℕ)
          → written_weight f t.log
              + total f l
              + total f (in_hand t.single_log)
              + total (held_by f) t.threads
              + total f t.lost
            ≡ total f t.formatted)
      × (t.by_writer ++ (in_hand t.single_log ++ l) ≡ t.pushed)
lines_kept holds blank r =
    let (l, a) = Reach-Accounts holds blank r in (l, a.holds, a.kept, a.in_order)
