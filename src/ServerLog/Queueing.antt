-- ===== src/ServerLog/Queueing.antt =====
-- log/serverlog.cpp: the queue of the asynchronous mode, and what follows when the next file cannot
-- be opened.
use simplechatserver.Prelude.{
  ℕ, suc, ◌≡◌, refl, sym, ap, ◌∙◌, inl, inr, Bool, Option-cases, true, false, Option, none, some,
  List, [], ◌∷◌, ◌++◌, append-nil, append_assoc, length, length-take, take, ltb, lt→ltb, ◌==◌, ℤ,
  pos, returns, undefined, ◌>>◌, ◌>>=◌, pure, Method, c_string, arith,
}
use simplechatserver.SafeQueue
use simplechatserver.SafeQueue.{SafeQueue}
use simplechatserver.LogText.{Text, Moment, header, stamp, compose_line}
use simplechatserver.ServerLog.{
  ServerLog, level_text, write_log, hand_over, is_closed, is_due, take_line, start_async,
}

-- The end of `write_log` for one line after the other.
abbrev pub hand_all : List Text → Method ServerLog (Unit {0})
hand_all [] = pure tt
hand_all (line ∷ lines) = hand_over line >> hand_all lines

hand_all-push :
    (lines : List Text) (q : SafeQueue Text) (c : ServerLog)
    → hand_all lines (record c { m_is_async = true; m_log_queue = some q })
      ≡ returns tt
          (record c { m_is_async = true; m_log_queue = some (record q { list = q.list ++ lines }) })
unfolding hand_over SafeQueue.push
hand_all-push [] q c =
    ap
      (λ l. returns tt (record c { m_is_async = true; m_log_queue = some (record q { list = l }) }))
      (sym (append-nil q.list))
hand_all-push (line ∷ lines) q c =
    hand_all-push lines (record q { list = q.list ++ (line ∷ []) }) c
    ∙ ap
        (λ l.
          returns tt (record c { m_is_async = true; m_log_queue = some (record q { list = l }) }))
        (append_assoc q.list (line ∷ []) lines)

-- In the asynchronous mode that `init` starts for a queue of `suc m` lines, any number of lines is
-- queued, in order, and none is written: the size that was asked for is no bound.
pub hand_all-unbounded :
    (m : ℕ) (lines : List Text) (c : ServerLog)
    → (c1 c2 : ServerLog) × (q : SafeQueue Text) × (start_async (pos (suc m)) true c
        ≡ returns true c1)
      × (hand_all lines c1 ≡ returns tt c2)
      × (c2.m_log_queue ≡ some q)
      × (q.list ≡ lines)
      × (q.m_max_count ≡ pos (suc m))
      × (c2.written ≡ c.written)
unfolding SafeQueue.create_bounded
hand_all-unbounded m lines c =
    let q : SafeQueue Text = SafeQueue.create_bounded (pos (suc m)) in
    (
      record c { m_is_async = true; m_log_queue = some q },
      record c { m_is_async = true; m_log_queue = some (record q { list = lines }) },
      record q { list = lines },
      refl,
      hand_all-push lines q c,
      refl,
      refl,
      refl,
      refl,
    )

-- With no file, an open logger in the synchronous mode cannot write: whatever the date and the
-- count are, a null file is closed or written to, or a division by zero comes first.
null_file-write_log :
    (opens : Text → Bool) (now : Moment) (level : ℤ) (msg : Text) (c : ServerLog)
    → is_closed c ≡ false
    → c.m_is_async ≡ false
    → c.m_fp ≡ none
    → write_log opens now level msg c ≡ undefined
unfolding write_log
null_file-write_log opens now level msg c live sync gone =
    rw live (elim (Option-cases (is_due now (record c { m_count = suc c.m_count }))) [
      | inl zero_split ↦ rw zero_split
      | inr (true, due) ↦ rw due (rw gone)
      | inr (false, not_due) ↦ rw not_due (unwritten (compose_line _ _ head msg c.m_buf))
    ])
  where
    head : Text
    head = header now (level_text level)

    unwritten :
        (o : Option (Text × Text))
        → (take_line o >>= hand_over) (record c { m_count = suc c.m_count }) ≡ undefined
    unwritten none = refl
    unwritten (some (line, buf)) = rw (sync, gone)

-- The first line of another day on an open logger in the synchronous mode, where the new file
-- cannot be opened: `write_log` returns and the line is lost; and the next call of `write_log`,
-- whatever its date, level and text and whatever can be opened then, is undefined.
pub failed_reopen_twice :
    (opens : Text → Bool) (t t' : Moment) (level level' : ℤ) (msg msg' dir name file : Text)
    (c : ServerLog)
    → is_closed c ≡ false
    → c.m_is_async ≡ false
    → c.m_fp ≡ some file
    → c_string c.dir_name ≡ some dir
    → c_string c.log_name ≡ some name
    → (t.day == c.m_today) ≡ false
    → (c' : ServerLog) × (write_log (λ _. false) t level msg c ≡ returns tt c')
      × (c'.written ≡ c.written)
      × (write_log opens t' level' msg' c' ≡ undefined)
unfolding write_log
failed_reopen_twice opens t t' level level' msg msg' dir name file c live sync held d n other =
    let c' : ServerLog = record c { m_fp = none; m_today = t.day; m_count = 1 } in
    let text = dir ++ (take 14 (stamp t) ++ (name ++ [])) in
    let fits : ltb (length (take 254 text)) 256 ≡ true =
      lt→ltb _ _ (omega (arith, length-take 254 text)) in
    (
      c',
      rw (live, other) (rw (held, d, n, other) (rw fits (rw other))),
      refl,
      null_file-write_log opens t' level' msg' c' live sync refl,
    )
