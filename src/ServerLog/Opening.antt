-- ===== src/ServerLog/Opening.antt =====
-- log/serverlog.cpp, `init`: the switch `close_log`, and what later calls do then.
use simplechatserver.Prelude.{
  ◌≡◌, refl, Bool, true, false, List, [], ◌∷◌, ℤ, pos, int_eq, returns, ◌>>◌, pure, Method,
}
use simplechatserver.LogText.{Text, Moment}
use simplechatserver.ServerLog.{ServerLog, init, write_log, is_closed}

-- One call of `write_log` for each moment, level and message.
abbrev pub write_logs : (Text → Bool) → List (Moment × ℤ × Text) → Method ServerLog (Unit {0})
write_logs opens [] = pure tt
write_logs opens ((now, level, msg) ∷ more) = write_log opens now level msg >> write_logs opens more

write_logs_closed :
    (opens : Text → Bool) (calls : List (Moment × ℤ × Text)) (c : ServerLog)
    → is_closed c ≡ true
    → write_logs opens calls c ≡ returns tt c
unfolding write_log
write_logs_closed opens [] c e = refl
write_logs_closed opens ((now, level, msg) ∷ more) c e = rw e (write_logs_closed opens more c e)

-- `init` with `close_log` other than 0 returns `true` and only keeps the switch; from then on any
-- calls of `write_log` return and change nothing: no file is opened, and no line is kept.
pub init-closes :
    (opens opens' : Text → Bool) (created : Bool) (now : Moment) (file : Text)
    (close_log size split_lines max_queue_size : ℤ) (calls : List (Moment × ℤ × Text))
    (c : ServerLog)
    → int_eq close_log (pos 0) ≡ false
    → (init opens created now file close_log size split_lines max_queue_size c
        ≡ returns true (record c { m_close_log = close_log }))
      × (write_logs opens' calls (record c { m_close_log = close_log })
          ≡ returns tt (record c { m_close_log = close_log }))
unfolding init
init-closes opens opens' created now file close_log size split_lines max_queue_size calls c e =
    (rw e, write_logs_closed opens' calls (record c { m_close_log = close_log }) (rw e))
