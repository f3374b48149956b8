-- ===== src/Log/Whole.antt =====
-- log/log.cpp: `init` and the calls of `write_log` after it, in the synchronous mode.
use simplechatserver.Prelude.{
  ℕ, suc, ◌+◌, ◌≤◌, ◌<◌, ◌^◌, ◌≡◌, refl, sym, ap, lt→ltb, ◌∙◌, some, List, [], ◌++◌, length,
  length-replicate, arith, ℤ, pos, returns, ◌>>=◌, then_do, IsText,
}
use simplechatserver.LogText.{Text, Moment, stamp, split_last}
use simplechatserver.LogText.Parts.{part_after}
use simplechatserver.LogText.Header.{Entry}
use simplechatserver.Log.{Log, new_log, init}
use simplechatserver.Log.Rotation.{always, part}
use simplechatserver.Log.Opening.{init-returns, set_up, named}
use simplechatserver.Log.Files.{AllFit, write_logs, lines_to, write_logs-file}

-- `init` on a new logger for the synchronous mode, with `suc s` lines to a part and a file name that
-- has a slash and whose parts leave room, and then calls of `write_log` on the same date, whose lines
-- fit the buffer, where every file opens: all return, and each line has been written once, whole and
-- in order, to the file that `init` has named while the day has fewer than `suc s` lines, then to
-- that of the part which the quotient numbers; and all lines have been counted.
pub init_then_write :
    (now : Moment) (file dir name : Text) (close_log : ℤ) (size s : ℕ) (es : List Entry)
    → split_last file ≡ some (dir, name)
    → IsText file
    → length dir < 128
    → length name < 128
    → length (dir ++ (stamp now ++ name)) < 256
    → length dir + length name ≤ 250
    → length es < 10 ^ 18
    → AllFit size now.day (stamp now) es
    → (c : Log) × ((init always now file close_log (pos size) (pos (suc s)) (pos 0) >>= λ _.
            write_logs always es)
          new_log
        ≡ returns tt c)
      × (c.written
          ≡ lines_to new_log dir name (stamp now) (dir ++ (stamp now ++ name)) now.day s 0 es)
      × (c.m_count ≡ length es)
unfolding set_up new_log
init_then_write now file dir name close_log size s es e t hd hn fits short few fit =
    let full = dir ++ (stamp now ++ name) in
    let (log_name, ran, held, dir_held, joined) =
      init-returns always now file dir name close_log (pos (suc s)) (pos 0) size e t hd hn fits in
    let c0 : Log =
      named dir log_name now.day (some full) (set_up close_log (pos (suc s)) (pos 0) size) in
    let (buf', wrote, _) =
      write_logs-file c0 dir name (stamp now) full now.day s dir_held held (omega arith) refl es 0
        c0.m_buf [] (omega arith) (length-replicate size 0) fit in
    let start : part_after (part c0 dir name (stamp now) full now.day s) full s 0 ≡ full =
      rw (lt→ltb 0 (suc s) (omega arith)) in
    (
      _,
      ap (λ o. then_do o (λ _. write_logs always es)) ran
          ∙ ap (λ f. write_logs always es (record c0 { m_fp = some f })) (sym start)
          ∙ wrote,
      refl,
      omega arith,
    )
