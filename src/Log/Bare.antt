-- ===== src/Log/Bare.antt =====
-- log/log.cpp: a file name without a slash.
use simplechatserver.Prelude.{
  ℕ, suc, ◌<◌, ◌≡◌, refl, ap, true, false, none, some, ◌++◌, append-nil, length, length-take, take,
  ◌==◌, arith, ℤ, pos, returns, zeros, c_string,
}
use simplechatserver.LogText.{Text, Moment, stamp, split_last}
use simplechatserver.Log.{
  Log, new_log, init, count_line, next_name, open_named, name_file, start_async,
}
use simplechatserver.Log.Rotation.{always, print_whole}
use simplechatserver.Log.Opening.{Unnamed, print_name, start_async-Unnamed}

bare_name :
    (now : Moment) (file : Text) (c : Log)
    → split_last file ≡ none
    → length (stamp now ++ file) < 256
    → name_file file now c ≡ some (stamp now ++ file, c)
bare_name now file c e fits = rw (e, name_file) (rw (print_name (stamp now ++ file) fits))

bare_next :
    (later : Moment) (c : Log)
    → Unnamed c
    → (later.day == c.m_today) ≡ false
    → next_name later c ≡ some (take 15 (stamp later))
unfolding c_string
bare_next later c (d, n) other =
    rw (d, n, other)
      (rw (append-nil (take 15 (stamp later)))
        (print_whole (take 15 (stamp later)) (omega (arith, length-take 15 (stamp later)))))

-- `init` on a new logger with a file name without a slash, where every file opens: the file is
-- named by the date and the name; but the name is not kept, and on another day the next file is
-- named by its date alone.
pub init_forgets :
    (now later : Moment) (file : Text) (close_log split_lines max_queue_size : ℤ) (size : ℕ)
    → split_last file ≡ none
    → length (stamp now ++ file) < 256
    → (later.day == now.day) ≡ false
    → (c c' : Log) × (init always now file close_log (pos size) split_lines max_queue_size new_log
        ≡ returns true c)
      × (c.m_fp ≡ some (stamp now ++ file))
      × (count_line always later c ≡ returns tt c')
      × (c'.m_fp ≡ some (take 15 (stamp later)))
unfolding init count_line new_log
init_forgets now later file close_log split_lines max_queue_size size e fits other =
    let c0 : Log = record (start_async max_queue_size new_log) {
      m_close_log = close_log;
      m_log_buf_size = size;
      m_buf = zeros size;
      m_split_lines = split_lines;
    } in
    let c1 : Log = record c0 { m_today = now.day; m_fp = some (stamp now ++ file) } in
    let c2 : Log = record c1 { m_count = suc c1.m_count } in
    (
      c1,
      record c2 { m_today = later.day; m_fp = some (take 15 (stamp later)); m_count = 0 },
      ap (open_named always now) (bare_name now file c0 e fits),
      refl,
      rw other (rw (bare_next later c2 (start_async-Unnamed max_queue_size) other) (rw other)),
      refl,
    )
