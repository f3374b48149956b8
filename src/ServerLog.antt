-- ===== src/ServerLog.antt =====
-- log/serverlog.h and log/serverlog.cpp, class ServerLog. As for class Log, the date, the text of a
-- message and what `fopen` answers are arguments, and the text given to `fputs` is recorded.
pub mod Opening
pub mod Writing
pub mod Queueing
pub mod Files
mod Tests
use simplechatserver.Prelude.{
  ℕ, zero, suc, ◌+◌, Bool, true, false, ◌&&◌, Option, none, some, List, [], ◌∷◌, ◌++◌, length, take,
  ◌==◌, if◌then◌else◌, ℤ, pos, negsuc, is_positive, is_negative, rounds_of, int_eq, Outcome,
  returns, throws, undefined, Method, ◌>>=◌, ◌>>◌, pure, throw, bad_array_length, zeros, copy_at,
  copy_string, c_string, codes,
}
use simplechatserver.SafeQueue
use simplechatserver.SafeQueue.{SafeQueue}
use simplechatserver.LogText.{
  Text, Moment, stamp, header, split_last, print_into, divides, quotient_text, and_then, size_minus,
  compose_line,
}

pub record ServerLog : Type 0 where
  pub dir_name : Text
  pub log_name : Text
  pub m_split_lines : ℤ
  pub m_log_buf_size : ℕ
  pub m_count : ℕ
  pub m_today : ℕ
  pub m_fp : Option Text
  pub m_buf : Text
  pub m_log_queue : Option (SafeQueue Text)
  pub m_is_async : Bool
  pub m_close_log : ℤ
  pub written : List (Text × Text)

-- `ServerLog()`; the object has static storage, so the names are zero.
unfoldable pub new_log : ServerLog
new_log = record {
  dir_name = zeros 128;
  log_name = zeros 128;
  m_split_lines = pos 5000000;
  m_log_buf_size = 8192;
  m_count = 0;
  m_today = 0;
  m_fp = none;
  m_buf = [];
  m_log_queue = none;
  m_is_async = false;
  m_close_log = pos 0;
  written = [];
}

-- `if (m_close_log)`
abbrev pub is_closed : ServerLog → Bool
is_closed c = if int_eq c.m_close_log (pos 0) then false else true

-- `m_log_buf_size` up to `m_split_lines`.
abbrev pub allocate : ℤ → ℤ → Method ServerLog (Unit {0})
allocate log_buf_size split_lines c =
    if is_negative log_buf_size
    then throws bad_array_length c
    else returns tt (record c {
      m_log_buf_size = rounds_of log_buf_size;
      m_buf = zeros (rounds_of log_buf_size);
      m_split_lines = split_lines;
    })

-- `strcpy(log_name, p + 1); strncpy(dir_name, file_name, p - file_name + 1);`
abbrev pub store_names : Text → Text → ServerLog → Option ServerLog
store_names dir name c = and_then (copy_string name c.log_name) λ log_name.
    and_then (copy_at 0 dir c.dir_name)
      λ dir_name. some (record c { log_name = log_name; dir_name = dir_name })

-- The two names as `%s` prints them, with a text between them and one behind.
abbrev pub with_names : Text → Text → ServerLog → Option Text
with_names between behind c =
    and_then (c_string c.dir_name)
      λ dir. and_then (c_string c.log_name) λ name. some (dir ++ (between ++ (name ++ behind)))

-- `log_full_name[256]`, printed for 255 bytes.
abbrev pub name_file : Text → Moment → ServerLog → Option (Text × ServerLog)
name_file file_name now c = elim (split_last file_name) [
  | none ↦ and_then (print_into 256 255 (stamp now ++ file_name)) λ full. some (full, c)
  | some (dir, name) ↦ and_then (store_names dir name c) λ c'.
      and_then (with_names (stamp now) [] c')
        λ text. and_then (print_into 256 255 text) λ full. some (full, c')
]

-- `fopen(name, "a")`
abbrev pub opened : (Text → Bool) → Text → Option Text
opened opens name = if opens name then some name else none

-- The queue and its thread, which `pthread_create` makes or not.
abbrev pub start_async : ℤ → Bool → Method ServerLog Bool
start_async max_queue_size created c =
    if is_positive max_queue_size
    then returns created (record c {
      m_is_async = created;
      m_log_queue = if created then some (SafeQueue.create_bounded max_queue_size) else none;
    })
    else returns true c

abbrev pub open_named :
    (Text → Bool)
    → Moment
    → Option (Text × ServerLog)
    → Method ServerLog Bool
    → Outcome ServerLog Bool
open_named opens now none next = undefined
open_named opens now (some (full, c)) next =
    if opens full
    then next (record c { m_today = now.day; m_fp = some full })
    else returns false (record c { m_today = now.day; m_fp = none })

-- `init(file_name, close_log, log_buf_size, split_lines, max_queue_size)`
unfoldable pub init : (Text → Bool) → Bool → Moment → Text → ℤ → ℤ → ℤ → ℤ → Method ServerLog Bool
init opens created now file_name close_log log_buf_size split_lines max_queue_size c =
    let c0 = record c { m_close_log = close_log } in
    if is_closed c0
    then returns true c0
    else (allocate log_buf_size split_lines >>= λ _ c'.
          open_named opens now (name_file file_name now c') (start_async max_queue_size created))
        c0

-- `level_str[level]`, with 1 for a level that is out of range.
abbrev pub level_text : ℤ → Text
level_text (pos zero) = codes "[DEBUG]"
level_text (pos (suc zero)) = codes "[INFO]"
level_text (pos (suc (suc zero))) = codes "[WARN]"
level_text (pos (suc (suc (suc zero)))) = codes "[ERROR]"
level_text _ = codes "[INFO]"

-- The name of the next file: of a new day, or of a further part of the same day.
abbrev pub next_name : Moment → ServerLog → Option Text
next_name now c =
    and_then
      (with_names (take 14 (stamp now))
        (if now.day == c.m_today then b'.' ∷ quotient_text c.m_split_lines c.m_count else []) c)
      (print_into 256 255)

-- The result is `false` where `write_log` unlocks and returns.
abbrev pub reopen : (Text → Bool) → Moment → Option Text → Method ServerLog Bool
reopen opens now none c = undefined
reopen opens now (some name) c = returns (opens name) (record c {
  m_fp = opened opens name;
  m_today = now.day;
  m_count = if now.day == c.m_today then c.m_count else 1;
})

-- `fflush(m_fp); fclose(m_fp);` and the next file.
abbrev pub rotate : (Text → Bool) → Moment → Method ServerLog Bool
rotate opens now c = elim c.m_fp [
  | none ↦ undefined
  | some old ↦ reopen opens now (next_name now c) c
]

abbrev pub rotate_if : (Text → Bool) → Moment → Option Bool → Method ServerLog Bool
rotate_if opens now none c = undefined
rotate_if opens now (some b) c = if b then rotate opens now c else returns true c

-- `m_today != my_tm.tm_mday || m_count % m_split_lines == 0`
abbrev pub is_due : Moment → ServerLog → Option Bool
is_due now c = if now.day == c.m_today then divides c.m_split_lines c.m_count else some true

-- `m_count++` and the change of files.
unfoldable pub count_line : (Text → Bool) → Moment → Method ServerLog Bool
count_line opens now c =
    let c' = record c { m_count = suc c.m_count } in rotate_if opens now (is_due now c') c'

abbrev pub take_line : Option (Text × Text) → Method ServerLog Text
take_line none c = undefined
take_line (some (line, buf)) c = returns line (record c { m_buf = buf })

-- The two prints into `m_buf`, up to `log_str`.
unfoldable pub format_line : Moment → ℤ → Text → Method ServerLog Text
format_line now level msg c =
    let head = header now (level_text level) in
    let size = c.m_log_buf_size in
    take_line
      (compose_line (size_minus size 1) (size_minus size (length head + 2)) head msg c.m_buf) c

-- `fputs(text, m_fp)`
abbrev pub fputs : Text → Method ServerLog (Unit {0})
fputs text c = elim c.m_fp [
  | none ↦ undefined
  | some name ↦ returns tt (record c { written = c.written ++ ((name, text) ∷ []) })
]

abbrev pub enqueue : Text → Option (SafeQueue Text) → Method ServerLog (Unit {0})
enqueue line none c = fputs line c
enqueue line (some q) c = returns tt (record c { m_log_queue = some (SafeQueue.push line q) })

-- `if (m_is_async && m_log_queue != NULL)`
unfoldable pub hand_over : Text → Method ServerLog (Unit {0})
hand_over line c = if c.m_is_async then enqueue line c.m_log_queue c else fputs line c

abbrev pub format_if : Moment → ℤ → Text → Bool → Method ServerLog (Unit {0})
format_if now level msg false = pure tt
format_if now level msg true = format_line now level msg >>= hand_over

-- `write_log(level, format, …)`, one step under the mutex; `msg` is what the format and its
-- arguments print.
unfoldable pub write_log : (Text → Bool) → Moment → ℤ → Text → Method ServerLog (Unit {0})
unfolding count_line format_line hand_over
write_log opens now level msg c =
    if is_closed c then returns tt c else (count_line opens now >>= format_if now level msg) c
