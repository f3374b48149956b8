-- ===== src/Log.antt =====
-- log/log.h and log/log.cpp, class Log. The date, the text of a message and what `fopen` answers
-- are arguments; the text given to `fputs` is recorded with the name of its file.
pub mod Opening
pub mod Writing
pub mod Rotation
pub mod Files
pub mod Whole
pub mod Bare
pub mod Draining
pub mod Threads
mod Tests
use simplechatserver.Prelude.{
  ℕ, zero, suc, ◌+◌, Bool, true, false, not, ◌&&◌, Option, none, some, List, [], ◌∷◌, ◌++◌, length,
  take, ◌==◌, if◌then◌else◌, ℤ, pos, negsuc, is_positive, is_negative, rounds_of, int_eq, Outcome,
  returns, throws, blocks, undefined, Method, ◌>>=◌, ◌>>◌, pure, throw, put_back, bad_array_length,
  zeros, copy_at, copy_string, c_string, codes,
}
use simplechatserver.BlockQueue
use simplechatserver.BlockQueue.{BlockQueue}
use simplechatserver.LogText.{
  Text, Moment, stamp, header, split_last, print_into, divides, quotient_text, and_then, size_minus,
  compose_line,
}

pub record Log : Type 0 where
  pub dir_name : Text
  pub log_name : Text
  pub m_split_lines : ℤ
  pub m_log_buf_size : ℕ
  pub m_count : ℕ
  pub m_today : ℕ
  pub m_fp : Option Text
  pub m_buf : Text
  pub m_log_queue : Option (BlockQueue Text)
  pub m_is_async : Bool
  pub m_close_log : ℤ
  pub written : List (Text × Text)

-- `Log()`. The only object has static storage, which is zero before the constructor runs.
unfoldable pub new_log : Log
new_log = record {
  dir_name = zeros 128;
  log_name = zeros 128;
  m_split_lines = pos 0;
  m_log_buf_size = 0;
  m_count = 0;
  m_today = 0;
  m_fp = none;
  m_buf = [];
  m_log_queue = none;
  m_is_async = false;
  m_close_log = pos 0;
  written = [];
}

-- `max_queue_size >= 1`: the queue for the lines. The thread that empties it is `async_write_log`.
abbrev pub start_async : ℤ → Log → Log
start_async max_queue_size c =
    if is_positive max_queue_size
    then record c { m_is_async = true; m_log_queue = BlockQueue.create [] max_queue_size }
    else c

-- `m_close_log` up to `m_split_lines`: the buffer, filled with zeros.
abbrev pub allocate : ℤ → ℤ → ℤ → Method Log (Unit {0})
allocate close_log log_buf_size split_lines c =
    if is_negative log_buf_size
    then throws bad_array_length c
    else returns tt (record c {
      m_close_log = close_log;
      m_log_buf_size = rounds_of log_buf_size;
      m_buf = zeros (rounds_of log_buf_size);
      m_split_lines = split_lines;
    })

-- `strcpy(log_name, p + 1); strncpy(dir_name, file_name, p - file_name + 1);`
abbrev pub store_names : Text → Text → Log → Option Log
store_names dir name c = and_then (copy_string name c.log_name) λ log_name.
    and_then (copy_at 0 dir c.dir_name)
      λ dir_name. some (record c { log_name = log_name; dir_name = dir_name })

-- The two names as `%s` prints them, with a text between them and one behind.
abbrev pub with_names : Text → Text → Log → Option Text
with_names between behind c =
    and_then (c_string c.dir_name)
      λ dir. and_then (c_string c.log_name) λ name. some (dir ++ (between ++ (name ++ behind)))

-- The server's own copy of the name, and `log_full_name[256]`, printed for 300 bytes.
abbrev pub name_file : Text → Moment → Log → Option (Text × Log)
name_file file_name now c = elim (split_last file_name) [
  | none ↦ and_then (print_into 256 300 (stamp now ++ file_name)) λ full. some (full, c)
  | some (dir, name) ↦ and_then (store_names dir name c) λ c'.
      and_then (with_names (stamp now) [] c')
        λ text. and_then (print_into 256 300 text) λ full. some (full, c')
]

-- `fopen(name, "a")`
abbrev pub opened : (Text → Bool) → Text → Option Text
opened opens name = if opens name then some name else none

abbrev pub is_open : Option Text → Bool
is_open none = false
is_open (some name) = true

abbrev pub open_named : (Text → Bool) → Moment → Option (Text × Log) → Outcome Log Bool
open_named opens now none = undefined
open_named opens now (some (full, c)) =
    returns (is_open (opened opens full)) (record c { m_today = now.day; m_fp = opened opens full })

-- `init(file_name, close_log, log_buf_size, split_lines, max_queue_size)`
unfoldable pub init : (Text → Bool) → Moment → Text → ℤ → ℤ → ℤ → ℤ → Method Log Bool
init opens now file_name close_log log_buf_size split_lines max_queue_size c =
    (allocate close_log log_buf_size split_lines >>= λ _ c'.
    open_named opens now (name_file file_name now c'))
      (start_async max_queue_size c)

-- The prefix of a line by its level.
abbrev pub level_text : ℤ → Text
level_text (pos zero) = codes "[debug]:"
level_text (pos (suc zero)) = codes "[info]:"
level_text (pos (suc (suc zero))) = codes "[warn]:"
level_text (pos (suc (suc (suc zero)))) = codes "[erro]:"
level_text _ = codes "[info]:"

-- The name of the next file: of a new day, or of a further part of the same day.
abbrev pub next_name : Moment → Log → Option Text
next_name now c =
    and_then
      (with_names (take 15 (stamp now))
        (if now.day == c.m_today then b'.' ∷ quotient_text c.m_split_lines c.m_count else []) c)
      (print_into 500 300)

abbrev pub reopen : (Text → Bool) → Moment → Option Text → Method Log (Unit {0})
reopen opens now none c = undefined
reopen opens now (some name) c = returns tt (record c {
  m_fp = opened opens name;
  m_today = now.day;
  m_count = if now.day == c.m_today then c.m_count else 0;
})

-- `fflush(m_fp); fclose(m_fp);` and the next file.
abbrev pub rotate : (Text → Bool) → Moment → Method Log (Unit {0})
rotate opens now c = elim c.m_fp [
  | none ↦ undefined
  | some old ↦ reopen opens now (next_name now c) c
]

-- `m_today != my_tm.tm_mday || m_count % m_split_lines == 0`
abbrev pub rotate_if : (Text → Bool) → Moment → Option Bool → Method Log (Unit {0})
rotate_if opens now none c = undefined
rotate_if opens now (some b) c = if b then rotate opens now c else returns tt c

abbrev pub is_due : Moment → Log → Option Bool
is_due now c = if now.day == c.m_today then divides c.m_split_lines c.m_count else some true

-- The first critical section of `write_log`.
unfoldable pub count_line : (Text → Bool) → Moment → Method Log (Unit {0})
count_line opens now c =
    let c' = record c { m_count = suc c.m_count } in rotate_if opens now (is_due now c') c'

abbrev pub take_line : Option (Text × Text) → Method Log Text
take_line none c = undefined
take_line (some (line, buf)) c = returns line (record c { m_buf = buf })

-- The second one: the result is `log_str`.
unfoldable pub format_line : Moment → ℤ → Text → Method Log Text
format_line now level msg c =
    let head = header now (level_text level) in
    take_line (compose_line 48 (size_minus c.m_log_buf_size (length head + 1)) head msg c.m_buf) c

-- `fputs(text, m_fp)`
abbrev pub fputs : Text → Method Log (Unit {0})
fputs text c = elim c.m_fp [
  | none ↦ undefined
  | some name ↦ returns tt (record c { written = c.written ++ ((name, text) ∷ []) })
]

abbrev pub on_queue {ℓ} : {A : Type ℓ} → Method (BlockQueue Text) A → Method Log A
on_queue m c = elim c.m_log_queue [
  | none ↦ undefined
  | some q ↦ put_back (λ q'. record c { m_log_queue = some q' }) (m q)
]

abbrev pub is_full : Option (BlockQueue Text) → Bool
is_full none = false
is_full (some q) = BlockQueue.full q

-- The end of `write_log`; what `push` returns is not read.
unfoldable pub hand_over : Text → Method Log (Unit {0})
hand_over line c =
    if c.m_is_async && not (is_full c.m_log_queue)
    then (on_queue (BlockQueue.push line) >>= λ _. pure tt) c
    else fputs line c

-- `write_log(level, format, …)`; `msg` is what the format and its arguments print.
unfoldable pub write_log : (Text → Bool) → Moment → ℤ → Text → Method Log (Unit {0})
unfolding count_line format_line hand_over
write_log opens now level msg = count_line opens now >> format_line now level msg >>= hand_over

-- The macros `LOG_DEBUG` to `LOG_ERROR`, in a class with a member `m_close_log`; `flush` passes on
-- what `fputs` has already been given.
unfoldable pub log_at : ℤ → (Text → Bool) → Moment → ℤ → Text → Method Log (Unit {0})
unfolding write_log
log_at m_close_log opens now level msg =
    if int_eq m_close_log (pos 0) then write_log opens now level msg else pure tt

abbrev pub put_line : Option Text → Method Log Bool
put_line none c = returns false c
put_line (some line) c = (fputs line >> pure true) c

-- One round of `async_write_log`, for the result of the wait: `false` ends the loop.
unfoldable pub write_one : Bool → Method Log Bool
write_one wait_ok = on_queue (BlockQueue.pop wait_ok) >>= put_line

-- `async_write_log()`, on fuel; `none` means that the fuel ran out.
unfoldable pub async_write_log : ℕ → Bool → Log → Option (Outcome Log (Unit {0}))
async_write_log zero wait_ok c = none
async_write_log (suc fuel) wait_ok c = elim (write_one wait_ok c) [
  | returns true c' ↦ async_write_log fuel wait_ok c'
  | returns false c' ↦ some (returns tt c')
  | throws e c' ↦ some (throws e c')
  | blocks c' ↦ some (blocks c')
  | undefined ↦ some undefined
]
