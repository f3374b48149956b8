-- ===== src/EpollUse.antt =====
-- learn/epoll_use.cpp: an earlier server in one file, with a table of buffers for the descriptors
-- below 1024 and one buffer for what is written. The system calls are arguments; `cstate` is ET,
-- `lstate` LT and `mode` 0 in the source, and arguments here.
pub mod Gather
pub mod Gathering
pub mod Answers
pub mod Requests
mod Tests
use mathlib.Core.Option
use simplechatserver.Prelude.{
  ℕ, zero, suc, ◌+◌, ◌-◌, Bool, true, false, Option, none, some, List, [], ◌∷◌, ◌++◌, length, take,
  set, leb, ltb, ◌==◌, if◌then◌else◌, ℤ, pos, is_negative, haha, Outcome, returns, throws, blocks,
  undefined, Method, ◌>>=◌, ◌>>◌, pure, zeros, codes, copy_at, copy_string, c_string,
}
use simplechatserver.TcpConn.{
  Flag, epollin, epollout, epollerr, epollet, EpollCall, adds, modifies, deletes, Trigger, lt, et,
  ReadResult, got, again, failed,
}

abbrev pub Text : Type 0
Text = List ℕ

-- `struct data`
pub record Data : Type 0 where
  pub buf : Text
  pub readlen : ℕ

-- The global variables, with the calls of `epoll_ctl` and the texts that `write` has taken.
pub record Server : Type 0 where
  pub alldata : ℕ → Data
  pub writebuf : Text
  pub epoll : List EpollCall
  pub sent : List (ℕ × Text)

unfoldable pub new_server : Server
new_server = record {
  alldata = λ _. record { buf = zeros 1024; readlen = 0 };
  writebuf = zeros 1024;
  epoll = [];
  sent = [];
}

abbrev pub max_read_len : ℕ
max_read_len = 1024

abbrev pub set_data : ℕ → Data → Server → Server
set_data fd d s = record s { alldata = λ i. if i == fd then d else s.alldata i }

abbrev pub control : EpollCall → Server → Server
control call s = record s { epoll = s.epoll ++ (call ∷ []) }

abbrev pub answer_into : ℕ → Option Text → Method Server (Unit {0})
answer_into fd none s = undefined
answer_into fd (some buf) s =
    returns tt (control (modifies (pos fd) (epollout ∷ [])) (record s { writebuf = buf }))

abbrev pub parse_text : ℕ → Option Text → Method Server (Unit {0})
parse_text fd none s = undefined
parse_text fd (some []) s = returns tt s
parse_text fd (some (b ∷ bs)) s =
    if b == b'Y'
    then answer_into fd (copy_string (codes "hello world") s.writebuf) s
    else returns tt s

-- `parsedata(fd, buf)`; the text is printed, so the array must hold a string.
unfoldable pub parse_data : ℕ → Text → Method Server (Unit {0})
unfolding copy_string
parse_data fd buf s = parse_text fd (c_string buf) s

abbrev pub write_text : ℕ → Option ℕ → Option Text → Method Server Bool
write_text fd wrote none s = undefined
write_text fd none (some text) s = returns false s
write_text fd (some n) (some text) s = returns true (
    control (modifies (pos fd) (epollin ∷ []))
      (record s { writebuf = zeros 1024; sent = s.sent ++ ((fd, take n text) ∷ []) }))

-- `writedata(fd)`; `wrote` is what `write` returns, `none` for an error.
unfoldable pub write_data : ℕ → Option ℕ → Method Server Bool
write_data fd wrote s = write_text fd wrote (c_string s.writebuf) s

-- `memset(buf, 0, sizeof(data.buf)); data.readlen = 0;`
abbrev pub clear_data : ℕ → Server → Server
clear_data fd = set_data fd (record { buf = zeros 1024; readlen = 0 })

-- `parsedata(fd, buf)` and the clearing behind it.
abbrev pub finish : ℕ → Data → Method Server Bool
finish fd d s = (parse_data fd d.buf >>= λ _ s'. returns true (clear_data fd s')) (set_data fd d s)

-- The bytes of a `read` go into `sempbuf[100]` and on into the buffer.
abbrev pub store : Text → Data → Option Data
store bs d =
    if leb (length bs) 100
    then Option.map (λ b. record { buf = b; readlen = d.readlen + length bs })
        (copy_at d.readlen bs d.buf)
    else none

-- `buf[alllen] = '\0'`
abbrev pub terminate : Data → Option Data
terminate d =
    if ltb d.readlen (length d.buf) then some (record d { buf = set d.buf d.readlen 0 }) else none

abbrev pub or_undefined {ℓ} :
    {A : Type ℓ} → Option Data → (Data → Outcome Server A) → Outcome Server A
or_undefined none next = undefined
or_undefined (some d) next = next d

-- How one round of a read loop ends.
pub data Next : Type 0 where
  stops : Outcome Server Bool → Next
  goes_on : Data → Next

abbrev pub then_goes : Option Data → Next
then_goes none = stops undefined
then_goes (some d) = goes_on d

abbrev pub then_terminates : Option Data → Option Data
then_terminates none = none
then_terminates (some d) = terminate d

-- The peer has closed: the buffer is cleared and the descriptor leaves the epoll set.
abbrev pub disconnect : ℕ → Server → Server
disconnect fd s = control (deletes (pos fd)) (clear_data fd s)

-- One round of the loop for `LT` with `mode` 0.
unfoldable pub lt_step : ℕ → Server → ReadResult → Data → Next
lt_step fd s (got []) d = stops (returns false (disconnect fd s))
lt_step fd s (got (b ∷ bs)) d = then_goes (then_terminates (store (b ∷ bs) d))
lt_step fd s again d = stops (finish fd d s)
lt_step fd s failed d = stops (returns false (set_data fd d s))

-- One round of the loop for `ET`.
unfoldable pub et_step : ℕ → Server → ReadResult → Data → Next
et_step fd s (got []) d = stops (returns true (disconnect fd s))
et_step fd s (got (b ∷ bs)) d = then_goes (store (b ∷ bs) d)
et_step fd s again d = stops (or_undefined (terminate d) λ d'. finish fd d' s)
et_step fd s failed d = stops (returns false (set_data fd d s))

-- The branch for `LT` with `mode` 1, which reads once.
unfoldable pub read_part : ℕ → Server → ReadResult → Data → Outcome Server Bool
read_part fd s (got []) d = returns false (clear_data fd s)
read_part fd s (got (b ∷ bs)) d =
    or_undefined (store (b ∷ bs) d) λ d'. returns true (set_data fd d' s)
read_part fd s again d = or_undefined (terminate d) λ d'. finish fd d' s
read_part fd s failed d = returns false s

-- `while (1) { int len = read(fd, sempbuf, MAXREADLEN - alllen); … }`, on fuel. `read i n` is what
-- the i-th `read` gives when asked for at most `n` bytes.
unfoldable pub read_loop :
    (ReadResult → Data → Next) → (ℕ → ℕ → ReadResult) → ℕ → ℕ → Data → Option (Outcome Server Bool)
read_loop step read zero i d = none
read_loop step read (suc fuel) i d = elim (step (read i (max_read_len - d.readlen)) d) [
  | stops o ↦ some o
  | goes_on d' ↦ read_loop step read fuel (i + 1) d'
]

-- Enough rounds: each but the last reads a byte at least.
abbrev pub rounds : Data → ℕ
rounds d = suc (suc (max_read_len - d.readlen))

-- Without a branch for the mode the function ends with no `return`.
unfoldable pub read_by :
    Trigger → ℕ → ℕ → (ℕ → ℕ → ReadResult) → Data → Server → Option (Outcome Server Bool)
read_by lt zero fd read d s = read_loop (lt_step fd s) read (rounds d) 0 d
read_by lt (suc zero) fd read d s = some (read_part fd s (read 0 (max_read_len - d.readlen)) d)
read_by lt (suc (suc mode)) fd read d s = some undefined
read_by et mode fd read d s = read_loop (et_step fd s) read (rounds d) 0 d

-- `read_once(fd)`; `alldata` has 1024 entries.
unfoldable pub read_once :
    Trigger → ℕ → ℕ → (ℕ → ℕ → ReadResult) → Server → Option (Outcome Server Bool)
unfolding read_by read_loop lt_step et_step
read_once cstate mode fd read s =
    if ltb fd 1024
    then if leb max_read_len (s.alldata fd).readlen
      then some (returns false s)
      else read_by cstate mode fd read (s.alldata fd) s
    else some undefined

-- The flags with which the loop over `accept` adds a descriptor, by `lstate`.
abbrev pub accept_flags : Trigger → List Flag
accept_flags lt = epollin ∷ []
accept_flags et = epollin ∷ epollet ∷ []

-- The loop over `accept`, for the descriptors that it gives before it fails.
unfoldable pub accept_loop : Trigger → List ℕ → Server → Server
accept_loop lstate [] s = s
accept_loop lstate (cfd ∷ more) s =
    accept_loop lstate more (control (adds (pos cfd) (accept_flags lstate)) s)

-- An event: of the listening socket with what `accept` gives, or of a client, readable with what
-- `read` gives, or writable, or neither.
pub data Event : Type 0 where
  listening : List ℕ → Event
  readable : ℕ → (ℕ → ℕ → ReadResult) → Event
  writable : ℕ → Option ℕ → Event
  other : Event

abbrev pub on_done :
    (Server → Option (Outcome Server (Unit {0})))
    → Outcome Server Bool
    → Option (Outcome Server (Unit {0}))
on_done rest (returns _ s) = rest s
on_done rest (throws e s) = some (throws e s)
on_done rest (blocks s) = some (blocks s)
on_done rest undefined = some undefined

abbrev pub on_read :
    (Server → Option (Outcome Server (Unit {0})))
    → Option (Outcome Server Bool)
    → Option (Outcome Server (Unit {0}))
on_read rest none = none
on_read rest (some o) = on_done rest o

-- The loop over the events; the results of the two functions are not read.
unfoldable pub serve_events :
    Trigger → Trigger → ℕ → List Event → Server → Option (Outcome Server (Unit {0}))
unfolding read_once accept_loop write_data
serve_events lstate cstate mode [] s = some (returns tt s)
serve_events lstate cstate mode (listening fds ∷ more) s =
    serve_events lstate cstate mode more (accept_loop lstate fds s)
serve_events lstate cstate mode (readable fd read ∷ more) s =
    on_read (serve_events lstate cstate mode more) (read_once cstate mode fd read s)
serve_events lstate cstate mode (writable fd wrote ∷ more) s =
    on_done (serve_events lstate cstate mode more) (write_data fd wrote s)
serve_events lstate cstate mode (other ∷ more) s = serve_events lstate cstate mode more s

-- The next `epoll_wait` finds no more events.
abbrev pub waits_after : Option (Outcome Server (Unit {0})) → Option (Outcome Server (Unit {0}))
waits_after (some (returns _ s)) = some (blocks s)
waits_after o = o

-- `main`, from what `socket` returns and the events of all the calls of `epoll_wait`; the results of
-- `bind` and `listen` do not change what it does.
unfoldable pub main :
    ℤ → Trigger → Trigger → ℕ → List Event → Server → Option (Outcome Server (Unit {0}))
unfolding serve_events
main lfd lstate cstate mode events s =
    if is_negative lfd
    then some (throws haha s)
    else waits_after (serve_events lstate cstate mode events (control (adds lfd (epollin ∷ [])) s))
