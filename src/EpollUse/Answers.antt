-- ===== src/EpollUse/Answers.antt =====
-- learn/epoll_use.cpp: what the one buffer for answers and the table of 1024 buffers lead to.
use simplechatserver.Prelude.{
  ℕ, zero, suc, ◌≤◌, ◌≡◌, refl, ap, ◌∙◌, true, Option, none, some, List, [], ◌∷◌, ◌++◌,
  append_assoc, length, take, arith, returns, undefined, ◌>>=◌, Outcome, throws, blocks, Bool, pos,
  not-lt→ltb, ◌>>◌, zeros, codes, c_string, c_string-copy_string,
}
use simplechatserver.TcpConn.{Trigger, ReadResult, modifies, epollin, epollout}
use simplechatserver.EpollUse.{
  control, listening, writable, other, on_read, on_done, Text, Server, parse_data, answer_into,
  write_data, write_text, read_once, Event, readable, serve_events,
}

abbrev pub greeting : Text
greeting = codes "hello world"

take-nil : (m : ℕ) → take {A = ℕ} m [] ≡ []
take-nil zero = refl
take-nil (suc m) = refl

pub string_parsed :
    (fd : ℕ) (buf rest : Text) (s : Server)
    → c_string buf ≡ some (b'Y' ∷ rest)
    → length s.writebuf ≡ 1024
    → (answer : Text) × (c_string answer ≡ some greeting)
      × (length answer ≡ 1024)
      × (parse_data fd buf s ≡ answer_into fd (some answer) s)
unfolding parse_data
string_parsed fd buf rest s e size =
    let (answer, copied, string, same) =
      c_string-copy_string greeting s.writebuf (omega arith) (omega arith) in
    (answer, string, omega arith, rw (e, copied))

-- Two clients' requests that start with 'Y' are both parsed before either is written to, as when
-- one batch of events holds both: the first client is sent "hello world", as far as `write` takes
-- it, and the second one nothing, since all answers share one buffer, which the first write clears.
pub shared_writebuf :
    (first second : ℕ) (buf buf' rest rest' : Text) (n m : ℕ) (s : Server)
    → c_string buf ≡ some (b'Y' ∷ rest)
    → c_string buf' ≡ some (b'Y' ∷ rest')
    → length s.writebuf ≡ 1024
    → (s' : Server) × ((parse_data first buf
            >> parse_data second buf'
            >> (write_data first (some n) >>= λ _. write_data second (some m)))
          s
        ≡ returns true s')
      × (s'.sent ≡ s.sent ++ ((first, take n greeting) ∷ (second, []) ∷ []))
unfolding write_data c_string
shared_writebuf first second buf buf' rest rest' n m s e e' size =
    let (answer, string, long, parsed) = string_parsed first buf rest s e size in
    let s₁ : Server =
      control (modifies (pos first) (epollout ∷ [])) (record s { writebuf = answer }) in
    let (answer', string', long', parsed') = string_parsed second buf' rest' s₁ e' long in
    let s₂ : Server =
      control (modifies (pos second) (epollout ∷ [])) (record s₁ { writebuf = answer' }) in
    let s₃ : Server =
      control (modifies (pos first) (epollin ∷ []))
        (record s₂ { writebuf = zeros 1024; sent = s₂.sent ++ ((first, take n greeting) ∷ []) }) in
    (
      control (modifies (pos second) (epollin ∷ []))
          (record s₃ { writebuf = zeros 1024; sent = s₃.sent ++ ((second, take m []) ∷ []) }),
      rw (parsed, parsed', string', write_text),
      ap (λ l. s₃.sent ++ ((second, l) ∷ [])) (take-nil m)
          ∙ append_assoc s.sent ((first, take n greeting) ∷ []) ((second, []) ∷ []),
    )

serve_events-append :
    (lstate cstate : Trigger) (mode : ℕ) (before after : List Event) (s s' : Server)
    → serve_events lstate cstate mode before s ≡ some (returns tt s')
    → serve_events lstate cstate mode (before ++ after) s ≡ serve_events lstate cstate mode after s'
unfolding serve_events
serve_events-append lstate cstate mode [] after s s' served =
    let same : s ≡ s' = cc in ap (serve_events lstate cstate mode after) same
serve_events-append lstate cstate mode (listening fds ∷ before) after s s' served =
    serve_events-append lstate cstate mode before after _ s' served
serve_events-append lstate cstate mode (readable fd read ∷ before) after s s' served =
    by_read (λ u. serve_events-append lstate cstate mode before after u s')
      (read_once cstate mode fd read s) served
  where
    by_read :
        ((u : Server)
          → serve_events lstate cstate mode before u ≡ some (returns tt s')
          → serve_events lstate cstate mode (before ++ after) u
            ≡ serve_events lstate cstate mode after s')
        → (o : Option (Outcome Server Bool))
        → on_read (serve_events lstate cstate mode before) o ≡ some (returns tt s')
        → on_read (serve_events lstate cstate mode (before ++ after)) o
          ≡ serve_events lstate cstate mode after s'
    by_read rest (some (returns b u)) served = rest u served
    by_read rest (some (throws e u)) served = cc
    by_read rest (some (blocks u)) served = cc
    by_read rest (some undefined) served = cc
    by_read rest none served = cc
serve_events-append lstate cstate mode (writable fd wrote ∷ before) after s s' served =
    by_write (λ u. serve_events-append lstate cstate mode before after u s') (write_data fd wrote s)
      served
  where
    by_write :
        ((u : Server)
          → serve_events lstate cstate mode before u ≡ some (returns tt s')
          → serve_events lstate cstate mode (before ++ after) u
            ≡ serve_events lstate cstate mode after s')
        → (o : Outcome Server Bool)
        → on_done (serve_events lstate cstate mode before) o ≡ some (returns tt s')
        → on_done (serve_events lstate cstate mode (before ++ after)) o
          ≡ serve_events lstate cstate mode after s'
    by_write rest (returns b u) served = rest u served
    by_write rest (throws e u) served = cc
    by_write rest (blocks u) served = cc
    by_write rest undefined served = cc
serve_events-append lstate cstate mode (other ∷ before) after s s' served =
    serve_events-append lstate cstate mode before after s s' served

-- A descriptor of 1024 or more indexes the table of buffers outside its bounds as soon as it is
-- readable, in every mode, whatever has been served before.
pub large_fd :
    (lstate cstate : Trigger) (mode fd : ℕ) (read : ℕ → ℕ → ReadResult) (before more : List Event)
    (s s' : Server)
    → 1024 ≤ fd
    → serve_events lstate cstate mode before s ≡ some (returns tt s')
    → serve_events lstate cstate mode (before ++ (readable fd read ∷ more)) s ≡ some undefined
unfolding serve_events
large_fd lstate cstate mode fd read before more s s' large served =
    serve_events-append lstate cstate mode before (readable fd read ∷ more) s s' served
    ∙ rw (not-lt→ltb _ _ large)
