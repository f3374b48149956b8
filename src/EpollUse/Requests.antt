-- ===== src/EpollUse/Requests.antt =====
-- learn/epoll_use.cpp: a request, from its reads to the answer.
use mathlib.Core.Path.{ap₂}
use mathlib.Core.Option
use simplechatserver.Prelude.{
  ℕ, zero, suc, ◌+◌, ◌-◌, ◌≤◌, ◌<◌, ◌≡◌, refl, sym, ap, ◌∙◌, subst, some, List, [], ◌∷◌, ◌++◌,
  append-nil, append_assoc, length, length-append, take, arith, ◌==◌, ==_iff, le→leb, lt→ltb, true,
  returns, pos, zeros, pad, copy_at-pad, c_string-pad, IsText,
}
use simplechatserver.TcpConn.{Trigger, et, ReadResult, got, again, modifies, epollin, epollout}
use simplechatserver.TcpConn.Delivery.{Arrives, joined, set-pad, length-pad}
use simplechatserver.EpollUse.{
  Text, Data, Server, control, store, terminate, finish, set_data, clear_data, et_step, goes_on,
  stops, or_undefined, read_loop, rounds, read_once, readable, writable, serve_events, write_text,
  write_data, max_read_len,
}
use simplechatserver.EpollUse.Answers.{greeting, string_parsed}

-- A buffer with these bytes and zeros behind them.
abbrev pub holds : Text → Data
holds bs = record { buf = pad max_read_len bs; readlen = length bs }

store-holds :
    (c bs : Text)
    → length c ≤ 100
    → length bs + length c ≤ max_read_len
    → store c (holds bs) ≡ some (holds (bs ++ c))
store-holds c bs small fits = rw (le→leb _ _ small) (
    ap (Option.map (λ b. record { buf = b; readlen = length bs + length c }))
      (copy_at-pad max_read_len bs c fits)
    ∙ ap (λ n. some (record { buf = pad max_read_len (bs ++ c); readlen = n }))
        (sym (length-append bs c)))

terminate-holds : (bs : Text) → length bs < max_read_len → terminate (holds bs) ≡ some (holds bs)
terminate-holds bs h =
    let n = length-pad max_read_len bs (omega arith) in
    rw (lt→ltb (length bs) (length (pad max_read_len bs)) (omega (arith, n))) (
      ap (λ b. some (record { buf = b; readlen = length bs }))
        (set-pad bs (max_read_len - length bs)))

et_step-holds :
    (fd : ℕ) (s : Server) (c bs : Text)
    → 0 < length c
    → length c ≤ 100
    → length bs + length c ≤ max_read_len
    → et_step fd s (got c) (holds bs) ≡ goes_on (holds (bs ++ c))
unfolding et_step
et_step-holds fd s [] bs some_read small fits = absurd (omega arith)
et_step-holds fd s (b ∷ c) bs some_read small fits = rw (store-holds (b ∷ c) bs small fits)

et_step-again :
    (fd : ℕ) (s : Server) (bs : Text)
    → length bs < max_read_len
    → et_step fd s again (holds bs) ≡ stops (finish fd (holds bs) s)
unfolding et_step
et_step-again fd s bs h = ap (λ o. stops (or_undefined o λ d. finish fd d s)) (terminate-holds bs h)

-- The loop for `ET` ends with what all the reads gave together.
read_loop-Arrives :
    (fd : ℕ) (s : Server) (read : ℕ → ℕ → ReadResult) (cs : List Text) (fuel i : ℕ) (bs : Text)
    → Arrives read i (length bs) cs
    → read (i + length cs) (max_read_len - length (bs ++ joined cs)) ≡ again
    → length (bs ++ joined cs) < max_read_len
    → max_read_len - length bs < fuel
    → read_loop (et_step fd s) read fuel i (holds bs) ≡ some (finish fd (holds (bs ++ joined cs)) s)
unfolding read_loop et_step
read_loop-Arrives fd s read cs zero i bs arrives last short enough = absurd (omega arith)
read_loop-Arrives fd s read [] (suc fuel) i bs arrives last short enough =
    let at : read i (max_read_len - length bs) ≡ again =
      ap₂ read (omega arith) (ap (λ l. max_read_len - length l) (sym (append-nil bs))) ∙ last in
    let stepped : et_step fd s (read i (max_read_len - length bs)) (holds bs)
        ≡ stops (finish fd (holds bs) s) =
      ap (λ r. et_step fd s r (holds bs)) at
      ∙ et_step-again fd s bs (omega (arith, length-append bs [])) in
    rw (stepped, read_loop) (ap (λ l. some (finish fd (holds l) s)) (sym (append-nil bs)))
read_loop-Arrives fd s read (c ∷ cs) (suc fuel) i bs arrives last short enough =
    let (chunk, some_read, small, more) = arrives in
    let long = length-append bs c in
    let all = length-append bs (c ++ joined cs) in
    let rest = length-append c (joined cs) in
    let regroup = append_assoc bs c (joined cs) in
    let stepped : et_step fd s (read i (max_read_len - length bs)) (holds bs)
        ≡ goes_on (holds (bs ++ c)) =
      ap (λ r. et_step fd s r (holds bs)) chunk
      ∙ et_step-holds fd s c bs some_read small (omega arith) in
    rw (stepped, read_loop)
      (read_loop-Arrives fd s read cs fuel (i + 1) (bs ++ c)
          (subst (λ k. Arrives read (i + 1) k cs) (sym long) more)
          (ap₂ read (omega arith) (ap (λ l. max_read_len - length l) regroup) ∙ last)
          (subst (λ l. length l < max_read_len) (sym regroup) short) (omega arith)
        ∙ ap (λ l. some (finish fd (holds l) s)) regroup)

-- A request that starts with 'Y', without zeros and shorter than the buffer, that comes in reads of
-- at most a hundred bytes each to a client whose buffer is empty, and then a `write` that takes `n`
-- bytes: the client is sent "hello world" up to these bytes, its buffer is empty again, and its
-- descriptor is armed for writing and then for reading.
pub request_answered :
    (lstate : Trigger) (mode fd n : ℕ) (read : ℕ → ℕ → ReadResult) (cs : List Text) (rest : Text)
    (s : Server)
    → fd < 1024
    → s.alldata fd ≡ holds []
    → length s.writebuf ≡ 1024
    → joined cs ≡ b'Y' ∷ rest
    → IsText rest
    → length (b'Y' ∷ rest) < max_read_len
    → Arrives read 0 0 cs
    → read (length cs) (max_read_len - length (joined cs)) ≡ again
    → (s' : Server) × (serve_events lstate et mode (readable fd read ∷ writable fd (some n) ∷ []) s
        ≡ some (returns tt s'))
      × (s'.sent ≡ s.sent ++ ((fd, take n greeting) ∷ []))
      × (s'.alldata fd ≡ holds [])
      × (s'.epoll
          ≡ s.epoll ++ (modifies (pos fd) (epollout ∷ []) ∷ modifies (pos fd) (epollin ∷ []) ∷ []))
unfolding serve_events read_once write_data
request_answered lstate mode fd n read cs rest s small empty size joins text short arrives last =
    let request = b'Y' ∷ rest in
    let read_all : read_once et mode fd read s ≡ some (finish fd (holds request) s) =
      rw (lt→ltb _ _ small) (
        rw empty (
          read_loop-Arrives fd s read cs (rounds (holds [])) 0 [] arrives
            (ap (λ i. read i (max_read_len - length (joined cs))) (omega arith) ∙ last)
            (subst (λ l. length l < max_read_len) (sym joins) short) (omega arith)
          ∙ ap (λ l. some (finish fd (holds l) s)) joins)) in
    let (answer, string, long, parsed) =
      string_parsed fd (pad max_read_len request) rest (set_data fd (holds request) s)
        (c_string-pad max_read_len request (omega arith, text) short) size in
    let parsed_at : Server =
      control (modifies (pos fd) (epollout ∷ []))
        (record (set_data fd (holds request) s) { writebuf = answer }) in
    let itself : (fd == fd) ≡ true = (==_iff fd fd).1 refl in
    (
      control (modifies (pos fd) (epollin ∷ [])) (record (clear_data fd parsed_at) {
        writebuf = zeros 1024;
        sent = s.sent ++ ((fd, take n greeting) ∷ []);
      }),
      rw read_all (rw parsed (rw (string, write_text))),
      refl,
      rw itself,
      append_assoc s.epoll (modifies (pos fd) (epollout ∷ []) ∷ [])
          (modifies (pos fd) (epollin ∷ []) ∷ []),
    )
