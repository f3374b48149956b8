-- ===== src/CommunicateQt/Answers.antt =====
-- communicate_qt.cpp: what a client is sent.
use simplechatserver.Prelude.{
  ℕ, zero, suc, ◌≤◌, ◌<◌, ◌≡◌, refl, sym, ap, ◌∙◌, ◌⊎◌, inl, inr, Bool, true, false, Option, none,
  some, List, [], ◌∷◌, ◌++◌, map, append-nil, append_assoc, length, length-append, take,
  if◌then◌else◌, arith, returns, blocks, undefined,
}
use simplechatserver.CommunicateQt.{
  Text, Received, bytes, ended, failed, Client, Server, Setup, serve, handle_client, reply_to,
  reply_prefix, err_msg, buffer_size, accept_loop, main,
}
use simplechatserver.CommunicateQt.Lines.{first_line, c_string-cut_buffer, first_line-append}

-- Each text is what one `read` may give.
abbrev pub AreReads : List Text → Type 0
AreReads [] = Unit
AreReads (t ∷ ts) = (length t < buffer_size) × AreReads ts

-- The answer to the bytes of one `read`.
abbrev pub answer_to : (Text → Bool) → Text → Text
answer_to valid received =
    if valid (first_line received) then reply_to (first_line received) else err_msg

-- A client whose connection ends, in either way, after some reads.
abbrev pub reads_then : List Text → Received → List Received
reads_then [] end = end ∷ []
reads_then (t ∷ ts) end = bytes t ∷ reads_then ts end

-- How a connection ends: the peer closes it, or `read` fails.
abbrev pub Ends : Received → Type 0
Ends end = (end ≡ ended) ⊎ (end ≡ failed)

serve_step :
    (valid : Text → Bool) (t : Text) (more : List Received) (c : Client)
    → length t < buffer_size
    → serve valid (bytes t ∷ more) c
      ≡ serve valid more (record c { sent = c.sent ++ (answer_to valid t ∷ []) })
unfolding serve
serve_step valid t more c h = rw (c_string-cut_buffer t h)

serve-answers :
    (valid : Text → Bool) (ts : List Text) (end : Received) (c : Client)
    → AreReads ts
    → Ends end
    → serve valid (reads_then ts end) c
      ≡ returns tt (record c { sent = c.sent ++ map (answer_to valid) ts })
unfolding serve
serve-answers valid [] end c r (inl e) =
    rw e (ap (λ l. returns tt (record c { sent = l })) (sym (append-nil c.sent)))
serve-answers valid [] end c r (inr e) =
    rw e (ap (λ l. returns tt (record c { sent = l })) (sym (append-nil c.sent)))
serve-answers valid (t ∷ ts) end c r e =
    serve_step valid t (reads_then ts end) c r.0
    ∙ serve-answers valid ts end (record c { sent = c.sent ++ (answer_to valid t ∷ []) }) r.1 e
    ∙ ap (λ l. returns tt (record c { sent = l }))
        (append_assoc c.sent (answer_to valid t ∷ []) (map (answer_to valid) ts))

-- A client whose reads give some texts of at most 1023 bytes, and that then closes or fails: it is
-- sent one answer for each of them, in their order, and its descriptor is closed once, at the end.
pub handle_client-answers :
    (valid : Text → Bool) (client_fd : ℕ) (ts : List Text) (end : Received) (c : Client)
    → AreReads ts
    → Ends end
    → handle_client valid client_fd (reads_then ts end) c
      ≡ returns tt (record c {
        sent = c.sent ++ map (answer_to valid) ts;
        closed = c.closed ++ (client_fd ∷ []);
      })
unfolding handle_client
handle_client-answers valid client_fd ts end c r e = rw (serve-answers valid ts end c r e)

-- Of the bytes of one `read`, those behind the first "\n" have no effect: what the client has sent
-- in one go after a line is never answered.
pub handle_client-drops :
    (valid : Text → Bool) (client_fd : ℕ) (a b : Text) (more : List Received) (c : Client)
    → length (a ++ (b'\n' ∷ b)) < buffer_size
    → handle_client valid client_fd (bytes (a ++ (b'\n' ∷ b)) ∷ more) c
      ≡ handle_client valid client_fd (bytes (a ++ (b'\n' ∷ [])) ∷ more) c
unfolding handle_client
handle_client-drops valid client_fd a b more c h =
    let shorter : length (a ++ (b'\n' ∷ [])) < buffer_size =
      omega (arith, length-append a (b'\n' ∷ b), length-append a (b'\n' ∷ [])) in
    let same : serve valid (bytes (a ++ (b'\n' ∷ b)) ∷ more) c
        ≡ serve valid (bytes (a ++ (b'\n' ∷ [])) ∷ more) c =
      serve_step valid (a ++ (b'\n' ∷ b)) more c h
      ∙ ap
          (λ l.
            serve valid more
              (record c { sent = c.sent ++ ((if valid l then reply_to l else err_msg) ∷ []) }))
          (first_line-append a b)
      ∙ sym (serve_step valid (a ++ (b'\n' ∷ [])) more c shorter) in
    rw same

take-append : (n : ℕ) (xs ys : Text) → n ≤ length xs → take n (xs ++ ys) ≡ take n xs
take-append zero xs ys h = refl
take-append (suc n) [] ys h = absurd (omega arith)
take-append (suc n) (x ∷ xs) ys h = ap (◌∷◌ x) (take-append n xs ys (omega arith))

-- A reply to a text of 1002 bytes or more is cut: it is 1023 bytes long and has lost its "\n".
pub reply_to_cut :
    (text : Text) → 1002 ≤ length text → reply_to text ≡ reply_prefix ++ take 1002 text
unfolding reply_to
reply_to_cut text h = ap (λ l. reply_prefix ++ l) (take-append 1002 text (b'\n' ∷ []) h)

-- `accept` gives some descriptors, whatever fails between them, and each gets its thread.
abbrev pub accepted : List (Option (ℕ × Bool)) → List ℕ
accepted [] = []
accepted (none ∷ more) = accepted more
accepted (some (fd, created) ∷ more) = fd ∷ accepted more

-- `pthread_create` succeeds for all of them.
abbrev pub AllCreated : List (Option (ℕ × Bool)) → Type 0
AllCreated [] = Unit
AllCreated (none ∷ more) = AllCreated more
AllCreated (some (fd, created) ∷ more) = (created ≡ true) × AllCreated more

accept_loop-serves :
    (accepts : List (Option (ℕ × Bool))) (s : Server)
    → AllCreated accepts
    → accept_loop accepts s ≡ blocks (record s { threads = s.threads ++ accepted accepts })
unfolding accept_loop
accept_loop-serves [] s h = ap (λ l. blocks (record s { threads = l })) (sym (append-nil s.threads))
accept_loop-serves (none ∷ more) s h = accept_loop-serves more s h
accept_loop-serves (some (fd, true) ∷ more) s h =
    accept_loop-serves more (record s { threads = s.threads ++ (fd ∷ []) }) h.1
    ∙ ap (λ l. blocks (record s { threads = l })) (append_assoc s.threads (fd ∷ []) (accepted more))
accept_loop-serves (some (fd, false) ∷ more) s h = let bad = h.0 in cc

accept_loop_breaks :
    (accepts more : List (Option (ℕ × Bool))) (fd : ℕ) (s : Server)
    → AllCreated accepts
    → accept_loop (accepts ++ (some (fd, false) ∷ more)) s ≡ undefined
unfolding accept_loop
accept_loop_breaks [] more fd s h = refl
accept_loop_breaks (none ∷ rest) more fd s h = accept_loop_breaks rest more fd s h
accept_loop_breaks (some (f, true) ∷ rest) more fd s h =
    accept_loop_breaks rest more fd (record s { threads = s.threads ++ (f ∷ []) }) h.1
accept_loop_breaks (some (f, false) ∷ rest) more fd s h = let bad = h.0 in cc

-- With a listening socket, as long as every thread can be created, each accepted descriptor gets
-- one, in order, also where `accept` fails in between; and once a thread cannot be created, `main`
-- detaches a thread whose id has not been set, which is undefined, whatever was to come.
pub main_serves :
    (setup : Setup) (accepts more : List (Option (ℕ × Bool))) (fd : ℕ) (s : Server)
    → setup.socket_ok ≡ true
    → setup.setsockopt_ok ≡ true
    → setup.bind_ok ≡ true
    → setup.listen_ok ≡ true
    → AllCreated accepts
    → (main setup accepts s ≡ blocks (record s { threads = s.threads ++ accepted accepts }))
      × (main setup (accepts ++ (some (fd, false) ∷ more)) s ≡ undefined)
unfolding main
main_serves setup accepts more fd s a b c d h = (
  rw (a, b, c, d) (accept_loop-serves accepts s h),
  rw (a, b, c, d) (accept_loop_breaks accepts more fd s h),
)
