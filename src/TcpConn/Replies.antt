-- ===== src/TcpConn/Replies.antt =====
-- request/tcp_conn.cpp, `parseData` and `sendData`: which requests are answered, and what goes out.
use mathlib.Core.Option.{some-injective}
use simplechatserver.Prelude.{
  subst, is_negative, rounds_of, ℕ, zero, suc, ◌≤◌, ◌<◌, ◌≡◌, refl, ◌⊎◌, true, none, some, List, [],
  ◌∷◌, ◌++◌, length, take, arith, ◌∙◌, ℤ, pos, negsuc, returns, zeros, c_string,
  c_string-copy_string, IsText,
}
use simplechatserver.TcpConn.{
  World, Message, reply, answer, answer_with, put_reply, send_data, send_string, read_event,
  write_event, update_events,
}

-- Every answer is a text that fits into `m_writebuf`.
reply-fits : (id : ℤ) (text : List ℕ) → reply id ≡ some text → IsText text × (length text < 1024)
unfolding reply
reply-fits (pos zero) text e =
    subst (λ t. IsText t × (length t < 1024)) (some-injective _ _ e) (omega arith)
reply-fits (pos (suc zero)) text e =
    subst (λ t. IsText t × (length t < 1024)) (some-injective _ _ e) (omega arith)
reply-fits (pos (suc (suc zero))) text e =
    subst (λ t. IsText t × (length t < 1024)) (some-injective _ _ e) (omega arith)
reply-fits (pos (suc (suc (suc n)))) text e = absurd (ground arith)
reply-fits (negsuc n) text e = absurd (ground arith)

-- What `parseData` leaves: the answer in `m_writebuf`, and the descriptor armed for writing.
pub answer-writes :
    (m : Message) (text : List ℕ) (w : World)
    → length w.conn.m_writebuf ≡ 1024
    → reply m.id ≡ some text
    → (buf : List ℕ) × (answer (some m) w
        ≡ returns tt
            (update_events write_event (record w { conn = record w.conn { m_writebuf = buf } })))
      × (c_string buf ≡ some text)
      × (length buf ≡ 1024)
answer-writes m text w size e =
    let (t, small) = reply-fits m.id text e in
    let (buf, copied, string, same) = c_string-copy_string text w.conn.m_writebuf t (omega arith) in
    (buf, rw (e, answer_with) (rw (copied, put_reply)), string, same ∙ size)

-- `sendData` with an answer in `m_writebuf` of which `write` takes `n` bytes.
pub send_data-sends :
    (n : ℕ) (text : List ℕ) (w : World)
    → c_string w.conn.m_writebuf ≡ some text
    → send_data (some n) w
      ≡ returns true (
          update_events read_event (record w {
            conn = record w.conn { m_writebuf = zeros 1024 };
            sent = w.sent ++ (take n text ∷ []);
          }))
unfolding send_data
send_data-sends n text w string = rw (string, send_string)

reply-unknown : (id : ℤ) → (is_negative id ≡ true) ⊎ (3 ≤ rounds_of id) → reply id ≡ none
unfolding reply
reply-unknown (negsuc n) h = refl
reply-unknown (pos (suc (suc (suc n)))) h = refl
reply-unknown (pos zero) h = absurd (ground arith)
reply-unknown (pos (suc zero)) h = absurd (ground arith)
reply-unknown (pos (suc (suc zero))) h = absurd (ground arith)

-- A request whose number is none of 0, 1 and 2 is dropped without an answer, and the descriptor,
-- which the event loop arms for one event at a time, is not armed again.
pub unknown_request :
    (m : Message) (w : World)
    → (is_negative m.id ≡ true) ⊎ (3 ≤ rounds_of m.id)
    → answer (some m) w ≡ returns tt w
unknown_request m w h = rw (reply-unknown m.id h, answer_with)
