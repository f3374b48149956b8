-- ===== src/TcpConn/Racing.antt =====
-- request/tcp_conn.cpp: what other workers may do between the call of `update_events` in `parseData`
-- and the lines of `read_once` that clear the buffer.
use simplechatserver.Prelude.{
  ℕ, ◌-◌, ◌<◌, ◌≡◌, refl, ap, ◌∙◌, true, Option, none, some, List, [], ◌∷◌, ◌++◌, length, take,
  returns, throws, then_do, json_error, zeros, pad, c_string-pad, IsText,
}
use simplechatserver.TcpConn.{
  World, ReadResult, again, Message, Trigger, max_read_len, reply, answer, decode_string,
  parse_data, send_data, read_body, update_events, read_event, write_event, clear_buf, finish,
  modifies,
}
use simplechatserver.TcpConn.Delivery.{filled, joined, Arrives}
use simplechatserver.TcpConn.Requests.{request_behind}
use simplechatserver.TcpConn.Replies.{answer-writes, send_data-sends}

-- The last lines of `read_once` on a request `bs` of fewer than 1024 bytes, none of them zero, that is
-- answered, and what they let happen. `parseData` returns with the descriptor armed for writing (its
-- only call of `epoll_ctl`) and with `bs` still in the buffer; `read_once` clears the buffer after
-- that and makes no further call. In the state between the two a second worker that runs `sendData`
-- sends the answer and arms the descriptor for reading, and a third one that reads the client's next
-- request, in reads of 1 to 100 bytes and with room for both, parses it behind `bs`: with a decoder
-- that does not take the two texts one behind the other, it throws.
pub late_clear :
    (decode : List ℕ → Option Message) (read : ℕ → ℕ → ReadResult) (cstate : Trigger) (bs : List ℕ)
    (cs : List (List ℕ)) (m : Message) (text : List ℕ) (n : ℕ) (w : World)
    → length w.conn.m_writebuf ≡ 1024
    → IsText bs
    → length bs < max_read_len
    → decode bs ≡ some m
    → reply m.id ≡ some text
    → length (bs ++ joined cs) < max_read_len
    → IsText (bs ++ joined cs)
    → Arrives read 0 (length bs) cs
    → read (length cs) (max_read_len - length (bs ++ joined cs)) ≡ again
    → decode (bs ++ joined cs) ≡ none
    → (w₁ w₂ w₃ : World) × (parse_data decode (filled bs w) ≡ returns tt w₁)
      × (w₁.epoll ≡ w.epoll ++ (modifies w.conn.m_fd write_event ∷ []))
      × ((w₁.conn.m_buf ≡ pad max_read_len bs) × (w₁.conn.alllen ≡ length bs))
      × (finish decode (filled bs w) ≡ returns true (clear_buf w₁))
      × ((clear_buf w₁).epoll ≡ w₁.epoll)
      × (send_data (some n) w₁ ≡ returns true w₂)
      × (w₂.epoll ≡ w₁.epoll ++ (modifies w.conn.m_fd read_event ∷ []))
      × (w₂.sent ≡ w.sent ++ (take n text ∷ []))
      × (read_body decode cstate 0 read w₂ ≡ some (throws json_error w₃))
unfolding parse_data update_events finish clear_buf
late_clear decode read cstate bs cs m text n w size is_text small decoded replied fits both a e
      refused =
    let (buf, answered, string, _) = answer-writes m text (filled bs w) size replied in
    let w₁ : World =
      update_events write_event
        (record (filled bs w) { conn = record (filled bs w).conn { m_writebuf = buf } }) in
    let w₂ : World = update_events read_event (record w₁ {
      conn = record w₁.conn { m_writebuf = zeros 1024 };
      sent = w₁.sent ++ (take n text ∷ []);
    }) in
    let parsed : parse_data decode (filled bs w) ≡ returns tt w₁ =
      ap (λ o. decode_string decode o (filled bs w)) (c_string-pad max_read_len bs is_text small)
      ∙ ap (λ o. answer o (filled bs w)) decoded
      ∙ answered in
    (
      w₁,
      w₂,
      filled (bs ++ joined cs) w₂,
      parsed,
      refl,
      (refl, refl),
      ap (λ o. then_do o (λ _ w'. returns true (clear_buf w'))) parsed,
      refl,
      send_data-sends n text w₁ string,
      refl,
      refl,
      request_behind decode read cstate bs cs w₂ fits both a e
          ∙ ap
              (λ o. some (
                then_do (answer o (filled (bs ++ joined cs) w₂))
                  (λ _ w'. returns true (clear_buf w'))))
              refused,
    )
