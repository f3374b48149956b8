-- ===== src/TcpConn/Answering.antt =====
-- request/tcp_conn.cpp: `parseData` and `sendData`.
use simplechatserver.Prelude.{
  ℕ, zero, suc, Bool, true, false, Option, none, some, List, [], ◌∷◌, ◌++◌, take, ℤ, pos, returns,
  throws, undefined, Method, ◌>>=◌, json_error, zeros, c_string, copy_string,
}
use simplechatserver.TcpConn.Conn.{read_event, write_event, Message, World, update_events}

-- The text that `parseData` answers to a request, by `ReqInformation`; `Reqstate::REGISTER_SUCCESS`
-- is 3, and the answer to a message is the UTF-8 text of the source. Other numbers get no answer.
unfoldable pub reply : ℤ → Option (List ℕ)
reply (pos zero) = some (b'[' ∷ b'2' ∷ b']' ∷ [])
reply (pos (suc zero)) = some (b'[' ∷ b'3' ∷ b']' ∷ [])
reply (pos (suc (suc zero))) = some (
    0xe6 ∷ 0x88 ∷ 0x91 ∷ 0xe6 ∷ 0x94 ∷ 0xb6 ∷ 0xe5 ∷ 0x88 ∷ 0xb0 ∷ 0xe6 ∷ 0xb6 ∷ 0x88 ∷ 0xe6 ∷ 0x81
    ∷ 0xaf ∷ 0xe4 ∷ 0xba ∷ 0x86 ∷ [])
reply _ = none

abbrev pub put_reply : Option (List ℕ) → Method World (Unit {0})
put_reply none w = undefined
put_reply (some buf) w = returns tt (record w { conn = record w.conn { m_writebuf = buf } })

abbrev pub answer_with : Option (List ℕ) → Method World (Unit {0})
answer_with none w = returns tt w
answer_with (some text) w =
    (put_reply (copy_string text w.conn.m_writebuf) >>= λ _ w'.
    returns tt (update_events write_event w'))
      w

abbrev pub answer : Option Message → Method World (Unit {0})
answer none w = throws json_error w
answer (some message) w = answer_with (reply message.id) w

abbrev pub decode_string : (List ℕ → Option Message) → Option (List ℕ) → Method World (Unit {0})
decode_string decode none w = undefined
decode_string decode (some text) w = answer (decode text) w

-- `parseData(m_buf, …)`; `decode` stands for `json::parse` and the four `get` calls, `none` for an
-- exception of theirs.
unfoldable pub parse_data : (List ℕ → Option Message) → Method World (Unit {0})
parse_data decode w = decode_string decode (c_string w.conn.m_buf) w

abbrev pub send_string : Option ℕ → Option (List ℕ) → Method World Bool
send_string wrote none w = undefined
send_string none (some text) w = returns false w
send_string (some n) (some text) w = returns true (
    update_events read_event (record w {
      conn = record w.conn { m_writebuf = zeros 1024 };
      sent = w.sent ++ (take n text ∷ []);
    }))

-- `sendData()`: `wrote` is what `write` returns, `none` for an error; it has then taken that many
-- bytes.
unfoldable pub send_data : Option ℕ → Method World Bool
send_data wrote w = send_string wrote (c_string w.conn.m_writebuf) w
