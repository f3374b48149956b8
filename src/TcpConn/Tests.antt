-- ===== src/TcpConn/Tests.antt =====
-- Runs of the reading loops at small inputs, and the theorems at inputs that meet their hypotheses.
use simplechatserver.Prelude.{
  ℕ, zero, suc, ◌≡◌, ◌≤◌, refl, true, false, Option, none, some, List, [], ◌∷◌, length, take,
  length-take, replicate, arith, pos, negsuc, Outcome, returns, throws, undefined, json_error,
  codes, ◌==◌, if◌then◌else◌, length-replicate, then_do, zeros, Bool, ◌++◌, pad,
}
use simplechatserver.SqlConnectionPool.{SqlConnectionPool}
use simplechatserver.TcpConn.{
  World, ReadResult, got, again, Message, lt, et, answer, reply, parse_data, send_data, read_body,
  clear_buf, modifies, read_event, write_event, max_read_len, finish,
}
use simplechatserver.TcpConn.Reading.{Fits, read_body_total}
use simplechatserver.TcpConn.Delivery.{filled, joined}
use simplechatserver.TcpConn.Requests.{request_delivered, oversized_read}
use simplechatserver.TcpConn.Racing.{late_clear}
use simplechatserver.TcpConn.Arming.{AtMost, tasks_call_once}

abbrev idle_pool : SqlConnectionPool
idle_pool = record {
  conlist = record { list = []; isblock = false; m_sem = none; m_max_count = negsuc 0 };
  allocated = [];
  closed = [];
}

-- Connection 5 with empty buffers.
abbrev quiet : World
quiet = record {
  conn = record {
    m_sql = none;
    m_fd = pos 5;
    m_buf = zeros 1024;
    m_writebuf = zeros 1024;
    alllen = 0;
  };
  pool = idle_pool;
  epoll = [];
  sent = [];
}

abbrev message : Message
message = record { id = pos 0; name = []; password = []; email = [] }

abbrev decode_any : List ℕ → Option Message
decode_any bs = some message

-- Two chunks, then nothing more.
abbrev two_chunks : ℕ → ℕ → ReadResult
two_chunks zero n = got (take n (b'[' ∷ b'0' ∷ []))
two_chunks (suc zero) n = got (take n (b']' ∷ []))
two_chunks _ n = again

abbrev chunks : List (List ℕ)
chunks = (b'[' ∷ b'0' ∷ []) ∷ (b']' ∷ []) ∷ []

length-take-le : (n : ℕ) (xs : List ℕ) → length (take n xs) ≤ n
length-take-le n xs = omega (arith, length-take n xs)

two_chunks-Fits : (i n : ℕ) → Fits n (two_chunks i n)
two_chunks-Fits zero n = length-take-le n (b'[' ∷ b'0' ∷ [])
two_chunks-Fits (suc zero) n = length-take-le n (b']' ∷ [])
two_chunks-Fits (suc (suc i)) n = tt

read_body_total_example :
    (o : Outcome World Bool) × (read_body decode_any lt 0 two_chunks quiet ≡ some o)
read_body_total_example = read_body_total decode_any lt 0 two_chunks quiet two_chunks-Fits

request_delivered_example :
    read_body decode_any lt 0 two_chunks (filled [] quiet)
    ≡ some (
        then_do
          (answer (some message) (filled (joined chunks) quiet))
          (λ _ w'. returns true (clear_buf w')))
request_delivered_example =
    request_delivered decode_any two_chunks lt chunks quiet (omega arith) (omega arith)
      (refl, omega arith, omega arith, (refl, omega arith, omega arith, tt)) refl

abbrev hundred : List ℕ
hundred = replicate 100 b'a'

abbrev flood : ℕ → ℕ → ReadResult
flood i n = got (take n (replicate 101 b'a'))

oversized_read_example : read_body decode_any et 0 flood (filled [] quiet) ≡ some undefined
oversized_read_example =
    oversized_read decode_any flood et [] (replicate 101 b'a') quiet (omega arith) tt refl
      (omega arith)

-- A decoder for texts of three bytes.
abbrev decode_three : List ℕ → Option Message
decode_three bs = if length bs == 3 then some message else none

late_clear_example :
    (w₁ w₂ w₃ : World) × (parse_data decode_three (filled (codes "[0]") quiet) ≡ returns tt w₁)
    × (w₁.epoll ≡ modifies quiet.conn.m_fd write_event ∷ [])
    × ((w₁.conn.m_buf ≡ pad max_read_len (codes "[0]")) × (w₁.conn.alllen ≡ 3))
    × (finish decode_three (filled (codes "[0]") quiet) ≡ returns true (clear_buf w₁))
    × ((clear_buf w₁).epoll ≡ w₁.epoll)
    × (send_data (some 3) w₁ ≡ returns true w₂)
    × (w₂.epoll ≡ w₁.epoll ++ (modifies quiet.conn.m_fd read_event ∷ []))
    × (w₂.sent ≡ codes "[2]" ∷ [])
    × (read_body decode_three lt 0 two_chunks w₂ ≡ some (throws json_error w₃))
unfolding reply
late_clear_example =
    late_clear decode_three two_chunks lt (codes "[0]") chunks message (codes "[2]") 3 quiet
      (length-replicate {A = ℕ} 1024 0) (omega arith) (omega arith) refl refl (omega arith)
      (omega arith) (refl, omega arith, omega arith, (refl, omega arith, omega arith, tt)) refl refl

tasks_call_once_example :
    ((o : Outcome World Bool) → read_body decode_any lt 0 two_chunks quiet ≡ some o → AtMost 1 o)
    × AtMost 1 (send_data (some 3) quiet)
tasks_call_once_example = tasks_call_once decode_any lt two_chunks (some 3) quiet
