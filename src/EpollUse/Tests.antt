-- ===== src/EpollUse/Tests.antt =====
-- learn/epoll_use.cpp: the theorems at small inputs that meet their hypotheses.
use simplechatserver.Prelude.{
  ℕ, zero, suc, ◌≡◌, refl, true, Option, none, some, List, [], ◌∷◌, length-take, take, arith, pos,
  codes, negsuc, false, returns, ◌>>=◌, ◌>>◌, zeros, c_string,
}
use simplechatserver.TcpConn.{
  epollin, epollout, modifies, World, ReadResult, got, again, Message, lt, et, read_body,
}
use simplechatserver.TcpConn.Reading.{Fits}
use simplechatserver.EpollUse.{
  writable, Server, new_server, readable, parse_data, write_data, read_once, rounds, serve_events,
}
use simplechatserver.EpollUse.Gather.{Gathered, gather, handle, conn_handle}
use simplechatserver.EpollUse.Gathering.{read_once-gather}
use simplechatserver.EpollUse.Answers.{greeting, shared_writebuf}
use simplechatserver.EpollUse.Requests.{holds, request_answered}

-- One byte, then nothing more.
abbrev one_byte : ℕ → ℕ → ReadResult
one_byte zero n = got (take n (b'Y' ∷ []))
one_byte (suc i) n = again

one_byte-Fits : (i n : ℕ) → Fits n (one_byte i n)
one_byte-Fits zero n = omega (arith, length-take {A = ℕ} n (b'Y' ∷ []))
one_byte-Fits (suc i) n = tt

-- Connection 5 of the other server, with empty buffers.
abbrev quiet : World
quiet = record {
  conn = record {
    m_sql = none;
    m_fd = pos 5;
    m_buf = zeros 1024;
    m_writebuf = zeros 1024;
    alllen = 0;
  };
  pool = record {
    conlist = record { list = []; isblock = false; m_sem = none; m_max_count = negsuc 0 };
    allocated = [];
    closed = [];
  };
  epoll = [];
  sent = [];
}

abbrev decode_none : List ℕ → Option Message
decode_none bs = none

read_once-gather_example :
    (g : Gathered) × (gather one_byte (rounds (new_server.alldata 5)) 0 (new_server.alldata 5)
      ≡ some g)
    × (read_once et 0 5 one_byte new_server ≡ some (handle 5 new_server g))
    × (read_body decode_none et 0 one_byte quiet ≡ some (conn_handle decode_none quiet g))
unfolding new_server
read_once-gather_example =
    read_once-gather decode_none 0 5 one_byte quiet new_server (omega arith) refl (omega arith)
      one_byte-Fits

shared_writebuf_example :
    (s' : Server) × ((parse_data 5 (b'Y' ∷ 0 ∷ [])
          >> parse_data 6 (b'Y' ∷ 0 ∷ [])
          >> (write_data 5 (some 11) >>= λ _. write_data 6 (some 0)))
        new_server
      ≡ returns true s')
    × (s'.sent ≡ (5, greeting) ∷ (6, []) ∷ [])
unfolding new_server c_string
shared_writebuf_example =
    shared_writebuf 5 6 (b'Y' ∷ 0 ∷ []) (b'Y' ∷ 0 ∷ []) [] [] 11 0 new_server refl refl refl

-- The request "Yes" in two reads.
abbrev two_reads : ℕ → ℕ → ReadResult
two_reads zero n = got (take n (codes "Ye"))
two_reads (suc zero) n = got (take n (codes "s"))
two_reads _ n = again

request_answered_example :
    (s' : Server) × (serve_events lt et 0
        (readable 5 two_reads ∷ writable 5 (some 11) ∷ [])
        new_server
      ≡ some (returns tt s'))
    × (s'.sent ≡ (5, greeting) ∷ [])
    × (s'.alldata 5 ≡ holds [])
    × (s'.epoll ≡ modifies (pos 5) (epollout ∷ []) ∷ modifies (pos 5) (epollin ∷ []) ∷ [])
unfolding new_server
request_answered_example =
    request_answered lt 0 5 11 two_reads (codes "Ye" ∷ codes "s" ∷ []) (codes "es") new_server
      (omega arith) refl refl refl (omega arith) (omega arith)
      (refl, omega arith, omega arith, (refl, omega arith, omega arith, tt)) refl
