-- ===== src/EpollUse/Gather.antt =====
-- The reading that learn/epoll_use.cpp and request/tcp_conn.cpp share in mode `ET`, apart from what
-- each does with it.
use simplechatserver.Prelude.{
  ℕ, zero, suc, ◌+◌, ◌-◌, ◌⊎◌, inl, inr, Bool, true, false, Option, none, some, List, [], ◌∷◌,
  Outcome, returns, undefined,
}
use simplechatserver.TcpConn
use simplechatserver.TcpConn.{World, Message, ReadResult, got, again, failed, remove_fd, clear_buf}
use simplechatserver.EpollUse.{
  Data, Server, store, terminate, or_undefined, finish, disconnect, set_data, max_read_len,
}

-- What a loop has read when it ends, and why it ends.
pub data Gathered : Type 0 where
  would_block : Data → Gathered
  peer_closed : Data → Gathered
  read_error : Data → Gathered
  overrun : Gathered

-- One `read`: the end, or the buffer with the bytes added.
abbrev pub stored : Option Data → Gathered ⊎ Data
stored none = inl overrun
stored (some d) = inr d

unfoldable pub look : ReadResult → Data → Gathered ⊎ Data
look (got []) d = inl (peer_closed d)
look (got (b ∷ bs)) d = stored (store (b ∷ bs) d)
look again d = inl (would_block d)
look failed d = inl (read_error d)

-- Reads until there is an end, on fuel.
unfoldable pub gather : (ℕ → ℕ → ReadResult) → ℕ → ℕ → Data → Option Gathered
unfolding look
gather read zero i d = none
gather read (suc fuel) i d = elim (look (read i (max_read_len - d.readlen)) d) [
  | inl g ↦ some g
  | inr d' ↦ gather read fuel (i + 1) d'
]

-- How epoll_use.cpp goes on from there.
abbrev pub handle : ℕ → Server → Gathered → Outcome Server Bool
handle fd s (would_block d) = or_undefined (terminate d) λ d'. finish fd d' s
handle fd s (peer_closed d) = returns true (disconnect fd s)
handle fd s (read_error d) = returns false (set_data fd d s)
handle fd s overrun = undefined

-- A connection of tcp_conn.cpp with this buffer.
abbrev pub holding : World → Data → World
holding w d = record w { conn = record w.conn { m_buf = d.buf; alllen = d.readlen } }

abbrev pub finish_in : (List ℕ → Option Message) → Option World → Outcome World Bool
finish_in decode none = undefined
finish_in decode (some w) = TcpConn.finish decode w

-- How tcp_conn.cpp goes on from there.
abbrev pub conn_handle : (List ℕ → Option Message) → World → Gathered → Outcome World Bool
conn_handle decode w (would_block d) = finish_in decode (TcpConn.terminate (holding w d))
conn_handle decode w (peer_closed d) = returns true (remove_fd (clear_buf (holding w d)))
conn_handle decode w (read_error d) = returns false (holding w d)
conn_handle decode w overrun = undefined
