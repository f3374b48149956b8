-- ===== src/EpollUse/Gathering.antt =====
-- learn/epoll_use.cpp and request/tcp_conn.cpp: the loops for `ET` read in the same way.
use mathlib.Core.Option
use simplechatserver.Prelude.{
  ℕ, zero, suc, ◌+◌, ◌-◌, ◌<◌, ◌≡◌, refl, ap, ◌∙◌, ◌⊎◌, inl, inr, Bool-cases, false, Option, none,
  some, List, [], ◌∷◌, length, arith, leb, lt→ltb, copy_at,
}
use simplechatserver.TcpConn
use simplechatserver.TcpConn.{
  World, Message, Trigger, et, ReadResult, got, again, failed, remove_fd, clear_buf, stored_in,
}
use simplechatserver.TcpConn.Reading.{Fits, size_of, size-le}
use simplechatserver.EpollUse.{
  Data, Server, Next, stops, goes_on, store, then_goes, et_step, read_loop, read_once, rounds,
  max_read_len,
}
use simplechatserver.EpollUse.Gather.{
  Gathered, would_block, peer_closed, read_error, overrun, stored, look, gather, handle, holding,
  finish_in, conn_handle,
}

abbrev next_of : ℕ → Server → Gathered ⊎ Data → Next
next_of fd s (inl g) = stops (handle fd s g)
next_of fd s (inr d) = goes_on d

abbrev conn_next_of : (List ℕ → Option Message) → World → Gathered ⊎ Data → TcpConn.Next
conn_next_of decode w (inl g) = TcpConn.stops (conn_handle decode w g)
conn_next_of decode w (inr d) = TcpConn.goes_on (holding w d)

then_goes-stored : (fd : ℕ) (s : Server) (o : Option Data) → then_goes o ≡ next_of fd s (stored o)
then_goes-stored fd s none = refl
then_goes-stored fd s (some d) = refl

et_step-look :
    (fd : ℕ) (s : Server) (r : ReadResult) (d : Data) → et_step fd s r d ≡ next_of fd s (look r d)
unfolding et_step look
et_step-look fd s (got []) d = refl
et_step-look fd s (got (b ∷ bs)) d = then_goes-stored fd s (store (b ∷ bs) d)
et_step-look fd s again d = refl
et_step-look fd s failed d = refl

store_chunk-store :
    (bs : List ℕ) (w : World) (d : Data)
    → TcpConn.store_chunk bs (holding w d) ≡ Option.map (holding w) (store bs d)
unfolding TcpConn.store_chunk
store_chunk-store bs w d = elim (Bool-cases (leb (length bs) 100)) [
  | inl small ↦ rw small (by_copy (copy_at d.readlen bs d.buf))
  | inr big ↦ rw big
]
  where
    by_copy :
        (o : Option (List ℕ))
        → stored_in (holding w d) (length bs) o
          ≡ Option.map
              (holding w)
              (Option.map (λ b. record { buf = b; readlen = d.readlen + length bs }) o)
    by_copy none = refl
    by_copy (some b) = refl

module _ (decode : List ℕ → Option Message) where
  conn_stored :
      (w : World) (o : Option Data)
      → TcpConn.or_undefined (Option.map (holding w) o) TcpConn.goes_on
        ≡ conn_next_of decode w (stored o)
  conn_stored w none = refl
  conn_stored w (some d) = refl

  conn_finish :
      (o : Option World)
      → TcpConn.or_undefined o (λ w. TcpConn.stops (TcpConn.finish decode w))
        ≡ TcpConn.stops (finish_in decode o)
  conn_finish none = refl
  conn_finish (some w) = refl

  conn_et_step-look :
      (r : ReadResult) (w : World) (d : Data)
      → TcpConn.et_step decode r (holding w d) ≡ conn_next_of decode w (look r d)
  unfolding TcpConn.et_step look
  conn_et_step-look (got []) w d = refl
  conn_et_step-look (got (b ∷ bs)) w d =
      rw (store_chunk-store (b ∷ bs) w d) (conn_stored w (store (b ∷ bs) d))
  conn_et_step-look again w d = conn_finish (TcpConn.terminate (holding w d))
  conn_et_step-look failed w d = refl

  conn_loop-gather :
      (read : ℕ → ℕ → ReadResult) (fuel i : ℕ) (w : World) (d : Data)
      → TcpConn.read_loop decode (TcpConn.et_step decode) read fuel i (holding w d)
        ≡ Option.map (conn_handle decode w) (gather read fuel i d)
  unfolding TcpConn.read_loop gather
  conn_loop-gather read zero i w d = refl
  conn_loop-gather read (suc fuel) i w d =
      rw (conn_et_step-look (read i (max_read_len - d.readlen)) w d, TcpConn.read_loop, gather)
        (by_end (conn_loop-gather read fuel (i + 1) w) (look (read i (max_read_len - d.readlen)) d))
    where
      by_end :
          ((d' : Data)
            → TcpConn.read_loop decode (TcpConn.et_step decode) read fuel (i + 1) (holding w d')
              ≡ Option.map (conn_handle decode w) (gather read fuel (i + 1) d'))
          → (l : Gathered ⊎ Data)
          → elim (conn_next_of decode w l) [
            | TcpConn.stops o ↦ some o
            | TcpConn.goes_on w' ↦
                TcpConn.read_loop decode (TcpConn.et_step decode) read fuel (i + 1) w'
          ]
            ≡ Option.map
                (conn_handle decode w)
                (elim l [ inl g ↦ some g | inr d' ↦ gather read fuel (i + 1) d' ])
      by_end rest (inl g) = refl
      by_end rest (inr d') = rest d'

loop-gather :
    (read : ℕ → ℕ → ReadResult) (fd : ℕ) (s : Server) (fuel i : ℕ) (d : Data)
    → read_loop (et_step fd s) read fuel i d ≡ Option.map (handle fd s) (gather read fuel i d)
unfolding read_loop gather
loop-gather read fd s zero i d = refl
loop-gather read fd s (suc fuel) i d =
    rw (et_step-look fd s (read i (max_read_len - d.readlen)) d, read_loop, gather)
      (by_end (loop-gather read fd s fuel (i + 1)) (look (read i (max_read_len - d.readlen)) d))
  where
    by_end :
        ((d' : Data)
          → read_loop (et_step fd s) read fuel (i + 1) d'
            ≡ Option.map (handle fd s) (gather read fuel (i + 1) d'))
        → (l : Gathered ⊎ Data)
        → elim (next_of fd s l) [
          | stops o ↦ some o
          | goes_on d' ↦ read_loop (et_step fd s) read fuel (i + 1) d'
        ]
          ≡ Option.map
              (handle fd s)
              (elim l [ inl g ↦ some g | inr d' ↦ gather read fuel (i + 1) d' ])
    by_end rest (inl g) = refl
    by_end rest (inr d') = rest d'

look-cases :
    (r : ReadResult) (d : Data)
    → ((g : Gathered) × (look r d ≡ inl g))
      ⊎ ((d' : Data) × (look r d ≡ inr d') × (d'.readlen ≡ d.readlen + size_of r) × (0 < size_of r))
unfolding look
look-cases (got []) d = inl (peer_closed d, refl)
look-cases (got (b ∷ bs)) d = elim (Bool-cases (leb (length (b ∷ bs)) 100)) [
  | inl small ↦ rw small (by_copy (copy_at d.readlen (b ∷ bs) d.buf))
  | inr big ↦ inl (overrun, rw big)
]
  where
    by_copy :
        (o : Option (List ℕ))
        → ((g : Gathered) × (stored
                (Option.map (λ buf. record { buf = buf; readlen = d.readlen + length (b ∷ bs) }) o)
              ≡ inl g))
          ⊎ ((d' : Data) × (stored (
                  Option.map (λ buf. record { buf = buf; readlen = d.readlen + length (b ∷ bs) }) o)
                ≡ inr d')
              × (d'.readlen ≡ d.readlen + length (b ∷ bs))
              × (0 < length (b ∷ bs)))
    by_copy none = inl (overrun, refl)
    by_copy (some buf) =
        inr (record { buf = buf; readlen = d.readlen + length (b ∷ bs) }, refl, refl, omega arith)
look-cases again d = inl (would_block d, refl)
look-cases failed d = inl (read_error d, refl)

gather_total :
    (read : ℕ → ℕ → ReadResult)
    → ((i n : ℕ) → Fits n (read i n))
    → (fuel i : ℕ) (d : Data) → max_read_len - d.readlen < fuel
    → (g : Gathered) × (gather read fuel i d ≡ some g)
unfolding gather
gather_total read fits zero i d h = absurd (omega arith)
gather_total read fits (suc fuel) i d h = elim (look-cases (read i (max_read_len - d.readlen)) d) [
  | inl (g, e) ↦ (g, rw (e, gather))
  | inr (d', e, counted, some_read) ↦
      let fit = size-le _ _ (fits i (max_read_len - d.readlen)) in
      rw (e, gather) (gather_total read fits fuel (i + 1) d' (omega arith))
]

-- In mode `ET` the reading of `read_once` in epoll_use.cpp, for a descriptor below 1024, and that
-- of tcp_conn.cpp, from buffers that hold the same, with room in them, come to an end, if `read`
-- gives at most as many bytes as it is asked for; and they end at the same: both with what one
-- and the same loop has gathered, which each then hands on in its own way.
pub read_once-gather :
    (decode : List ℕ → Option Message) (mode fd : ℕ) (read : ℕ → ℕ → ReadResult) (w : World)
    (s : Server)
    → fd < 1024
    → s.alldata fd ≡ record { buf = w.conn.m_buf; readlen = w.conn.alllen }
    → w.conn.alllen < max_read_len
    → ((i n : ℕ) → Fits n (read i n))
    → (g : Gathered) × (gather read (rounds (s.alldata fd)) 0 (s.alldata fd) ≡ some g)
      × (read_once et mode fd read s ≡ some (handle fd s g))
      × (TcpConn.read_body decode et 0 read w ≡ some (conn_handle decode w g))
unfolding read_once TcpConn.read_body TcpConn.read_by
read_once-gather decode mode fd read w s small same room fits =
    let (g, e) = gather_total read fits (rounds (s.alldata fd)) 0 (s.alldata fd) (omega arith) in
    (
      g,
      e,
      rw (
        lt→ltb _ _ small,
        full,
        loop-gather read fd s (rounds (s.alldata fd)) 0 (s.alldata fd),
        e,
      ),
      conn_reads g e,
    )
  where
    conn_reads :
        (g : Gathered)
        → gather read (rounds (s.alldata fd)) 0 (s.alldata fd) ≡ some g
        → TcpConn.read_body decode et 0 read w ≡ some (conn_handle decode w g)
    conn_reads g e =
        let d : Data = record { buf = w.conn.m_buf; readlen = w.conn.alllen } in
        let has_room : leb max_read_len w.conn.alllen ≡ false = ground arith in
        rw has_room (
          conn_loop-gather decode read (rounds d) 0 w d
          ∙ ap (Option.map (conn_handle decode w)) (rw same at e))

    full : leb max_read_len (s.alldata fd).readlen ≡ false
    full = rw same (ground arith)
