-- ===== src/TcpConn/Requests.antt =====
-- request/tcp_conn.cpp, `read_once`: a request that fits is parsed as it was sent, and what happens
-- to the ones that do not fit.
use simplechatserver.Prelude.{
  ℕ, ◌+◌, ◌-◌, ◌≤◌, ◌<◌, ◌≡◌, ap, ◌∙◌, true, some, none, List, [], ◌∷◌, ◌++◌, length, length-append,
  arith, not-le→leb, Outcome, returns, undefined, then_do, c_string-pad, IsText, Bool, Option,
}
use simplechatserver.TcpConn.{
  World, ReadResult, got, again, Message, Trigger, lt, et, max_read_len, semp_len, store_chunk,
  clear_buf, remove_fd, finish, Next, stops, or_undefined, lt_step, et_step, read_loop, read_by,
  read_body, rounds, parse_data, answer, decode_string,
}
use simplechatserver.TcpConn.Delivery.{
  filled, joined, Arrives, store_chunk-filled, terminate-filled, terminate-full, Absorbs,
  lt_step-Absorbs, et_step-Absorbs, read_loop_stop, read_loop-Arrives,
}

chunks-le :
    (read : ℕ → ℕ → ReadResult) (i n : ℕ) (cs : List (List ℕ))
    → Arrives read i n cs
    → length cs ≤ length (joined cs)
chunks-le read i n [] a = omega arith
chunks-le read i n (c ∷ cs) a =
    omega (arith, a.1, length-append c (joined cs), chunks-le read (i + 1) (n + length c) cs a.3)

store_chunk-oversized : (c : List ℕ) (w : World) → semp_len < length c → store_chunk c w ≡ none
unfolding store_chunk
store_chunk-oversized c w h = rw (not-le→leb (length c) semp_len h)

module _ (decode : List ℕ → Option Message) (read : ℕ → ℕ → ReadResult) where
  -- Where a round after the chunks `cs` stops the loop, `read_once` ends as that round does.
  stops_after :
      (limit : ℕ) (step : ReadResult → World → Next)
      → Absorbs limit step
      → (bs : List ℕ) (cs : List (List ℕ)) (w : World) (o : Outcome World Bool)
      → limit ≤ max_read_len
      → length (bs ++ joined cs) ≤ limit
      → Arrives read 0 (length bs) cs
      → step
          (read (length cs) (max_read_len - length (bs ++ joined cs)))
          (filled (bs ++ joined cs) w)
        ≡ stops o
      → read_loop decode step read (rounds decode (filled bs w)) 0 (filled bs w) ≡ some o
  stops_after limit step absorbs bs cs w o small fits a e =
      let few = chunks-le read 0 (length bs) cs a in
      let both = length-append bs (joined cs) in
      let left = rounds decode (filled bs w) - length cs in
      read_loop-Arrives decode limit step read absorbs cs bs (rounds decode (filled bs w)) left 0
        (length cs) w (omega (arith, few, both)) (omega arith) (omega (arith, both)) a
      ∙ read_loop_stop decode step read left (length cs) (filled (bs ++ joined cs) w) o
          (omega (arith, few, both)) e

  finish-filled :
      (bs : List ℕ) (w : World)
      → IsText bs
      → length bs < max_read_len
      → finish decode (filled bs w)
        ≡ then_do (answer (decode bs) (filled bs w)) (λ _ w'. returns true (clear_buf w'))
  unfolding finish parse_data
  finish-filled bs w t h =
      ap (λ o. then_do (decode_string decode o (filled bs w)) (λ _ w'. returns true (clear_buf w')))
        (c_string-pad max_read_len bs t h)

  -- What arrives behind the bytes `bs` that the buffer still holds is parsed together with them.
  pub request_behind :
      (cstate : Trigger) (bs : List ℕ) (cs : List (List ℕ)) (w : World)
      → length (bs ++ joined cs) < max_read_len
      → IsText (bs ++ joined cs)
      → Arrives read 0 (length bs) cs
      → read (length cs) (max_read_len - length (bs ++ joined cs)) ≡ again
      → read_body decode cstate 0 read (filled bs w)
        ≡ some (
            then_do
              (answer (decode (bs ++ joined cs)) (filled (bs ++ joined cs) w))
              (λ _ w'. returns true (clear_buf w')))
  unfolding read_body read_by lt_step et_step
  request_behind lt bs cs w h t a e =
      let both = length-append bs (joined cs) in
      rw (not-le→leb max_read_len (length bs) (omega (arith, both))) (
        stops_after 1023 (lt_step decode) (lt_step-Absorbs decode) bs cs w _ (omega arith)
          (omega arith) a
          (ap (λ r. lt_step decode r (filled (bs ++ joined cs) w)) e
            ∙ ap stops (finish-filled (bs ++ joined cs) w t h)))
  request_behind et bs cs w h t a e =
      let both = length-append bs (joined cs) in
      rw (not-le→leb max_read_len (length bs) (omega (arith, both))) (
        stops_after 1024 (et_step decode) (et_step-Absorbs decode) bs cs w _ (omega arith)
          (omega arith) a
          (ap (λ r. et_step decode r (filled (bs ++ joined cs) w)) e
            ∙ ap (λ o. or_undefined o (λ w'. stops (finish decode w')))
                (terminate-filled (bs ++ joined cs) w h)
            ∙ ap stops (finish-filled (bs ++ joined cs) w t h)))

  -- A request of fewer than 1024 bytes, none of them zero, that arrives in reads of 1 to 100 bytes
  -- until `read` gives EAGAIN: in both trigger modes `parseData` answers the request exactly as it
  -- was sent, and unless it fails the buffer is cleared and `read_once` gives true.
  pub request_delivered :
      (cstate : Trigger) (cs : List (List ℕ)) (w : World)
      → length (joined cs) < max_read_len
      → IsText (joined cs)
      → Arrives read 0 0 cs
      → read (length cs) (max_read_len - length (joined cs)) ≡ again
      → read_body decode cstate 0 read (filled [] w)
        ≡ some (
            then_do
              (answer (decode (joined cs)) (filled (joined cs) w))
              (λ _ w'. returns true (clear_buf w')))
  request_delivered cstate = request_behind cstate []

  lt_oversized :
      (c : List ℕ) (w : World) → semp_len < length c → lt_step decode (got c) w ≡ stops undefined
  unfolding lt_step
  lt_oversized [] w big = absurd (omega arith)
  lt_oversized (b ∷ bs) w big = rw (store_chunk-oversized (b ∷ bs) w big)

  et_oversized :
      (c : List ℕ) (w : World) → semp_len < length c → et_step decode (got c) w ≡ stops undefined
  unfolding et_step
  et_oversized [] w big = absurd (omega arith)
  et_oversized (b ∷ bs) w big = rw (store_chunk-oversized (b ∷ bs) w big)

  lt_full :
      (c bs : List ℕ) (w : World)
      → length bs + length c ≡ max_read_len
      → 0 < length c
      → length c ≤ semp_len
      → lt_step decode (got c) (filled bs w) ≡ stops undefined
  unfolding lt_step
  lt_full [] bs w full ne small = absurd (omega arith)
  lt_full (b ∷ c) bs w full ne small =
      rw (store_chunk-filled (b ∷ c) bs w small (omega arith))
        (rw (terminate-full (bs ++ (b ∷ c)) w (omega (arith, length-append bs (b ∷ c)))))

  -- `read` may write up to 1024 bytes into the hundred bytes of `sempbuf`: whenever a read gives
  -- more than 100 bytes, in either trigger mode, `read_once` is undefined.
  pub oversized_read :
      (cstate : Trigger) (cs : List (List ℕ)) (c : List ℕ) (w : World)
      → length (joined cs) < max_read_len
      → Arrives read 0 0 cs
      → read (length cs) (max_read_len - length (joined cs)) ≡ got c
      → semp_len < length c
      → read_body decode cstate 0 read (filled [] w) ≡ some undefined
  unfolding read_body read_by
  oversized_read lt cs c w h a e big =
      stops_after 1023 (lt_step decode) (lt_step-Absorbs decode) [] cs w _ (omega arith)
        (omega arith) a
        (ap (λ r. lt_step decode r (filled (joined cs) w)) e
          ∙ lt_oversized c (filled (joined cs) w) big)
  oversized_read et cs c w h a e big =
      stops_after 1024 (et_step decode) (et_step-Absorbs decode) [] cs w _ (omega arith)
        (omega arith) a
        (ap (λ r. et_step decode r (filled (joined cs) w)) e
          ∙ et_oversized c (filled (joined cs) w) big)

  -- In mode `LT`, when a chunk brings a request to exactly 1024 bytes, `read_once` writes the zero
  -- behind the end of `m_buf`, which is undefined.
  pub lt_overruns :
      (cs : List (List ℕ)) (c : List ℕ) (w : World)
      → length (joined cs) + length c ≡ max_read_len
      → 0 < length c
      → length c ≤ semp_len
      → Arrives read 0 0 cs
      → read (length cs) (max_read_len - length (joined cs)) ≡ got c
      → read_body decode lt 0 read (filled [] w) ≡ some undefined
  unfolding read_body read_by
  lt_overruns cs c w full ne small a e =
      stops_after 1023 (lt_step decode) (lt_step-Absorbs decode) [] cs w _ (omega arith)
        (omega arith) a
        (ap (λ r. lt_step decode r (filled (joined cs) w)) e
          ∙ lt_full c (joined cs) w full ne small)

  -- In mode `ET`, a request of exactly 1024 bytes is thrown away: the next `read` asks for no bytes
  -- and gives none, which `read_once` takes for a closed connection, so it clears the buffer, takes
  -- the descriptor off the epoll set and gives true, and `parseData` never runs.
  pub et_drops :
      (cs : List (List ℕ)) (w : World)
      → length (joined cs) ≡ max_read_len
      → Arrives read 0 0 cs
      → read (length cs) 0 ≡ got []
      → read_body decode et 0 read (filled [] w) ≡ some (returns true (remove_fd (filled [] w)))
  unfolding read_body read_by et_step clear_buf
  et_drops cs w full a e =
      let none_left : max_read_len - length (joined cs) ≡ 0 = omega arith in
      stops_after 1024 (et_step decode) (et_step-Absorbs decode) [] cs w _ (omega arith)
        (omega arith) a
        (ap (λ n. et_step decode (read (length cs) n) (filled (joined cs) w)) none_left
          ∙ ap (λ r. et_step decode r (filled (joined cs) w)) e)
