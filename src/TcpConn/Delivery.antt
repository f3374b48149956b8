-- ===== src/TcpConn/Delivery.antt =====
-- request/tcp_conn.cpp, `read_once`: what becomes of a request that arrives in several reads.
use mathlib.Core.Path.{ap₂}
use simplechatserver.Prelude.{
  ℕ, zero, suc, ◌+◌, ◌-◌, ◌≤◌, ◌<◌, ◌≡◌, refl, sym, ap, ◌∙◌, Bool, Option, none, some, List, [],
  ◌∷◌, ◌++◌, length, length-append, set, append-nil, append_assoc, arith, le→leb, lt→ltb,
  not-lt→ltb, subst, Outcome, zeros, pad, copy_at-pad, length-replicate,
}
use simplechatserver.TcpConn.{
  World, ReadResult, got, Message, max_read_len, semp_len, store_chunk, stored_in, terminate, Next,
  stops, goes_on, lt_step, et_step, read_loop,
}

-- `w` with the bytes `bs` in `m_buf`, zeros behind them, and `alllen` set to their number.
abbrev pub filled : List ℕ → World → World
filled bs w = record w { conn = record w.conn { m_buf = pad max_read_len bs; alllen = length bs } }

abbrev pub joined : List (List ℕ) → List ℕ
joined [] = []
joined (c ∷ cs) = c ++ joined cs

-- From the i-th read on, with `n` bytes stored, the reads give these chunks, each of at least one
-- byte and of at most the hundred that `sempbuf` holds.
abbrev pub Arrives : (ℕ → ℕ → ReadResult) → ℕ → ℕ → List (List ℕ) → Type 0
Arrives read i n [] = Unit
Arrives read i n (c ∷ cs) =
    (read i (max_read_len - n) ≡ got c)
    × (0 < length c)
    × (length c ≤ semp_len)
    × Arrives read (i + 1) (n + length c) cs

pub set-pad : (xs : List ℕ) (k : ℕ) → set (xs ++ zeros k) (length xs) 0 ≡ xs ++ zeros k
set-pad [] zero = refl
set-pad [] (suc k) = refl
set-pad (x ∷ xs) k = ap (◌∷◌ x) (set-pad xs k)

pub length-pad : (n : ℕ) (xs : List ℕ) → length xs ≤ n → length (pad n xs) ≡ n
length-pad n xs h =
    omega
      (arith, length-append xs (zeros (n - length xs)), length-replicate {A = ℕ} (n - length xs) 0)

pub store_chunk-filled :
    (c bs : List ℕ) (w : World)
    → length c ≤ semp_len
    → length bs + length c ≤ max_read_len
    → store_chunk c (filled bs w) ≡ some (filled (bs ++ c) w)
unfolding store_chunk
store_chunk-filled c bs w small fits = rw (le→leb _ _ small) (
    ap (stored_in (filled bs w) (length c)) (copy_at-pad max_read_len bs c fits)
    ∙ ap
        (λ n.
          some
            (record w { conn = record w.conn { m_buf = pad max_read_len (bs ++ c); alllen = n } }))
        (sym (length-append bs c)))

pub terminate-filled :
    (bs : List ℕ) (w : World)
    → length bs < max_read_len
    → terminate (filled bs w) ≡ some (filled bs w)
unfolding terminate
terminate-filled bs w h =
    let n = length-pad max_read_len bs (omega arith) in
    rw (lt→ltb (length bs) (length (pad max_read_len bs)) (omega (arith, n))) (
      ap (λ b. some (record w { conn = record w.conn { m_buf = b; alllen = length bs } }))
        (set-pad bs (max_read_len - length bs)))

pub terminate-full :
    (bs : List ℕ) (w : World) → length bs ≡ max_read_len → terminate (filled bs w) ≡ none
unfolding terminate
terminate-full bs w h =
    let n = length-pad max_read_len bs (omega arith) in
    rw (not-lt→ltb (length bs) (length (pad max_read_len bs)) (omega (arith, n)))

-- While at most `limit` bytes are stored, a round stores its chunk and goes on.
abbrev pub Absorbs : ℕ → (ReadResult → World → Next) → Type 0
Absorbs limit step =
    (c bs : List ℕ) (w : World)
    → 0 < length c
    → length c ≤ semp_len
    → length bs + length c ≤ limit
    → step (got c) (filled bs w) ≡ goes_on (filled (bs ++ c) w)

module _ (decode : List ℕ → Option Message) where
  pub lt_step-Absorbs : Absorbs 1023 (lt_step decode)
  unfolding lt_step
  lt_step-Absorbs [] bs w ne small fits = absurd (omega arith)
  lt_step-Absorbs (x ∷ c) bs w ne small fits =
      rw (store_chunk-filled (x ∷ c) bs w small (omega arith))
        (rw (terminate-filled (bs ++ (x ∷ c)) w (omega (arith, length-append bs (x ∷ c)))))

  pub et_step-Absorbs : Absorbs 1024 (et_step decode)
  unfolding et_step
  et_step-Absorbs [] bs w ne small fits = absurd (omega arith)
  et_step-Absorbs (x ∷ c) bs w ne small fits =
      rw (store_chunk-filled (x ∷ c) bs w small (omega arith))

  read_loop_step :
      (step : ReadResult → World → Next) (read : ℕ → ℕ → ReadResult) (fuel i : ℕ) (w w' : World)
      → step (read i (max_read_len - w.conn.alllen)) w ≡ goes_on w'
      → read_loop decode step read (suc fuel) i w ≡ read_loop decode step read fuel (i + 1) w'
  unfolding read_loop
  read_loop_step step read fuel i w w' e = rw (e, read_loop)

  pub read_loop_stop :
      (step : ReadResult → World → Next) (read : ℕ → ℕ → ReadResult) (fuel i : ℕ) (w : World)
      (o : Outcome World Bool)
      → 0 < fuel
      → step (read i (max_read_len - w.conn.alllen)) w ≡ stops o
      → read_loop decode step read fuel i w ≡ some o
  unfolding read_loop
  read_loop_stop step read zero i w o h e = absurd (omega arith)
  read_loop_stop step read (suc fuel) i w o h e = rw (e, read_loop)

  -- The loop takes in the chunks that arrive, and goes on from there.
  pub read_loop-Arrives :
      (limit : ℕ) (step : ReadResult → World → Next) (read : ℕ → ℕ → ReadResult)
      → Absorbs limit step
      → (cs : List (List ℕ)) (bs : List ℕ) (fuel more i j : ℕ) (w : World) → fuel ≡ length cs + more
      → j ≡ i + length cs
      → length bs + length (joined cs) ≤ limit
      → Arrives read i (length bs) cs
      → read_loop decode step read fuel i (filled bs w)
        ≡ read_loop decode step read more j (filled (bs ++ joined cs) w)
  read_loop-Arrives limit step read absorbs [] bs fuel more i j w e f fits a =
      ap₂ (λ r k. read_loop decode step read r k (filled bs w)) (omega arith) (omega arith)
      ∙ ap (λ l. read_loop decode step read more j (filled l w)) (sym (append-nil bs))
  read_loop-Arrives limit step read absorbs (c ∷ cs) bs zero more i j w e f fits a =
      absurd (omega arith)
  read_loop-Arrives limit step read absorbs (c ∷ cs) bs (suc r) more i j w e f fits a =
      let len = length-append c (joined cs) in
      let here = absorbs c bs w a.1 a.2 (omega (arith, len)) in
      let longer = length-append bs c in
      read_loop_step step read r i (filled bs w) (filled (bs ++ c) w)
        (ap (λ x. step x (filled bs w)) a.0 ∙ here)
      ∙ read_loop-Arrives limit step read absorbs cs (bs ++ c) r more (i + 1) j w (omega arith)
          (omega arith) (omega (arith, len, longer))
          (subst (λ n. Arrives read (i + 1) n cs) (sym longer) a.3)
      ∙ ap (λ l. read_loop decode step read more j (filled l w)) (append_assoc bs c (joined cs))
