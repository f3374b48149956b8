-- ===== src/TcpConn/Reading.antt =====
-- request/tcp_conn.cpp, `read_once`: its loops end, what they hand to `parseData`, and where they
-- leave their buffers.
use simplechatserver.Prelude.{
  ◌≢◌, ℕ, zero, suc, ◌+◌, ◌-◌, ◌≤◌, ◌<◌, ◌≡◌, refl, ap, ◌⊎◌, inl, inr, Bool, Bool-cases, true,
  false, Option, none, some, List, [], ◌∷◌, length, arith, leb, Outcome, returns,
}
use simplechatserver.TcpConn.{
  World, ReadResult, got, again, failed, Message, Trigger, lt, et, max_read_len, semp_len,
  store_chunk, stored_in, terminate, finish, Next, stops, goes_on, or_undefined, lt_step, et_step,
  read_loop, read_by, read_body, rounds, stop_with,
}

-- What POSIX says of `read`: it gives at most as many bytes as it was asked for.
abbrev pub Fits : ℕ → ReadResult → Type 0
Fits n (got bs) = length bs ≤ n
Fits n r = Unit

store_chunk-alllen :
    (bs : List ℕ) (w w' : World)
    → store_chunk bs w ≡ some w'
    → w'.conn.alllen ≡ w.conn.alllen + length bs
unfolding store_chunk
store_chunk-alllen bs w w' h = elim (Bool-cases (leb (length bs) semp_len)) [
  | inl small ↦ by_copy _ (rw (small, store_chunk) at h)
  | inr big ↦ absurd (ground (arith, h, big))
]
  where
    by_copy :
        (o : Option (List ℕ))
        → stored_in w (length bs) o ≡ some w'
        → w'.conn.alllen ≡ w.conn.alllen + length bs
    by_copy none h = cc
    by_copy (some buf) h = ground arith

terminate-alllen : (w w' : World) → terminate w ≡ some w' → w'.conn.alllen ≡ w.conn.alllen
unfolding terminate
terminate-alllen w w' h = ground arith

or_undefined-goes_on :
    (o : Option World) (next : World → Next) (w' : World)
    → or_undefined o next ≡ goes_on w'
    → (u : World) × (o ≡ some u) × (next u ≡ goes_on w')
or_undefined-goes_on none next w' h = cc
or_undefined-goes_on (some u) next w' h = (u, refl, h)

goes_on-injective : (u w : World) → goes_on u ≡ goes_on w → u ≡ w
goes_on-injective u w h = cc

abbrev pub size_of : ReadResult → ℕ
size_of (got bs) = length bs
size_of r = 0

-- A round that goes on has read a byte at least, and counts what it has read.
abbrev Grows : (ReadResult → World → Next) → Type 0
Grows step =
    (r : ReadResult) (w w' : World)
    → step r w ≡ goes_on w'
    → (w'.conn.alllen ≡ w.conn.alllen + size_of r) × (0 < size_of r)

Next-cases :
    (n : Next) → ((o : Outcome World Bool) × (n ≡ stops o)) ⊎ ((w : World) × (n ≡ goes_on w))
Next-cases (stops o) = inl (o, refl)
Next-cases (goes_on w) = inr (w, refl)

stops-ne-goes_on : (o : Outcome World Bool) (w : World) → stops o ≢ goes_on w
stops-ne-goes_on o w h = cc

pub size-le : (n : ℕ) (r : ReadResult) → Fits n r → size_of r ≤ n
size-le n (got bs) h = h
size-le n again h = omega arith
size-le n failed h = omega arith

module _ (decode : List ℕ → Option Message) where
  lt_step-Grows : Grows (lt_step decode)
  unfolding lt_step
  lt_step-Grows (got []) w w' h = cc
  lt_step-Grows (got (b ∷ bs)) w w' h =
      let (u, e, h') =
        or_undefined-goes_on (store_chunk (b ∷ bs) w) (λ x. or_undefined (terminate x) goes_on) w'
          h in
      let (v, e', h'') = or_undefined-goes_on (terminate u) goes_on w' h' in
      (
        omega (
          arith,
          store_chunk-alllen (b ∷ bs) w u e,
          terminate-alllen u v e',
          ap (λ x. x.conn.alllen) (goes_on-injective v w' h''),
        ),
        omega arith,
      )
  lt_step-Grows again w w' h = cc
  lt_step-Grows failed w w' h = cc

  et_step-Grows : Grows (et_step decode)
  unfolding et_step
  et_step-Grows (got []) w w' h = cc
  et_step-Grows (got (b ∷ bs)) w w' h =
      let (u, e, h') = or_undefined-goes_on (store_chunk (b ∷ bs) w) goes_on w' h in
      (
        omega (
          arith,
          store_chunk-alllen (b ∷ bs) w u e,
          ap (λ x. x.conn.alllen) (goes_on-injective u w' h'),
        ),
        omega arith,
      )
  et_step-Grows again w w' h =
      let (u, e, h') = or_undefined-goes_on (terminate w) (λ x. stops (finish decode x)) w' h in
      absurd (stops-ne-goes_on (finish decode u) w' h')
  et_step-Grows failed w w' h = cc

  read_loop_total :
      (step : ReadResult → World → Next) (read : ℕ → ℕ → ReadResult)
      → Grows step
      → ((i n : ℕ) → Fits n (read i n))
      → (fuel i : ℕ) (w : World) → max_read_len - w.conn.alllen < fuel
      → (o : Outcome World Bool) × (read_loop decode step read fuel i w ≡ some o)
  unfolding read_loop
  read_loop_total step read grows fits zero i w h = absurd (omega arith)
  read_loop_total step read grows fits (suc fuel) i w h =
      elim (Next-cases (step (read i (max_read_len - w.conn.alllen)) w)) [
        | inl (o, e) ↦ (o, rw (e, read_loop))
        | inr (w', e) ↦
            let (counted, some_read) = grows _ w w' e in
            let room = size-le _ _ (fits i (max_read_len - w.conn.alllen)) in
            rw (e, read_loop) (read_loop_total step read grows fits fuel (i + 1) w' (omega arith))
      ]

  stop_with_total : (n : Next) → (o : Outcome World Bool) × (stop_with decode n ≡ some o)
  stop_with_total (stops o) = (o, refl)
  stop_with_total (goes_on w) = (returns true w, refl)

  read_by_total :
      (cstate : Trigger) (mode : ℕ) (read : ℕ → ℕ → ReadResult) (w : World)
      → ((i n : ℕ) → Fits n (read i n))
      → (o : Outcome World Bool) × (read_by decode cstate mode read w ≡ some o)
  unfolding read_by
  read_by_total lt zero read w fits =
      read_loop_total (lt_step decode) read lt_step-Grows fits (rounds decode w) 0 w (omega arith)
  read_by_total lt (suc zero) read w fits = stop_with_total _
  read_by_total lt (suc (suc mode)) read w fits = (returns false w, refl)
  read_by_total et mode read w fits =
      read_loop_total (et_step decode) read et_step-Grows fits (rounds decode w) 0 w (omega arith)

  -- What `read_once` does under its guard always comes to an end, in every mode, if `read` gives at
  -- most as many bytes as it is asked for.
  pub read_body_total :
      (cstate : Trigger) (mode : ℕ) (read : ℕ → ℕ → ReadResult) (w : World)
      → ((i n : ℕ) → Fits n (read i n))
      → (o : Outcome World Bool) × (read_body decode cstate mode read w ≡ some o)
  unfolding read_body
  read_body_total cstate mode read w fits = elim (Bool-cases (leb max_read_len w.conn.alllen)) [
    | inl full ↦ (returns false w, rw (full, read_body))
    | inr room ↦ rw (room, read_body) (read_by_total cstate mode read w fits)
  ]
