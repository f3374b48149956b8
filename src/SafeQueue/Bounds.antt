-- ===== src/SafeQueue/Bounds.antt =====
-- safequeue/safequeue.h: the `int` arguments, converted to `size_t`, against the queue's length.
use simplechatserver.Prelude.{
  ℕ, ◌^◌, ◌≤◌, ◌<◌, ◌≡◌, ap, ◌∙◌, ◌↔◌, leb, true, false, [], ◌∷◌, length, take, drop, length-append,
  take-all, drop-all, min, arith, ℤ, pos, negsuc, to_size, IsInt, is_negative,
}
use simplechatserver.SafeQueue.{SafeQueue, push, pop_many, is_full}
use simplechatserver.SafeQueue.Fifo.{pop_many-take-drop}

module _ {ℓ} {A : Type ℓ} where
  -- `pop(n)` for `n` not negative hands over the first `n` items in order, or all if there are
  -- fewer, and leaves the rest in order.
  pub pop_many-pos :
      (n : ℕ) (q : SafeQueue A)
      → let m = min n (length q.list) in
        ((pop_many (pos n) q).0 ≡ take m q.list) × ((pop_many (pos n) q).1.list ≡ drop m q.list)
  pop_many-pos n q = let e = pop_many-take-drop (pos n) q in (ap (λ r. r.0) e, ap (λ r. r.1.list) e)

  -- `pop(n)` for a negative `int` empties a queue of fewer than 2^63 items: the cast to `size_t`
  -- makes the count huge.
  pub pop_many-negative :
      (num : ℤ) (q : SafeQueue A)
      → IsInt num
      → is_negative num ≡ true
      → length q.list < 2 ^ 63
      → ((pop_many num q).0 ≡ q.list) × ((pop_many num q).1.list ≡ [])
  pop_many-negative (pos n) q h neg small = cc
  pop_many-negative (negsuc n) q h neg small =
      let all : length q.list ≤ min (to_size (negsuc n)) (length q.list) = omega arith in
      let e = pop_many-take-drop (negsuc n) q in
      (ap (λ r. r.0) e ∙ take-all _ q.list all, ap (λ r. r.1.list) e ∙ drop-all _ q.list all)

  -- `isFull` compares the length with the bound if the bound is not negative; a queue that was
  -- made with a negative bound, as by `SafeQueue()`, is never full.
  pub is_full_iff :
      (q : SafeQueue A)
      → IsInt q.m_max_count
      → length q.list < 2 ^ 63
      → (is_full q ≡ true)
        ↔ ((is_negative q.m_max_count ≡ false) × (to_size q.m_max_count ≤ length q.list))
  unfolding is_full
  is_full_iff q h small = by_bound q.m_max_count h
    where
      by_bound :
          (m : ℤ)
          → IsInt m
          → (leb (to_size m) (length q.list) ≡ true)
            ↔ ((is_negative m ≡ false) × (to_size m ≤ length q.list))
      by_bound (pos n) h = ground arith
      by_bound (negsuc n) h = ground arith

  -- `push` asks no bound: one more push on a full queue makes it longer than `m_max_count`, and
  -- the queue stays full.
  pub push-is_full :
      (x : A) (q : SafeQueue A)
      → is_full q ≡ true
      → (to_size q.m_max_count < length (push x q).list) × (is_full (push x q) ≡ true)
  unfolding is_full push
  push-is_full x q full = ground (arith, length-append q.list (x ∷ []))
