-- ===== src/BlockQueue/Front.antt =====
-- log/block_queue.h: what `front` and `back` give.
use native.Mathlib.Nat.{mod-lt}
use simplechatserver.Prelude.{
  suc, ◌<◌, ◌%◌, ◌==◌, set, ◌≡◌, refl, subst, inl, inr, Bool, Bool-cases, true, false, Option, none,
  some, List, [], ◌∷◌, length, leb, if◌then◌else◌, arith, ℤ, pos, negsuc, Outcome, returns, blocks,
  undefined,
}
use simplechatserver.BlockQueue.{
  BlockQueue, push, front, back, pop, take_next, take_at, next_index, at,
}
use simplechatserver.BlockQueue.Refinement.{
  Holds, passed, next_at, push_at, get_elem?-set, pop-Holds,
}

module _ {ℓ} {A : Type ℓ} where
  -- On a queue without items whose `m_front` is still -1, as after the constructor or `clear`:
  -- `push` of `x` returns `true`, then `back` gives `x`, but `front` reads the array at -1.
  pub front-push :
      (x : A) (q : BlockQueue A)
      → Holds q []
      → q.m_front ≡ negsuc 0
      → (q' : BlockQueue A) × (push x q ≡ returns true q')
        × (back q' ≡ returns (some x) q')
        × (front q' ≡ undefined)
  unfolding back front
  front-push x q v first =
      let m = q.m_max_size in
      let j = passed q.m_back % m in
      let small : j < m = mod-lt (passed q.m_back) v.some_room in
      let inside : j < length q.m_array = omega (arith, v.allocated) in
      let next = next_at q.m_back m v.some_room v.back_index in
      let one : (0 == suc q.m_size) ≡ false = ground arith in
      (
        record q { m_back = pos j; m_array = set q.m_array j x; m_size = suc q.m_size },
        push_at x q j (omega (arith, v.counted, v.some_room)) next inside,
        rw (one, get_elem?-set q.m_array j x inside),
        rw (one, first),
      )

  -- After a call that takes an item and leaves others, `front` gives the item that is gone.
  abbrev Lags : Outcome (BlockQueue A) (Option A) → Type ℓ
  Lags (returns (some x) q) = (0 == q.m_size) ≡ false → front q ≡ returns (some x) q
  Lags _ = Unit

  take_at-Lags :
      (i : ℤ) (o : Option A) (q : BlockQueue A) → at q.m_array i ≡ o → Lags (take_at i o q)
  unfolding front
  take_at-Lags i none q e = tt
  take_at-Lags i (some x) q e = λ others. rw (others, e)

  pop-Lags : (wait_ok : Bool) (q : BlockQueue A) → Lags (pop wait_ok q)
  unfolding pop take_next
  pop-Lags wait_ok q = elim (Bool-cases (leb q.m_size 0)) [
    | inl empty ↦ rw empty (waits wait_ok)
    | inr some_left ↦
        rw some_left
          (let i = next_index q.m_front q.m_max_size in take_at-Lags i (at q.m_array i) q refl)
  ]
    where
      waits : (b : Bool) → Lags (if b then blocks q else returns none q)
      waits true = tt
      waits false = tt

  -- `pop` on a queue that holds `x`, then `y` and the items of `l`: it gives `x` and leaves `y` as the
  -- oldest item, but `front` then gives `x` once more.
  pub front-pop :
      (wait_ok : Bool) (x y : A) (q : BlockQueue A) (l : List A)
      → Holds q (x ∷ y ∷ l)
      → (q' : BlockQueue A) × (pop wait_ok q ≡ returns (some x) q')
        × Holds q' (y ∷ l)
        × (front q' ≡ returns (some x) q')
  front-pop wait_ok x y q l holds =
      let (q', popped, _, _, holds') = pop-Holds wait_ok none x q (y ∷ l) holds in
      let others : (0 == q'.m_size) ≡ false = rw holds'.counted (ground arith) in
      (q', popped, holds', subst Lags popped (pop-Lags wait_ok q) others)
