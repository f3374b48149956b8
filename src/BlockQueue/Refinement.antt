-- ===== src/BlockQueue/Refinement.antt =====
-- log/block_queue.h: the circular array against a list of at most `m_max_size` items.
use mathlib.Core.Path.{ap₂}
use native.Mathlib.Nat.{mod-lt, mod-eq_of_lt, mod-add-mod, mod-eq-sub-mod, suc-mod}
use simplechatserver.Prelude.{
  ℕ, zero, suc, ◌+◌, ◌-◌, ◌%◌, ◌≤◌, ◌<◌, ◌≡◌, ◌≢◌, refl, sym, ap, ◌∙◌, Bool, Bool-cases, ◌⊎◌, inl,
  inr, length-append, ltb, ltb→lt, not-ltb→le, true, false, Option, some, List, [], ◌∷◌, ◌++◌, map,
  length, length-set, get_elem?, set, leb, le→leb, not-le→leb, lt→ltb, arith, ℤ, pos, negsuc,
  returns,
}
use simplechatserver.BlockQueue.{BlockQueue, push, pop, pop_timed, take_next, next_index, negate}

-- The number of indices that have gone by: the next index is this number modulo the size.
abbrev pub passed : ℤ → ℕ
passed (pos n) = suc n
passed (negsuc n) = n

-- The indices that the code keeps: -1 before the first use, else no negative one.
abbrev pub IsIndex : ℤ → Type 0
IsIndex (pos n) = Unit
IsIndex (negsuc n) = n ≡ 0

pub next_at : (i : ℤ) (m : ℕ) → 0 < m → IsIndex i → next_index i m ≡ pos (passed i % m)
next_at (pos n) m p v = refl
next_at (negsuc n) m p v =
    let none_gone : n % m ≡ 0 = ap (λ x. x % m) v ∙ mod-eq_of_lt p in
    ap negate none_gone ∙ sym (ap pos none_gone)

mod_apart : (a d m : ℕ) → 0 < d → d < m → a % m ≢ (a + d) % m
mod_apart a d m p h e =
    let r = a % m in
    let small : r < m = mod-lt a (omega arith) in
    let same : r ≡ (r + d) % m = e ∙ sym (mod-add-mod a m d) in
    elim (Bool-cases (ltb (r + d) m)) [
      | inl below ↦
          let below' : r + d < m = ltb→lt _ _ below in omega (arith, same ∙ mod-eq_of_lt below')
      | inr above ↦
          let above' : m ≤ r + d = not-ltb→le _ _ above in
          let over : (r + d) - m < m = omega arith in
          omega (arith, same ∙ mod-eq-sub-mod above' ∙ mod-eq_of_lt over)
    ]

module _ {ℓ} {A : Type ℓ} where
  -- `n` cells from the index `h` on, modulo `m`.
  abbrev pub cells : List A → ℕ → ℕ → ℕ → List (Option A)
  cells array m h zero = []
  cells array m h (suc n) = get_elem? array (h % m) ∷ cells array m (suc h) n

  -- The queue holds the items `l`, oldest first.
  pub record Holds (q : BlockQueue A) (l : List A) : Type ℓ where
    pub some_room : 0 < q.m_max_size
    pub allocated : length q.m_array ≡ q.m_max_size
    pub counted : q.m_size ≡ length l
    pub bounded : length l ≤ q.m_max_size
    pub front_index : IsIndex q.m_front
    pub back_index : IsIndex q.m_back
    pub stored : cells q.m_array q.m_max_size (passed q.m_front) (length l) ≡ map some l
    pub behind : passed q.m_back % q.m_max_size ≡ (passed q.m_front + length l) % q.m_max_size

  cells_mod : (array : List A) (m h k n : ℕ) → h % m ≡ k % m → cells array m h n ≡ cells array m k n
  cells_mod array m h k zero e = refl
  cells_mod array m h k (suc n) e =
      ap₂ (λ x t. get_elem? array x ∷ t) e
        (cells_mod array m (suc h) (suc k) n
          (suc-mod h m ∙ ap (λ x. suc x % m) e ∙ sym (suc-mod k m)))

  pub get_elem?-set_other :
      (l : List A) (i j : ℕ) (x : A) → i ≢ j → get_elem? (set l j x) i ≡ get_elem? l i
  get_elem?-set_other [] i j x ne = refl
  get_elem?-set_other (y ∷ l) zero zero x ne = absurd (ne refl)
  get_elem?-set_other (y ∷ l) zero (suc j) x ne = refl
  get_elem?-set_other (y ∷ l) (suc i) zero x ne = refl
  get_elem?-set_other (y ∷ l) (suc i) (suc j) x ne =
      get_elem?-set_other l i j x (λ e. ne (ap suc e))

  pub get_elem?-set : (l : List A) (i : ℕ) (x : A) → i < length l → get_elem? (set l i x) i ≡ some x
  get_elem?-set [] i x h = absurd (omega arith)
  get_elem?-set (y ∷ l) zero x h = refl
  get_elem?-set (y ∷ l) (suc i) x h = get_elem?-set l i x (omega arith)

  cells-set :
      (array : List A) (m h n j : ℕ) (x : A)
      → ((i : ℕ) → i < n → (h + i) % m ≢ j)
      → cells (set array j x) m h n ≡ cells array m h n
  cells-set array m h zero j x apart = refl
  cells-set array m h (suc n) j x apart =
      ap₂ (λ o t. o ∷ t)
        (get_elem?-set_other array (h % m) j x
          (λ e. apart 0 (omega arith) (ap (λ y. y % m) (omega arith) ∙ e)))
        (cells-set array m (suc h) n j x
          (λ i p e. apart (suc i) (omega arith) (ap (λ y. y % m) (omega arith) ∙ e)))

  cells_snoc :
      (array : List A) (m h n : ℕ)
      → cells array m h (suc n) ≡ cells array m h n ++ (get_elem? array ((h + n) % m) ∷ [])
  cells_snoc array m h zero = ap (λ y. get_elem? array (y % m) ∷ []) (omega arith)
  cells_snoc array m h (suc n) = ap (◌∷◌ (get_elem? array (h % m))) (
      cells_snoc array m (suc h) n
      ∙ ap (λ y. cells array m (suc h) n ++ (get_elem? array (y % m) ∷ [])) (omega arith))

  map-snoc : (l : List A) (x : A) → map some (l ++ (x ∷ [])) ≡ map some l ++ (some x ∷ [])
  map-snoc [] x = refl
  map-snoc (y ∷ l) x = ap (◌∷◌ (some y)) (map-snoc l x)

  pub push_at :
      (x : A) (q : BlockQueue A) (j : ℕ)
      → q.m_size < q.m_max_size
      → next_index q.m_back q.m_max_size ≡ pos j
      → j < length q.m_array
      → push x q
        ≡ returns true
            (record q { m_back = pos j; m_array = set q.m_array j x; m_size = suc q.m_size })
  unfolding push
  push_at x q j room next inside =
      let fits : leb q.m_max_size q.m_size ≡ false = not-le→leb _ _ room in
      let at : ltb j (length q.m_array) ≡ true = lt→ltb _ _ inside in rw (fits, next, at)

  -- On a queue that holds the items `l`: `push` returns `false` and changes nothing when there are
  -- `m_max_size` of them, and otherwise returns `true` and leaves a queue of the same size that
  -- holds `l` and then the new item.
  pub push-Holds :
      (x : A) (q : BlockQueue A) (l : List A)
      → Holds q l
      → ((length l ≡ q.m_max_size) × (push x q ≡ returns false q))
        ⊎ ((length l < q.m_max_size)
            × ((q' : BlockQueue A) × (push x q ≡ returns true q')
                × (q'.m_max_size ≡ q.m_max_size)
                × Holds q' (l ++ (x ∷ []))))
  unfolding push
  push-Holds x q l v = elim (Bool-cases (ltb (length l) q.m_max_size)) [
    | inr full ↦
        let most : q.m_max_size ≤ length l = not-ltb→le _ _ full in
        let refused : leb q.m_max_size q.m_size ≡ true = le→leb _ _ (omega (arith, v.counted)) in
        inl (omega (arith, v.bounded), rw refused)
    | inl fits ↦
        let m = q.m_max_size in
        let h = passed q.m_front in
        let n = length l in
        let room : n < m = ltb→lt _ _ fits in
        let j = (h + n) % m in
        let next : next_index q.m_back m ≡ pos j =
          next_at q.m_back m v.some_room v.back_index ∙ ap pos v.behind in
        let small : j < m = mod-lt (h + n) v.some_room in
        let inside : j < length q.m_array = omega (arith, v.allocated) in
        let longer : length (l ++ (x ∷ [])) ≡ suc n = length-append l (x ∷ []) ∙ omega arith in
        let q' : BlockQueue A = record q {
          m_back = pos j;
          m_array = set q.m_array j x;
          m_size = suc q.m_size;
        } in
        inr (
          room,
          (
            q',
            push_at x q j (omega (arith, v.counted)) next inside,
            refl,
            record {
              some_room = v.some_room;
              allocated = length-set q.m_array j x ∙ v.allocated;
              counted = ap suc v.counted ∙ sym longer;
              bounded = omega (arith, longer);
              front_index = v.front_index;
              back_index = tt;
              stored =
                  ap (cells (set q.m_array j x) m h) longer
                  ∙ cells_snoc (set q.m_array j x) m h n
                  ∙ ap₂ (λ c o. c ++ (o ∷ []))
                      (cells-set q.m_array m h n j x (λ i p e.
                          mod_apart (h + i) (n - i) m (omega arith) (omega arith)
                            (e ∙ ap (λ y. y % m) (omega arith)))
                        ∙ v.stored)
                      (get_elem?-set q.m_array j x inside)
                  ∙ sym (map-snoc l x);
              behind = sym (suc-mod (h + n) m) ∙ ap (λ y. y % m) (omega (arith, longer));
            },
          ),
        )
  ]

  -- On a queue that holds `x` and then `l`, both forms of `pop` return `x` without a wait, and
  -- leave a queue that holds `l`, of the same size.
  pub pop-Holds :
      (wait_ok : Bool) (woken : Option (BlockQueue A)) (x : A) (q : BlockQueue A) (l : List A)
      → Holds q (x ∷ l)
      → (q' : BlockQueue A) × (pop wait_ok q ≡ returns (some x) q')
        × (pop_timed woken q ≡ returns (some x) q')
        × (q'.m_max_size ≡ q.m_max_size)
        × Holds q' l
  unfolding pop pop_timed take_next
  pop-Holds wait_ok woken x q l v =
      let m = q.m_max_size in
      let h = passed q.m_front in
      let next : next_index q.m_front m ≡ pos (h % m) =
        next_at q.m_front m v.some_room v.front_index in
      let first : get_elem? q.m_array (h % m) ≡ some x = cc in
      let rest : cells q.m_array m (suc h) (length l) ≡ map some l = cc in
      let held : leb q.m_size 0 ≡ false = not-le→leb _ _ (omega (arith, v.counted)) in
      let q' : BlockQueue A = record q { m_front = pos (h % m); m_size = q.m_size - 1 } in
      (
        q',
        rw (held, next, first),
        rw (held, next, first),
        refl,
        record {
          some_room = v.some_room;
          allocated = v.allocated;
          counted = omega (arith, v.counted);
          bounded = omega (arith, v.bounded);
          front_index = tt;
          back_index = v.back_index;
          stored =
              cells_mod q.m_array m (suc (h % m)) (suc h) (length l) (sym (suc-mod h m)) ∙ rest;
          behind =
              v.behind
              ∙ ap (λ y. y % m) (omega arith)
              ∙ sym (mod-add-mod (suc h) m (length l))
              ∙ ap (λ y. (y + length l) % m) (suc-mod h m)
              ∙ mod-add-mod (suc (h % m)) m (length l);
        },
      )
