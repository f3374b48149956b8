-- ===== src/Prelude/Lists.antt =====
-- Lists measured and indexed by native numbers, under the library's names, and counts over them.
use Prim.Native.Nat.{ℕ, zero, suc, ◌+◌, ◌-◌, ◌≤◌, min}
use mathlib.Core.Path.{◌≡◌, refl, ap}
use mathlib.Core.List.{List, [], ◌∷◌, ◌++◌}
use mathlib.Core.Option.{Option, none, some}
use native.Mathlib.Omega.{arith}

module _ {ℓ} {A : Type ℓ} where
  abbrev pub length : List A → ℕ
  length [] = 0
  length (x ∷ xs) = suc (length xs)

  abbrev pub get_elem? : List A → ℕ → Option A
  get_elem? [] i = none
  get_elem? (x ∷ xs) zero = some x
  get_elem? (x ∷ xs) (suc i) = get_elem? xs i

  -- A write out of bounds changes nothing.
  abbrev pub set : List A → ℕ → A → List A
  set [] i v = []
  set (x ∷ xs) zero v = v ∷ xs
  set (x ∷ xs) (suc i) v = x ∷ set xs i v

  abbrev pub take : ℕ → List A → List A
  take zero xs = []
  take (suc n) [] = []
  take (suc n) (x ∷ xs) = x ∷ take n xs

  abbrev pub drop : ℕ → List A → List A
  drop zero xs = xs
  drop (suc n) [] = []
  drop (suc n) (x ∷ xs) = drop n xs

  abbrev pub replicate : ℕ → A → List A
  replicate zero a = []
  replicate (suc n) a = a ∷ replicate n a

  -- `total f xs` adds up the weights `f x` of a list.
  abbrev pub total : (A → ℕ) → List A → ℕ
  total f [] = 0
  total f (x ∷ xs) = f x + total f xs

module _ {ℓ} {A : Type ℓ} where
  pub length-append : (xs ys : List A) → length (xs ++ ys) ≡ length xs + length ys
  length-append [] ys = omega arith
  length-append (x ∷ xs) ys = omega (arith, length-append xs ys)

  pub length-set : (xs : List A) (i : ℕ) (v : A) → length (set xs i v) ≡ length xs
  length-set [] i v = refl
  length-set (x ∷ xs) zero v = refl
  length-set (x ∷ xs) (suc i) v = ap suc (length-set xs i v)

  pub length-take : (n : ℕ) (xs : List A) → length (take n xs) ≡ min n (length xs)
  length-take zero xs = omega arith
  length-take (suc n) [] = omega arith
  length-take (suc n) (x ∷ xs) = omega (arith, length-take n xs)

  pub length-replicate : (n : ℕ) (a : A) → length (replicate n a) ≡ n
  length-replicate zero a = refl
  length-replicate (suc n) a = ap suc (length-replicate n a)

  pub take-all : (n : ℕ) (xs : List A) → length xs ≤ n → take n xs ≡ xs
  take-all zero [] h = refl
  take-all zero (x ∷ xs) h = absurd (omega arith)
  take-all (suc n) [] h = refl
  take-all (suc n) (x ∷ xs) h = ap (◌∷◌ x) (take-all n xs (omega arith))

  pub drop-all : (n : ℕ) (xs : List A) → length xs ≤ n → drop n xs ≡ []
  drop-all zero [] h = refl
  drop-all zero (x ∷ xs) h = absurd (omega arith)
  drop-all (suc n) [] h = refl
  drop-all (suc n) (x ∷ xs) h = drop-all n xs (omega arith)

  -- Replacing one entry moves the total by the difference of the two weights.
  pub total-set :
      (f : A → ℕ) (xs : List A) (i : ℕ) (old new : A)
      → get_elem? xs i ≡ some old
      → total f (set xs i new) + f old ≡ total f xs + f new
  total-set f [] i old new h = absurd (ground arith)
  total-set f (x ∷ xs) zero old new h = let e : x ≡ old = ground arith in omega (arith, ap f e)
  total-set f (x ∷ xs) (suc i) old new h = omega (arith, total-set f xs i old new h)

  -- Weights of at most one add up to at most the length.
  pub total-le-length : (f : A → ℕ) → ((x : A) → f x ≤ 1) → (xs : List A) → total f xs ≤ length xs
  total-le-length f h [] = omega arith
  total-le-length f h (x ∷ xs) = omega (arith, h x, total-le-length f h xs)

  -- Two equal concatenations whose first parts have one length agree part by part.
  pub append-injective :
      (xs ys us vs : List A) → length xs ≡ length ys → xs ++ us ≡ ys ++ vs → (xs ≡ ys) × (us ≡ vs)
  append-injective [] [] us vs h e = (refl, e)
  append-injective [] (y ∷ ys) us vs h e = absurd (omega arith)
  append-injective (x ∷ xs) [] us vs h e = absurd (omega arith)
  append-injective (x ∷ xs) (y ∷ ys) us vs h e =
      let head : x ≡ y = cc in
      let rest : xs ++ us ≡ ys ++ vs = cc in
      let (p, q) = append-injective xs ys us vs (omega arith) rest in (cc, q)

  pub get_elem?-snoc : (xs : List A) (x : A) → get_elem? (xs ++ (x ∷ [])) (length xs) ≡ some x
  get_elem?-snoc [] x = refl
  get_elem?-snoc (y ∷ xs) x = get_elem?-snoc xs x

  pub get_elem?-append :
      (xs ys : List A) (i : ℕ) (x : A) → get_elem? xs i ≡ some x → get_elem? (xs ++ ys) i ≡ some x
  get_elem?-append [] ys i x h = absurd (ground arith)
  get_elem?-append (y ∷ xs) ys zero x h = h
  get_elem?-append (y ∷ xs) ys (suc i) x h = get_elem?-append xs ys i x h

  pub get_elem?-past : (xs : List A) (i : ℕ) → length xs ≤ i → get_elem? xs i ≡ none
  get_elem?-past [] i h = refl
  get_elem?-past (x ∷ xs) zero h = absurd (omega arith)
  get_elem?-past (x ∷ xs) (suc i) h = get_elem?-past xs i (omega arith)

  pub le_of_get_elem?-none : (xs : List A) (i : ℕ) → get_elem? xs i ≡ none → length xs ≤ i
  le_of_get_elem?-none [] i h = omega arith
  le_of_get_elem?-none (x ∷ xs) zero h = absurd (ground arith)
  le_of_get_elem?-none (x ∷ xs) (suc i) h = omega (arith, le_of_get_elem?-none xs i h)

  -- An entry's weight is part of the total.
  pub total-ge :
      (f : A → ℕ) (xs : List A) (i : ℕ) (x : A) → get_elem? xs i ≡ some x → f x ≤ total f xs
  total-ge f [] i x h = absurd (ground arith)
  total-ge f (y ∷ xs) zero x h = let e : y ≡ x = ground arith in omega (arith, ap f e)
  total-ge f (y ∷ xs) (suc i) x h = omega (arith, total-ge f xs i x h)

  pub length-drop : (n : ℕ) (xs : List A) → length (drop n xs) ≡ length xs - n
  length-drop zero xs = omega arith
  length-drop (suc n) [] = omega arith
  length-drop (suc n) (x ∷ xs) = omega (arith, length-drop n xs)

  pub total-append : (f : A → ℕ) (xs ys : List A) → total f (xs ++ ys) ≡ total f xs + total f ys
  total-append f [] ys = omega arith
  total-append f (x ∷ xs) ys = omega (arith, total-append f xs ys)

  -- With a total of at most one, two entries with a weight are the same entry.
  pub total-le-one :
      (f : A → ℕ) (xs : List A) (i j : ℕ) (x y : A)
      → total f xs ≤ 1
      → get_elem? xs i ≡ some x
      → get_elem? xs j ≡ some y
      → 1 ≤ f x
      → 1 ≤ f y
      → i ≡ j
  total-le-one f [] i j x y h gi gj p q = absurd (ground arith)
  total-le-one f (z ∷ xs) zero zero x y h gi gj p q = refl
  total-le-one f (z ∷ xs) zero (suc j) x y h gi gj p q =
      let e : z ≡ x = ground arith in absurd (omega (arith, ap f e, total-ge f xs j y gj))
  total-le-one f (z ∷ xs) (suc i) zero x y h gi gj p q =
      let e : z ≡ y = ground arith in absurd (omega (arith, ap f e, total-ge f xs i x gi))
  total-le-one f (z ∷ xs) (suc i) (suc j) x y h gi gj p q =
      ap suc (total-le-one f xs i j x y (omega arith) gi gj p q)
