-- ===== src/UserTable/Rows.antt =====
-- request/tcp_conn.cpp, `initAllResult`: which row a lookup in the table `user` finds.
use simplechatserver.Prelude.{
  ℕ, returns, ◌++◌, ◌≡◌, refl, sym, ap, ◌∙◌, inl, inr, Bool-cases, Option-cases, true, false,
  Option, none, some, List, [], ◌∷◌, ◌==◌, ==_iff, map, if◌then◌else◌, arith,
}
use mathlib.Core.Option.{or_else}
use simplechatserver.SafeQueue.Semaphore.{IsCoupled}
use simplechatserver.SqlConnectionPool.{Mysql, SqlConnectionPool}
use simplechatserver.UserTable.Loading.{init_all_result-gives_back}
use simplechatserver.UserTable.{
  Loader, init_all_result, Row, Table, Text, add_rows, assign, cols_of, fields, find, or_empty,
  text_eq, uid_of,
}

text_eq_sound : (a b : Text) → text_eq a b ≡ true → a ≡ b
text_eq_sound [] [] e = refl
text_eq_sound [] (y ∷ b) e = cc
text_eq_sound (x ∷ a) [] e = cc
text_eq_sound (x ∷ a) (y ∷ b) e = elim (Bool-cases (x == y)) [
  | inl h ↦
      let rest : text_eq a b ≡ true = sym (rw h) ∙ e in
      let heads : x ≡ y = (==_iff x y).0 h in let tails : a ≡ b = text_eq_sound a b rest in cc
  | inr h ↦ let bad : false ≡ true = sym (rw h) ∙ e in cc
]

text_eq_refl : (a : Text) → text_eq a a ≡ true
text_eq_refl [] = refl
text_eq_refl (x ∷ a) = let heads : (x == x) ≡ true = ground arith in rw (heads, text_eq_refl a)

find-assign :
    (uid k : Text) (c : List Text) (t : Table)
    → find uid (assign k c t) ≡ (if text_eq k uid then some c else find uid t)
unfolding find assign
find-assign uid k c [] = refl
find-assign uid k c ((k', v) ∷ t) = elim (Bool-cases (text_eq k' k)) [
  | inl h ↦
      let same : k' ≡ k = text_eq_sound k' k h in
      elim (Bool-cases (text_eq k uid)) [
        | inl g ↦ rw (h, find, g)
        | inr g ↦ rw (h, find, g, same, g)
      ]
  | inr h ↦ elim (Bool-cases (text_eq k' uid)) [
    | inl g ↦ elim (Bool-cases (text_eq k uid)) [
      | inl g' ↦
          let one : k' ≡ uid = text_eq_sound k' uid g in
          let two : k ≡ uid = text_eq_sound k uid g' in
          let same : k' ≡ k = cc in
          let bad : false ≡ true = sym h ∙ ap (λ x. text_eq x k) same ∙ text_eq_refl k in cc
      | inr g' ↦ rw (h, find, g, g')
    ]
    | inr g ↦ rw (h, find, g, find-assign uid k c t)
  ]
]

-- A row of the query: its first field, the id, and the fields behind it.
abbrev pub Record : Type 0
Record = Option Text × List (Option Text)

abbrev pub row_of : Record → Row
row_of (id, columns) = id ∷ columns

-- The columns behind the id of the last row with the given id, if there is one.
abbrev pub last_cols : Text → List Record → Option (List Text)
last_cols uid [] = none
last_cols uid ((id, columns) ∷ rs) = elim (last_cols uid rs) [
  | some cols ↦ some cols
  | none ↦ if text_eq (or_empty id) uid then some (map or_empty columns) else none
]

fields-map : (r : Row) → fields r ≡ map or_empty r
fields-map [] = refl
fields-map (f ∷ r) = ap (λ l. or_empty f ∷ l) (fields-map r)

-- In the table that the loop makes of rows with a first field, over a table `t`, a lookup gives the
-- columns behind the first of the last row whose first field is that id, null fields as empty
-- texts, and what `t` gave where no row has it.
find-add_rows :
    (uid : Text) (rows : List Record) (t : Table)
    → find uid (add_rows (map row_of rows) t) ≡ or_else (last_cols uid rows) (find uid t)
unfolding add_rows or_else
find-add_rows uid [] t = refl
find-add_rows uid ((id, columns) ∷ rs) t =
    let r : Row = id ∷ columns in
    let same = fields-map columns in
    find-add_rows uid rs (assign (uid_of r) (cols_of r) t)
    ∙ elim (Option-cases (last_cols uid rs)) [
      | inr (cols, h) ↦ rw h
      | inl h ↦ elim (Bool-cases (text_eq (or_empty id) uid)) [
        | inl g ↦ rw (h, find-assign uid (uid_of r) (cols_of r) t, g, same)
        | inr g ↦ rw (h, find-assign uid (uid_of r) (cols_of r) t, g)
      ]
    ]

or_else-none : (o : Option (List Text)) → or_else o none ≡ o
unfolding or_else
or_else-none none = refl
or_else-none (some x) = refl

-- `initAllResult` with a connection in front of a pool whose semaphore counts its entries, where the
-- query succeeds and gives rows that each have a first field: it returns, with the connection given
-- back, and whatever the table was, a lookup in it then gives the columns behind the first of the
-- last row whose first field is that id, null fields as empty texts, and nothing where no row has it.
pub init_all_result-last_cols :
    (rows : List Record) (p : SqlConnectionPool) (t : Table) (h : ℕ) (rest : List Mysql)
    → IsCoupled p.conlist
    → p.conlist.list ≡ some h ∷ rest
    → (l : Loader) × (init_all_result
          (record { query_ok = true; result = some (map row_of rows) })
          (record { pool = p; user = t })
        ≡ returns tt l)
      × (l.pool.conlist.list ≡ rest ++ (some h ∷ []))
      × ((uid : Text) → find uid l.user ≡ last_cols uid rows)
unfolding find
init_all_result-last_cols rows p t h rest v e =
    let (p', ran, back, _) =
      init_all_result-gives_back true (some (map row_of rows)) p t h rest v e in
    (
      record { pool = p'; user = add_rows (map row_of rows) [] },
      ran,
      back,
      λ uid. find-add_rows uid rows [] ∙ or_else-none (last_cols uid rows),
    )
