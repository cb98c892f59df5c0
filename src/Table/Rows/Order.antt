-- ===== src/Table/Rows/Order.antt =====
-- The order of the rows by the values of a column
-- (frontend/src/app/shared/datasources/crud-table.datasource.ts).
use mathlib.Core.Path.{subst}
use asl_bissieux.Prelude.{
  ◌≡◌, refl, sym, ap, ◌∙◌, ◌≢◌, Bool, false, List, [], ◌∷◌, map, Option, none, some, arith, filter,
  All, Bool-cases, inl, inr,
}
use asl_bissieux.Prelude.Int.{ℤ, pos, leb_ℤ}
use asl_bissieux.Prelude.Strings.{String, str_eq, eq_iff}
use asl_bissieux.Table.Columns.{Column}
use asl_bissieux.Table.Rows.{
  get_field, Row, Sort, directed, by_name, make_cell, make_row, is_shown, compare_by, sort_found,
  sort_rows, view,
}
use asl_bissieux.Table.Rows.Laws.{last_named, get_field-by_name, get_field-make_row}
use asl_bissieux.Sorting.{insert_by, sort_by, IsOrder, IsSorted, sort_by-IsSorted}

-- Two comparisons that agree on some elements sort those alike.
module _ {ℓ} {A : Type ℓ} (P : A → Type ℓ) (f g : A → A → ℤ)
    (agree : (x y : A) → P x → P y → f x y ≡ g x y) where
  insert_by-agree : (x : A) (ys : List A) → P x → All P ys → insert_by f x ys ≡ insert_by g x ys
  unfolding insert_by
  insert_by-agree x [] h a = refl
  insert_by-agree x (y ∷ ys) h a = rw (agree x y h a.0, insert_by-agree x ys h a.1) refl

  All-insert_by_P : (x : A) (ys : List A) → P x → All P ys → All P (insert_by g x ys)
  unfolding insert_by
  All-insert_by_P x [] h a = (h, tt)
  All-insert_by_P x (y ∷ ys) h a = elim (Bool-cases (leb_ℤ (g x y) (pos 0))) [
    | inl e ↦ rw e (h, a)
    | inr e ↦ rw e (a.0, All-insert_by_P x ys h a.1)
  ]

  All-sort_by : (xs : List A) → All P xs → All P (sort_by g xs)
  unfolding sort_by
  All-sort_by [] a = tt
  All-sort_by (x ∷ xs) a = All-insert_by_P x (sort_by g xs) a.0 (All-sort_by xs a.1)

  sort_by-agree : (xs : List A) → All P xs → sort_by f xs ≡ sort_by g xs
  unfolding sort_by
  sort_by-agree [] a = refl
  sort_by-agree (x ∷ xs) a =
      ap (insert_by f x) (sort_by-agree xs a.1)
      ∙ insert_by-agree x (sort_by g xs) a.0 (All-sort_by xs a.1)

module _ {ℓ} {T V : Type ℓ} where
  last_named-name :
      (k : String) (columns : List (Column T V)) (c : Column T V)
      → last_named k columns ≡ some c
      → c.name ≡ k
  last_named-name k [] c e = cc
  last_named-name k (d ∷ columns) c e =
      last_at (last_named k columns) refl (last_named-name k columns c)
    where
      last_at :
          (later : Option (Column T V))
          → last_named k columns ≡ later
          → (last_named k columns ≡ some c → c.name ≡ k)
          → c.name ≡ k
      last_at (some x) el rest = rest (ground arith)
      last_at none el rest =
          let hit = Bool-cases (str_eq d.name k) in ground (arith, eq_iff d.name k)

  -- The row carries the cell of the column that its result has.
  abbrev HasCell : Column T V → Row T V → Type ℓ
  HasCell c row = get_field c.name row.columns ≡ some (make_cell c row.original)

  -- The values of the column, compared in the direction.
  abbrev pub compare_values : Column T V → String → V → V → ℤ
  compare_values c direction x y = directed direction (c.sort_func x y)

  abbrev pub compare_results : Column T V → String → Row T V → Row T V → ℤ
  compare_results c direction a b =
      compare_values c direction (c.get_value a.original) (c.get_value b.original)

  compare_by-HasCell :
      (c : Column T V) (direction : String) (a b : Row T V)
      → HasCell c a
      → HasCell c b
      → compare_by c direction a b ≡ compare_results c direction a b
  unfolding compare_by make_cell
  compare_by-HasCell c direction a b ha hb = ground arith

  make_row-HasCell :
      (columns : List (Column T V)) (c : Column T V) (t : T)
      → last_named c.name columns ≡ some c
      → HasCell c (make_row (by_name columns []) t)
  unfolding make_row
  make_row-HasCell columns c t e = rw (get_field-make_row c.name columns t, e) refl

  All-HasCell :
      (p : Row T V → Bool) (columns : List (Column T V)) (c : Column T V) (results : List T)
      → last_named c.name columns ≡ some c
      → All (HasCell c) (filter p (map (make_row (by_name columns [])) results))
  All-HasCell p columns c [] e = tt
  All-HasCell p columns c (t ∷ results) e =
      elim (Bool-cases (p (make_row (by_name columns []) t))) [
        | inl shown ↦ rw shown (make_row-HasCell columns c t e, All-HasCell p columns c results e)
        | inr hidden ↦ rw hidden (All-HasCell p columns c results e)
      ]

  -- Sorted by a column whose comparison of values, in the direction of the sort, is total and
  -- transitive, the rows stand in the order of their results' values: each before those that it is
  -- not above.
  pub view-IsSorted :
      (columns : List (Column T V)) (sort : Sort) (pattern : String) (results : List T)
      (c : Column T V) (out : List (Row T V))
      → sort.active ≢ ""
      → last_named sort.active columns ≡ some c
      → IsOrder (compare_values c sort.direction)
      → view false columns (some sort) pattern results ≡ some out
      → IsSorted (compare_results c sort.direction) out
  unfolding view sort_rows sort_found
  view-IsSorted columns sort pattern results c out present found order e =
      let shown = is_shown false pattern (by_name columns []) in
      let rows = filter shown (map (make_row (by_name columns [])) results) in
      let hit : get_field sort.active (by_name columns []) ≡ some c =
        ground (arith, get_field-by_name sort.active columns []) in
      let own : last_named c.name columns ≡ some c =
        ap (λ k. last_named k columns) (last_named-name sort.active columns c found) ∙ found in
      let same : sort_by (compare_by c sort.direction) rows ≡ out =
        ground (arith, eq_iff sort.active "") in
      let agrees : sort_by (compare_by c sort.direction) rows
          ≡ sort_by (compare_results c sort.direction) rows =
        sort_by-agree (HasCell c) (compare_by c sort.direction) (compare_results c sort.direction)
          (compare_by-HasCell c sort.direction) rows (All-HasCell shown columns c results own) in
      let by_results : IsOrder (compare_results c sort.direction) = record {
        total = λ a b. order.total (c.get_value a.original) (c.get_value b.original);
        trans = λ a b d.
            order.trans (c.get_value a.original) (c.get_value b.original) (c.get_value d.original);
      } in
      subst (IsSorted (compare_results c sort.direction)) (sym agrees ∙ same)
        (sort_by-IsSorted (compare_results c sort.direction) by_results rows)
