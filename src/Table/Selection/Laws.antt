-- ===== src/Table/Selection/Laws.antt =====
-- Which rows are selected after each method of the selection
-- (frontend/src/app/shared/components/crud-table/crud-table.component.ts).
use asl_bissieux.Prelude.{
  ℕ, ◌≡◌, refl, Bool, false, ◌||◌, not, List, [], ◌∷◌, ◌++◌, Option, none, some, arith,
  if◌then◌else◌, filter, find_index?, any, is_some,
}
use asl_bissieux.Prelude.Strings.{String, str_eq, eq_iff}
use asl_bissieux.Table.Selection.{
  Item, has_hash, get_index, toggle, is_selected, is_present, all_selected, select_rows, toggle_all,
  differ,
}

module _ {ℓ} {A : Type ℓ} (p : A → Bool) where
  is_some-find_index? : (xs : List A) → is_some (find_index? p xs) ≡ any p xs
  is_some-find_index? [] = refl
  is_some-find_index? (x ∷ xs) = ground (arith, is_some-find_index? xs)

  pub any-append : (xs ys : List A) → any p (xs ++ ys) ≡ any p xs || any p ys
  any-append [] ys = refl
  any-append (x ∷ xs) ys = ground (arith, any-append xs ys)

module _ {ℓ} {T : Type ℓ} (stringify : T → String) where
  pub is_selected-any :
      (row : T) (items : List (Item T))
      → is_selected stringify row items ≡ any (has_hash (stringify row)) items
  unfolding is_selected
  is_selected-any row items = is_some-find_index? (has_hash (stringify row)) items

  pub get_index-any :
      (row : T) (items : List (Item T))
      → is_some (get_index stringify row items) ≡ any (has_hash (stringify row)) items
  unfolding get_index
  get_index-any row items = is_some-find_index? (has_hash (stringify row)) items

-- Unselecting a hash leaves the others.
pub any-filter_hash {ℓ} :
    {T : Type ℓ} (h k : String) (items : List (Item T))
    → any (has_hash k) (filter (λ item. not (has_hash h item)) items)
      ≡ (if str_eq k h then false else any (has_hash k) items)
any-filter_hash h k [] = ground arith
any-filter_hash h k (item ∷ items) =
    ground (arith, any-filter_hash h k items, eq_iff k h, eq_iff item.hash h, eq_iff item.hash k)

module _ {ℓ} {T : Type ℓ} (stringify : T → String) where
  any-toggle_at :
      (row : T) (k : String) (items : List (Item T)) (o : Option ℕ)
      → get_index stringify row items ≡ o
      → any (has_hash k) (toggle stringify row items) ≡ (
          if str_eq k (stringify row) then not (any (has_hash k) items) else any (has_hash k) items)
  unfolding toggle
  any-toggle_at row k items none e =
      rw (e, toggle)
        (rw (any-append (has_hash k) items (record { hash = stringify row; row = row } ∷ [])) (
          ground (
            arith,
            get_index-any stringify row items,
            eq_iff k (stringify row),
            eq_iff (stringify row) k,
          )))
  any-toggle_at row k items (some i) e =
      rw (e, toggle)
        (ground (
          arith,
          any-filter_hash (stringify row) k items,
          get_index-any stringify row items,
          eq_iff k (stringify row),
        ))

  -- Rows that are written alike are selected alike.
  pub is_selected-same :
      (row other : T) (items : List (Item T))
      → stringify row ≡ stringify other
      → is_selected stringify row items ≡ is_selected stringify other items
  is_selected-same row other items e =
      rw (is_selected-any stringify row items, is_selected-any stringify other items, e)

  -- `toggle` flips the rows that are written as the given one, and no other.
  pub is_selected-toggle :
      (row other : T) (items : List (Item T))
      → is_selected stringify other (toggle stringify row items) ≡ (
          if str_eq (stringify other) (stringify row)
          then not (is_selected stringify row items)
          else is_selected stringify other items)
  is_selected-toggle row other items = ground (
    arith,
    is_selected-any stringify other (toggle stringify row items),
    is_selected-any stringify row items,
    is_selected-any stringify other items,
    any-toggle_at row (stringify other) items (get_index stringify row items) refl,
    eq_iff (stringify other) (stringify row),
  )

  -- The loop of `toggleAll` brings every row that it meets to `r`.
  pub is_selected-select_rows :
      (r : Bool) (rows : List T) (row : T) (items : List (Item T))
      → is_selected stringify row (select_rows stringify r rows items)
        ≡ (if is_present stringify row rows then r else is_selected stringify row items)
  unfolding select_rows is_present
  is_selected-select_rows r [] row items = refl
  is_selected-select_rows r (next ∷ rows) row items =
      let items' =
        if differ (is_selected stringify next items) r
        then toggle stringify next items
        else items in
      ground (
        arith,
        is_selected-select_rows r rows row items',
        is_selected-toggle next row items,
        is_selected-same next row items,
        eq_iff (stringify next) (stringify row),
        eq_iff (stringify row) (stringify next),
      )

  -- `toggleAll` selects every row of the table, or unselects every one if all were selected, and
  -- leaves a row that the table does not hold as it is.
  pub is_selected-toggle_all :
      (results : List T) (row : T) (items : List (Item T))
      → is_selected stringify row (toggle_all stringify results items) ≡ (
          if is_present stringify row results
          then not (all_selected stringify results items)
          else is_selected stringify row items)
  unfolding toggle_all
  is_selected-toggle_all results row items =
      is_selected-select_rows (not (all_selected stringify results items)) results row items
