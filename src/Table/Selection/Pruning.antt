-- ===== src/Table/Selection/Pruning.antt =====
-- The selection never holds a row twice, and new results leave of it what they hold
-- (frontend/src/app/shared/components/crud-table/crud-table.component.ts).
use asl_bissieux.Prelude.{
  ℕ, ◌≡◌, refl, ap, Bool, false, ◌&&◌, ◌||◌, not, List, [], ◌∷◌, ◌++◌, map, Option, none, some,
  arith, if◌then◌else◌, filter, any,
}
use asl_bissieux.Prelude.Strings.{String, str_eq, eq_iff}
use asl_bissieux.Table.Selection.{
  Item, has_hash, get_index, toggle, is_selected, is_present, prune_rows, prune,
}
use asl_bissieux.Table.Selection.Laws.{
  is_selected-toggle, is_selected-same, is_selected-any, get_index-any, any-append, any-filter_hash,
}

module _ {ℓ} {T : Type ℓ} (stringify : T → String) where
  -- Each item carries the text of its row, and no text stands twice.
  abbrev pub IsValid : List (Item T) → Type 0
  IsValid [] = Unit
  IsValid (item ∷ items) =
      (item.hash ≡ stringify item.row) × (any (has_hash item.hash) items ≡ false) × IsValid items

  IsValid-filter :
      (h : String) (items : List (Item T))
      → IsValid items
      → IsValid (filter (λ item. not (has_hash h item)) items)
  IsValid-filter h [] v = tt
  IsValid-filter h (item ∷ items) v =
      ground (arith, IsValid-filter h items v.2, any-filter_hash h item.hash items)

  IsValid-append :
      (row : T) (items : List (Item T))
      → any (has_hash (stringify row)) items ≡ false
      → IsValid items
      → IsValid (items ++ record { hash = stringify row; row = row } ∷ [])
  IsValid-append row [] fresh v = (refl, refl, tt)
  IsValid-append row (item ∷ items) fresh v =
      let last : List (Item T) = record { hash = stringify row; row = row } ∷ [] in
      ground (
        arith,
        IsValid-append row items,
        any-append (has_hash item.hash) items last,
        eq_iff item.hash (stringify row),
        eq_iff (stringify row) item.hash,
      )

  toggle-IsValid_at :
      (row : T) (items : List (Item T)) (o : Option ℕ)
      → get_index stringify row items ≡ o
      → IsValid items
      → IsValid (toggle stringify row items)
  unfolding toggle
  toggle-IsValid_at row items none e v =
      rw (e, toggle)
        (IsValid-append row items (ground (arith, get_index-any stringify row items)) v)
  toggle-IsValid_at row items (some i) e v = rw (e, toggle) (IsValid-filter (stringify row) items v)

  -- `toggle` keeps the selection free of repetitions.
  pub toggle-IsValid :
      (row : T) (items : List (Item T)) → IsValid items → IsValid (toggle stringify row items)
  toggle-IsValid row items v = toggle-IsValid_at row items (get_index stringify row items) refl v

  -- The rows whose text is that of `row`.
  abbrev holds : T → List T → Bool
  holds row = any (λ other. str_eq (stringify other) (stringify row))

  abbrev IsDistinct : List T → Type 0
  IsDistinct [] = Unit
  IsDistinct (row ∷ rows) = (holds row rows ≡ false) × IsDistinct rows

  holds-same : (a b : T) (rows : List T) → stringify a ≡ stringify b → holds a rows ≡ holds b rows
  holds-same a b rows e = rw e

  is_present-same :
      (a b : T) (rows : List T)
      → stringify a ≡ stringify b
      → is_present stringify a rows ≡ is_present stringify b rows
  unfolding is_present
  is_present-same a b rows e = rw e

  is_selected-prune_rows :
      (results rows : List T) (row : T) (items : List (Item T))
      → IsDistinct rows
      → is_selected stringify row (prune_rows stringify results rows items) ≡ (
          if holds row rows && not (is_present stringify row results)
          then not (is_selected stringify row items)
          else is_selected stringify row items)
  unfolding prune_rows
  is_selected-prune_rows results [] row items d = refl
  is_selected-prune_rows results (next ∷ rows) row items d =
      let items' =
        if is_present stringify next results then items else toggle stringify next items in
      ground (
        arith,
        is_selected-prune_rows results rows row items' d.1,
        is_selected-toggle stringify next row items,
        is_selected-same stringify next row items,
        is_present-same next row results,
        holds-same next row rows,
        eq_iff (stringify next) (stringify row),
        eq_iff (stringify row) (stringify next),
      )

  any-holds :
      (k : String) (items : List (Item T))
      → IsValid items
      → any (has_hash k) items
        ≡ any (λ other. str_eq (stringify other) k) (map (λ item. item.row) items)
  any-holds k [] v = refl
  any-holds k (item ∷ items) v =
      rw (← v.0) (ap (λ b. str_eq item.hash k || b) (any-holds k items v.2))

  IsValid-IsDistinct :
      (items : List (Item T)) → IsValid items → IsDistinct (map (λ item. item.row) items)
  IsValid-IsDistinct [] v = tt
  IsValid-IsDistinct (item ∷ items) v =
      (rw (← v.0) (rw (← any-holds item.hash items v.2) v.1), IsValid-IsDistinct items v.2)

  -- New results leave selected exactly the selected rows that they hold.
  pub is_selected-prune :
      (results : List T) (row : T) (items : List (Item T))
      → IsValid items
      → is_selected stringify row (prune stringify results items)
        ≡ is_selected stringify row items && is_present stringify row results
  unfolding prune
  is_selected-prune results row items v =
      let rows = map (λ (item : Item T). item.row) items in
      ground (
        arith,
        is_selected-prune_rows results rows row items (IsValid-IsDistinct items v),
        is_selected-any stringify row items,
        any-holds (stringify row) items v,
      )
