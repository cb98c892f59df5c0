-- ===== src/Table/Selection.antt =====
-- frontend/src/app/shared/components/crud-table/crud-table.component.ts: the class
-- `SelectionModel`, and the methods of the table that change the selection.
-- Two rows are the same row where `JSON.stringify` writes the same text; it is the parameter
-- `stringify`, since a row may be of any type.
pub mod Laws
pub mod Pruning
pub mod Refinement
use asl_bissieux.Prelude.{
  ℕ, Bool, true, false, ◌&&◌, not, List, [], ◌∷◌, ◌++◌, map, Option, none, some, if◌then◌else◌,
  ◌==◌, ltb, filter, find_index?, length, is_some,
}
use asl_bissieux.Prelude.Strings.{String, str_eq}

pub record Item {ℓ} (T : Type ℓ) : Type ℓ where
  pub hash : String
  pub row : T

-- `a !== b` on Booleans.
abbrev pub differ : Bool → Bool → Bool
differ true b = not b
differ false b = b

abbrev pub has_hash {ℓ} : {T : Type ℓ} → String → Item T → Bool
has_hash hash item = str_eq item.hash hash

module _ {ℓ} {T : Type ℓ} (stringify : T → String) where
  -- `_getIndex`
  pub get_index : T → List (Item T) → Option ℕ
  get_index row items = find_index? (has_hash (stringify row)) items

  unfoldable pub toggle : T → List (Item T) → List (Item T)
  unfolding get_index
  toggle row items = elim (get_index row items) [
    | none ↦ items ++ record { hash = stringify row; row = row } ∷ []
    | some index ↦ filter (λ item. not (has_hash (stringify row) item)) items
  ]

  unfoldable pub is_selected : T → List (Item T) → Bool
  unfolding get_index
  is_selected row items = is_some (get_index row items)

  -- `result.findIndex(…) === -1`, the other way round
  pub is_present : T → List T → Bool
  is_present row results =
      is_some (find_index? (λ result. str_eq (stringify result) (stringify row)) results)

  -- The loop over the selected rows that unselects those that the results no longer hold.
  unfoldable pub prune_rows : List T → List T → List (Item T) → List (Item T)
  prune_rows results [] items = items
  prune_rows results (row ∷ rows) items =
      prune_rows results rows (if is_present row results then items else toggle row items)

  -- The subscription to `results$`.
  unfoldable pub prune : List T → List (Item T) → List (Item T)
  unfolding prune_rows
  prune results items = prune_rows results (map (λ item. item.row) items) items

  -- `allSelected$`
  unfoldable pub all_selected : List T → List (Item T) → Bool
  all_selected results items = ltb 0 (length results) && length items == length results

  -- `someSelected$`
  unfoldable pub some_selected : List T → List (Item T) → Bool
  unfolding all_selected
  some_selected results items = ltb 0 (length items) && not (all_selected results items)

  -- The loop of `toggleAll`, towards `r`.
  unfoldable pub select_rows : Bool → List T → List (Item T) → List (Item T)
  select_rows r [] items = items
  select_rows r (row ∷ rows) items =
      select_rows r rows (if differ (is_selected row items) r then toggle row items else items)

  unfoldable pub toggle_all : List T → List (Item T) → List (Item T)
  unfolding select_rows all_selected
  toggle_all results items = select_rows (not (all_selected results items)) results items
