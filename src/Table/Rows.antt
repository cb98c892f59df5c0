-- ===== src/Table/Rows.antt =====
-- frontend/src/app/shared/datasources/crud-table.datasource.ts: the rows that the table shows, made
-- from the results of its source, filtered and sorted where the source is not paged.
-- Objects keyed by column names are association lists in the order of insertion. `none` is the
-- `TypeError` of a sort by a column that is not there.
pub mod Laws
pub mod Order
pub mod Shown
use asl_bissieux.Prelude.{
  ℕ, Bool, true, false, ◌&&◌, ◌||◌, not, List, [], ◌∷◌, map, Option, none, some, if◌then◌else◌,
  filter, any, is_some,
}
use asl_bissieux.Prelude.Int.{ℤ, pos, ◌-ℤ◌, leb_ℤ}
use asl_bissieux.Prelude.Strings.{String, str_eq}
use asl_bissieux.Table.Columns.{Column}
use asl_bissieux.Sorting.{sort_by}

-- An object keyed by names: a name that is there keeps its place.
module _ {ℓ} {V : Type ℓ} where
  unfoldable pub get_field : (name : String) (fields : List (String × V)) → Option V
  get_field name [] = none
  get_field name ((own, value) ∷ fields) =
      let further = get_field name fields in if str_eq own name then some value else further

  unfoldable pub set_field :
      (name : String) (value : V) (fields : List (String × V)) → List (String × V)
  set_field name value [] = (name, value) ∷ []
  set_field name value ((own, old) ∷ fields) =
      let further = set_field name value fields in
      if str_eq own name then (own, value) ∷ fields else (own, old) ∷ further

-- `CrudTableColumn`
pub record Cell {ℓ} (V : Type ℓ) : Type ℓ where
  pub value : V
  pub display : String
  pub route : Option String

-- `CrudTableRow`
pub record Row {ℓ} (T V : Type ℓ) : Type ℓ where
  pub columns : List (String × Cell V)
  pub original : T

-- `Sort`; `source` in front of it is the stream's `startWith(null)`.
pub record Sort : Type 0 where
  pub active : String
  pub direction : String

-- The sign of the direction.
abbrev pub directed : String → ℤ → ℤ
directed direction n = if str_eq direction "desc" then pos 0 -ℤ n else n

module _ {ℓ} {T V : Type ℓ} where
  -- The loop of `_columns$`: of two columns with one name the later counts.
  unfoldable pub by_name :
      List (Column T V) → List (String × Column T V) → List (String × Column T V)
  by_name [] found = found
  by_name (c ∷ cs) found = by_name cs (set_field c.name c found)

  unfoldable pub make_cell : Column T V → T → Cell V
  make_cell c result = record {
    value = c.get_value result;
    display = c.render (c.get_value result);
    route = elim c.route_to [ none ↦ none | some f ↦ some (f result) ];
  }

  -- The loop over `Object.values(columns)`.
  unfoldable pub make_cells :
      List (String × Column T V) → T → List (String × Cell V) → List (String × Cell V)
  make_cells [] result cells = cells
  make_cells ((_, c) ∷ cs) result cells =
      make_cells cs result (set_field c.name (make_cell c result) cells)

  unfoldable pub make_row : List (String × Column T V) → T → Row T V
  make_row cs result = record { columns = make_cells cs result []; original = result }

  -- One round of the loop of the filter.
  unfoldable pub cell_matches : String → Row T V → Column T V → Bool
  cell_matches pattern row c =
      if c.can_filter
      then elim (get_field c.name row.columns) [
        | none ↦ false
        | some cell ↦ c.filter_func cell.value pattern
      ]
      else false

  unfoldable pub is_shown : Bool → String → List (String × Column T V) → Row T V → Bool
  unfolding cell_matches
  is_shown paged pattern cs row =
      if str_eq pattern "" || paged then true else any (λ (_, c). cell_matches pattern row c) cs

  -- The comparison by a column that is there.
  unfoldable pub compare_by : Column T V → String → Row T V → Row T V → ℤ
  compare_by c direction a b = elim (get_field c.name a.columns) [
    | none ↦ pos 0
    | some x ↦ elim (get_field c.name b.columns) [
      | none ↦ pos 0
      | some y ↦ directed direction (c.sort_func x.value y.value)
    ]
  ]

  -- The sort by the column that was found: a comparison reads it, so without one two rows throw.
  unfoldable pub sort_found :
      Option (Column T V) → String → List (Row T V) → Option (List (Row T V))
  unfolding compare_by
  sort_found (some c) direction rows = some (sort_by (compare_by c direction) rows)
  sort_found none direction [] = some []
  sort_found none direction (row ∷ []) = some (row ∷ [])
  sort_found none direction (row ∷ next ∷ rows) = none

  -- `.sort(…)`
  unfoldable pub sort_rows :
      Bool → Option Sort → List (String × Column T V) → List (Row T V) → Option (List (Row T V))
  unfolding sort_found
  sort_rows paged none cs rows = some rows
  sort_rows paged (some sort) cs rows =
      if str_eq sort.active "" || paged
      then some rows
      else sort_found (get_field sort.active cs) sort.direction rows

  -- `results$`
  unfoldable pub view :
      Bool → List (Column T V) → Option Sort → String → List T → Option (List (Row T V))
  unfolding sort_rows
  view paged columns sort pattern results =
      let cs = by_name columns [] in
      sort_rows paged sort cs (filter (is_shown paged pattern cs) (map (make_row cs) results))
