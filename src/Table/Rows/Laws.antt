-- ===== src/Table/Rows/Laws.antt =====
-- Which rows the table shows, and in which order
-- (frontend/src/app/shared/datasources/crud-table.datasource.ts).
use mathlib.Core.List.{Perm}
use mathlib.Core.List.Perm
use mathlib.Core.Path.{subst}
use asl_bissieux.Prelude.{
  ◌≡◌, refl, ap, Bool, true, ◌||◌, List, [], ◌∷◌, map, Option, none, some, arith, if◌then◌else◌,
  filter, is_some, Bool-cases, inl, inr,
}
use asl_bissieux.Prelude.Strings.{String, str_eq, eq_iff}
use asl_bissieux.Table.Columns.{Column}
use asl_bissieux.Table.Rows.{
  get_field, set_field, Cell, Row, Sort, by_name, make_cell, make_cells, make_row, is_shown,
  compare_by, sort_found, sort_rows, view,
}
use asl_bissieux.Sorting.{sort_by, sort_by-perm}

-- What an object holds after a field has been set.
get_field-set_field {ℓ} :
    {V : Type ℓ} (name other : String) (value : V) (fields : List (String × V))
    → get_field other (set_field name value fields)
      ≡ (if str_eq name other then some value else get_field other fields)
unfolding get_field set_field
get_field-set_field name other value [] = refl
get_field-set_field name other value ((own, old) ∷ fields) = ground (
  arith,
  get_field-set_field name other value fields,
  eq_iff own name,
  eq_iff own other,
  eq_iff name other,
)

module _ {ℓ} {T V : Type ℓ} where
  -- Every column is filed under its own name.
  abbrev pub IsKeyed : List (String × Column T V) → Type ℓ
  IsKeyed [] = Unit
  IsKeyed ((k, c) ∷ cs) = (c.name ≡ k) × (get_field k cs ≡ none) × IsKeyed cs

  -- The last column of a name.
  abbrev pub last_named : String → List (Column T V) → Option (Column T V)
  last_named k [] = none
  last_named k (c ∷ cs) = elim (last_named k cs) [
    | some d ↦ some d
    | none ↦ if str_eq c.name k then some c else none
  ]

  pub get_field-by_name :
      (k : String) (cs : List (Column T V)) (found : List (String × Column T V))
      → get_field k (by_name cs found)
        ≡ elim (last_named k cs) [ some d ↦ some d | none ↦ get_field k found ]
  unfolding by_name
  get_field-by_name k [] found = refl
  get_field-by_name k (c ∷ cs) found = ground (
    arith,
    get_field-by_name k cs (set_field c.name c found),
    get_field-set_field c.name k c found,
  )

  pub set_field-IsKeyed :
      (c : Column T V) (found : List (String × Column T V))
      → IsKeyed found
      → IsKeyed (set_field c.name c found)
  unfolding set_field get_field
  set_field-IsKeyed c [] h = ground arith
  set_field-IsKeyed c ((k, d) ∷ found) h = ground (
    arith,
    set_field-IsKeyed c found h.2,
    eq_iff k c.name,
    get_field-set_field c.name k c found,
    eq_iff c.name k,
  )

  pub by_name-IsKeyed :
      (cs : List (Column T V)) (found : List (String × Column T V))
      → IsKeyed found
      → IsKeyed (by_name cs found)
  unfolding by_name
  by_name-IsKeyed [] found h = h
  by_name-IsKeyed (c ∷ cs) found h =
      by_name-IsKeyed cs (set_field c.name c found) (set_field-IsKeyed c found h)

  get_field-make_cells :
      (k : String) (cs : List (String × Column T V)) (result : T) (cells : List (String × Cell V))
      → IsKeyed cs
      → get_field k (make_cells cs result cells)
        ≡ elim (get_field k cs) [ some c ↦ some (make_cell c result) | none ↦ get_field k cells ]
  unfolding make_cells get_field
  get_field-make_cells k [] result cells h = refl
  get_field-make_cells k ((j, c) ∷ cs) result cells h = ground (
    arith,
    get_field-make_cells k cs result (set_field c.name (make_cell c result) cells) h.2,
    get_field-set_field c.name k (make_cell c result) cells,
    eq_iff j k,
    eq_iff c.name k,
  )

  -- A row holds under each name the cell of the last column of that name, and nothing else.
  pub get_field-make_row :
      (k : String) (columns : List (Column T V)) (result : T)
      → get_field k (make_row (by_name columns []) result).columns
        ≡ elim (last_named k columns) [ some c ↦ some (make_cell c result) | none ↦ none ]
  unfolding make_row get_field
  get_field-make_row k columns result = ground (
    arith,
    get_field-make_cells k (by_name columns []) result [] (by_name-IsKeyed columns [] tt),
    get_field-by_name k columns [],
  )

  -- The results that pass the filter.
  abbrev pub shown_results : Bool → String → List (String × Column T V) → List T → List T
  shown_results paged pattern cs = filter (λ t. is_shown paged pattern cs (make_row cs t))

  originals-filter :
      (paged : Bool) (pattern : String) (cs : List (String × Column T V)) (results : List T)
      → map (λ row. row.original) (filter (is_shown paged pattern cs) (map (make_row cs) results))
        ≡ shown_results paged pattern cs results
  unfolding make_row
  originals-filter paged pattern cs [] = refl
  originals-filter paged pattern cs (t ∷ results) =
      ground (arith, originals-filter paged pattern cs results)

  -- A sort by no column, by a column that is there, or of a page that the server has sorted.
  abbrev pub is_sortable : Bool → Option Sort → List (Column T V) → Bool
  is_sortable paged none columns = true
  is_sortable paged (some sort) columns =
      str_eq sort.active "" || paged || is_some (get_field sort.active (by_name columns []))

  sort_found-perm :
      (found : Option (Column T V)) (direction : String) (rows out : List (Row T V))
      → sort_found found direction rows ≡ some out
      → Perm out rows
  unfolding sort_found
  sort_found-perm (some c) direction rows out e =
      let same : sort_by (compare_by c direction) rows ≡ out = ground arith in
      subst (λ l. Perm l rows) same (sort_by-perm (compare_by c direction) rows)
  sort_found-perm none direction [] out e =
      let same : [] ≡ out = ground arith in subst (λ l. Perm l []) same (Perm.refl [])
  sort_found-perm none direction (row ∷ []) out e =
      let same : row ∷ [] ≡ out = ground arith in
      subst (λ l. Perm l (row ∷ [])) same (Perm.refl (row ∷ []))
  sort_found-perm none direction (row ∷ next ∷ rows) out e = cc

  sort_rows-perm :
      (paged : Bool) (sort : Option Sort) (cs : List (String × Column T V))
      (rows out : List (Row T V))
      → sort_rows paged sort cs rows ≡ some out
      → Perm out rows
  unfolding sort_rows
  sort_rows-perm paged none cs rows out e =
      let same : rows ≡ out = ground arith in subst (λ l. Perm l rows) same (Perm.refl rows)
  sort_rows-perm paged (some sort) cs rows out e =
      elim (Bool-cases (str_eq sort.active "" || paged)) [
        | inl plain ↦
            let same : rows ≡ out = ground arith in subst (λ l. Perm l rows) same (Perm.refl rows)
        | inr sorts ↦
            sort_found-perm (get_field sort.active cs) sort.direction rows out (ground arith)
      ]

  -- Where the sort does not throw, the table shows each result that passes the filter, as often as
  -- the source holds it, and no other.
  pub view-perm :
      (paged : Bool) (columns : List (Column T V)) (sort : Option Sort) (pattern : String)
      (results : List T) (out : List (Row T V))
      → view paged columns sort pattern results ≡ some out
      → Perm
          (map (λ row. row.original) out)
          (shown_results paged pattern (by_name columns []) results)
  unfolding view
  view-perm paged columns sort pattern results out e =
      let cs = by_name columns [] in
      rw (← originals-filter paged pattern cs results) (
        Perm.map (λ row. row.original)
          (sort_rows-perm paged sort cs
            (filter (is_shown paged pattern cs) (map (make_row cs) results)) out e))

  filter-paged :
      (pattern : String) (cs : List (String × Column T V)) (rows : List (Row T V))
      → filter (is_shown true pattern cs) rows ≡ rows
  unfolding is_shown
  filter-paged pattern cs [] = refl
  filter-paged pattern cs (row ∷ rows) = ground (arith, filter-paged pattern cs rows)

  -- Of a paged source the table shows every row in the order of the server, whatever the filter
  -- and the sort of the table are.
  pub view-paged :
      (columns : List (Column T V)) (sort : Option Sort) (pattern : String) (results : List T)
      → view true columns sort pattern results ≡ some (map (make_row (by_name columns [])) results)
  unfolding view sort_rows
  view-paged columns none pattern results =
      ap some
        (filter-paged pattern (by_name columns []) (map (make_row (by_name columns [])) results))
  view-paged columns (some sort) pattern results = ground (
    arith,
    filter-paged pattern (by_name columns []) (map (make_row (by_name columns [])) results),
  )

  -- A sort that the columns allow never throws.
  pub view-is_some :
      (paged : Bool) (columns : List (Column T V)) (sort : Option Sort) (pattern : String)
      (results : List T)
      → is_sortable paged sort columns ≡ true
      → is_some (view paged columns sort pattern results) ≡ true
  unfolding view sort_rows sort_found
  view-is_some paged columns none pattern results h = refl
  view-is_some paged columns (some sort) pattern results h = ground arith
