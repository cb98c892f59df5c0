-- ===== src/Table/Rows/Shown.antt =====
-- Which results the filter of the table lets through, told from its columns
-- (frontend/src/app/shared/datasources/crud-table.datasource.ts).
use mathlib.Core.List.{Perm}
use mathlib.Core.Path.{fun_ext}
use asl_bissieux.Prelude.{
  ◌≡◌, refl, Bool, true, false, ◌&&◌, ◌||◌, not, List, [], ◌∷◌, map, Option, none, some, arith,
  if◌then◌else◌, filter, any, is_some, Bool-cases, Option-cases, inl, inr,
}
use asl_bissieux.Prelude.Strings.{String, str_eq, eq_iff}
use asl_bissieux.Table.Columns.{Column}
use asl_bissieux.Table.Rows.{
  get_field, set_field, Row, Sort, by_name, make_cell, make_row, cell_matches, is_shown, view,
}
use asl_bissieux.Table.Rows.Laws.{
  IsKeyed, last_named, get_field-by_name, get_field-make_row, set_field-IsKeyed, is_sortable,
  view-perm, view-is_some,
}

module _ {ℓ} {T V : Type ℓ} where
  -- The columns, less those that a later one of the same name replaces.
  abbrev pub effective : List (Column T V) → List (Column T V)
  effective [] = []
  effective (c ∷ cs) = if is_some (last_named c.name cs) then effective cs else c ∷ effective cs

  -- The text in the filter fits the value that a column reads from the result.
  abbrev pub fits : String → T → Column T V → Bool
  fits pattern t c = c.can_filter && c.filter_func (c.get_value t) pattern

  abbrev pub accepts : Bool → String → List (Column T V) → T → Bool
  accepts paged pattern columns t =
      str_eq pattern "" || paged || any (fits pattern t) (effective columns)

  -- The table is not sorted, is a page of the server, or is sorted by the name of a column.
  abbrev pub has_sort : Bool → Option Sort → List (Column T V) → Bool
  has_sort paged none columns = true
  has_sort paged (some sort) columns =
      str_eq sort.active "" || paged || any (λ c. str_eq c.name sort.active) columns

  -- Of the entries of an object, those that no column of the list replaces.
  abbrev any_left : (Column T V → Bool) → List (Column T V) → List (String × Column T V) → Bool
  any_left q cs [] = false
  any_left q cs ((k, d) ∷ found) = (not (is_some (last_named k cs)) && q d) || any_left q cs found

  any_left-nil :
      (q : Column T V → Bool) (found : List (String × Column T V))
      → any (λ (_, d). q d) found ≡ any_left q [] found
  any_left-nil q [] = refl
  any_left-nil q ((k, d) ∷ found) = ground (arith, any_left-nil q found)

  any_left-fresh :
      (q : Column T V → Bool) (c : Column T V) (cs : List (Column T V))
      (found : List (String × Column T V))
      → get_field c.name found ≡ none
      → any_left q (c ∷ cs) found ≡ any_left q cs found
  unfolding get_field
  any_left-fresh q c cs [] h = refl
  any_left-fresh q c cs ((k, d) ∷ found) h =
      ground (arith, any_left-fresh q c cs found, eq_iff k c.name, eq_iff c.name k)

  any_left-set_field :
      (q : Column T V → Bool) (c : Column T V) (cs : List (Column T V))
      (found : List (String × Column T V))
      → IsKeyed found
      → any_left q cs (set_field c.name c found)
        ≡ (not (is_some (last_named c.name cs)) && q c) || any_left q (c ∷ cs) found
  unfolding set_field
  any_left-set_field q c cs [] h = refl
  any_left-set_field q c cs ((k, d) ∷ found) h = elim (Bool-cases (str_eq k c.name)) [
    | inl same ↦
        let e : k ≡ c.name = (eq_iff k c.name).0 same in
        ground (arith, any_left-fresh q c cs found (rw (← e) h.1), eq_iff c.name k)
    | inr other ↦
        ground (arith, any_left-set_field q c cs found h.2, eq_iff k c.name, eq_iff c.name k)
  ]

  any-by_name :
      (q : Column T V → Bool) (cs : List (Column T V)) (found : List (String × Column T V))
      → IsKeyed found
      → any (λ (_, d). q d) (by_name cs found) ≡ any q (effective cs) || any_left q cs found
  unfolding by_name
  any-by_name q [] found h = any_left-nil q found
  any-by_name q (c ∷ cs) found h = ground (
    arith,
    any-by_name q cs (set_field c.name c found) (set_field-IsKeyed c found h),
    any_left-set_field q c cs found h,
  )

  -- Two tests that agree on the columns that count agree on all.
  any-effective :
      (q p : Column T V → Bool) (cs : List (Column T V))
      → ((c : Column T V) → last_named c.name cs ≡ some c → q c ≡ p c)
      → any q (effective cs) ≡ any p (effective cs)
  any-effective q p [] h = refl
  any-effective q p (c ∷ cs) h =
      let rest = any-effective q p cs (λ d e. h d (rw e refl)) in
      elim (Option-cases (last_named c.name cs)) [
        | inl last ↦ ground (arith, h c, eq_iff c.name c.name)
        | inr (d, later) ↦ rw later rest
      ]

  cell_matches-fits :
      (pattern : String) (columns : List (Column T V)) (t : T) (c : Column T V)
      → last_named c.name columns ≡ some c
      → cell_matches pattern (make_row (by_name columns []) t) c ≡ fits pattern t c
  unfolding cell_matches make_cell
  cell_matches-fits pattern columns t c e = ground (arith, get_field-make_row c.name columns t)

  is_shown-accepts :
      (paged : Bool) (pattern : String) (columns : List (Column T V)) (t : T)
      → is_shown paged pattern (by_name columns []) (make_row (by_name columns []) t)
        ≡ accepts paged pattern columns t
  unfolding is_shown
  is_shown-accepts paged pattern columns t =
      let q = cell_matches pattern (make_row (by_name columns []) t) in
      ground (
        arith,
        any-by_name q columns [] tt,
        any-effective q (fits pattern t) columns (λ c e. cell_matches-fits pattern columns t c e),
      )

  has_name :
      (k : String) (cs : List (Column T V))
      → is_some (last_named k cs) ≡ any (λ c. str_eq c.name k) cs
  has_name k [] = refl
  has_name k (c ∷ cs) = ground (arith, has_name k cs)

  has_sort-is_sortable :
      (paged : Bool) (sort : Option Sort) (columns : List (Column T V))
      → is_sortable paged sort columns ≡ has_sort paged sort columns
  unfolding get_field
  has_sort-is_sortable paged none columns = refl
  has_sort-is_sortable paged (some sort) columns =
      ground (arith, has_name sort.active columns, get_field-by_name sort.active columns [])

  -- Where the table is not sorted, is paged, or is sorted by the name of one of its columns, it
  -- shows each result that the filter accepts, as often as the source holds it, and no other: every result if the filter is empty or the source is paged, or else those of
  -- which a column that can be filtered reads a value that its own test lets through, where of two
  -- columns with one name the later counts.
  pub view-accepts :
      (paged : Bool) (columns : List (Column T V)) (sort : Option Sort) (pattern : String)
      (results : List T)
      → has_sort paged sort columns ≡ true
      → (out : List (Row T V)) × (view paged columns sort pattern results ≡ some out)
        × Perm (map (λ row. row.original) out) (filter (accepts paged pattern columns) results)
  view-accepts paged columns sort pattern results h =
      let shown =
        view-is_some paged columns sort pattern results
          (rw (has_sort-is_sortable paged sort columns) h) in
      elim (Option-cases (view paged columns sort pattern results)) [
        | inl thrown ↦ absurd (ground (arith, shown))
        | inr (out, e) ↦ (
          out,
          e,
          rw (← fun_ext (is_shown-accepts paged pattern columns))
              (view-perm paged columns sort pattern results out e),
        )
      ]
