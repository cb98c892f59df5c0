-- ===== src/Table/Columns/Laws.antt =====
-- Which columns the table shows and sorts by
-- (frontend/src/app/shared/components/crud-table/crud-table.component.ts).
use asl_bissieux.Prelude.{
  ◌≡◌, refl, ◌≢◌, Bool, true, false, ◌&&◌, ◌||◌, not, List, [], ◌∷◌, ◌++◌, map, Option, none, some,
  arith, All, ◌⊎◌, inl, inr, Bool-cases, if◌then◌else◌, filter, find?, any,
}
use mathlib.Core.Path.{subst}
use asl_bissieux.Prelude.Strings.{String, str_eq, eq_iff}
use asl_bissieux.Table.Columns.{Column, distinct, shown_columns, default_active}

abbrev pub holds : String → List String → Bool
holds name = any (λ other. str_eq other name)

abbrev pub IsDistinct : List String → Type 0
IsDistinct [] = Unit
IsDistinct (x ∷ xs) = (holds x xs ≡ false) × IsDistinct xs

holds-filter_ne :
    (x y : String) (xs : List String)
    → holds y (filter (λ z. not (str_eq z x)) xs) ≡ not (str_eq y x) && holds y xs
holds-filter_ne x y [] = ground arith
holds-filter_ne x y (z ∷ xs) =
    ground (arith, holds-filter_ne x y xs, eq_iff z x, eq_iff y x, eq_iff z y)

filter-IsDistinct :
    (x : String) (xs : List String) → IsDistinct xs → IsDistinct (filter (λ z. not (str_eq z x)) xs)
filter-IsDistinct x [] d = tt
filter-IsDistinct x (z ∷ xs) d = ground (arith, filter-IsDistinct x xs d.1, holds-filter_ne x z xs)

distinct-IsDistinct : (xs : List String) → IsDistinct (distinct xs)
unfolding distinct
distinct-IsDistinct [] = tt
distinct-IsDistinct (x ∷ xs) = (
  ground (arith, holds-filter_ne x x (distinct xs), eq_iff x x),
  filter-IsDistinct x (distinct xs) (distinct-IsDistinct xs),
)

holds-distinct : (y : String) (xs : List String) → holds y (distinct xs) ≡ holds y xs
unfolding distinct
holds-distinct y [] = refl
holds-distinct y (x ∷ xs) =
    ground (arith, holds-filter_ne x y (distinct xs), holds-distinct y xs, eq_iff x y, eq_iff y x)

holds-append : (y : String) (xs ys : List String) → holds y (xs ++ ys) ≡ holds y xs || holds y ys
holds-append y [] ys = refl
holds-append y (x ∷ xs) ys = ground (arith, holds-append y xs ys)

module _ {ℓ} {T V : Type ℓ} where
  -- A name of a column that is not hidden.
  abbrev pub is_visible : String → List (Column T V) → Bool
  is_visible name = any (λ c. not c.hidden && str_eq c.name name)

  holds-visible :
      (name : String) (columns : List (Column T V))
      → holds name (map (λ c. c.name) (filter (λ c. not c.hidden) columns))
        ≡ is_visible name columns
  holds-visible name [] = refl
  holds-visible name (c ∷ columns) = ground (arith, holds-visible name columns)

  -- No column stands twice in the table, and what stands there is: the selection where it is
  -- allowed, the columns that are not hidden, the custom ones, and the actions where there are any.
  pub shown_columns_lem :
      (can_select : Bool) (columns : List (Column T V)) (custom : List String) (actions : Bool)
      (name : String)
      → IsDistinct (shown_columns can_select columns custom actions)
        × (holds name (shown_columns can_select columns custom actions)
            ≡ (can_select && str_eq "_select_" name)
              || is_visible name columns
              || holds name custom
              || (actions && str_eq "_actions_" name))
  unfolding shown_columns
  shown_columns_lem can_select columns custom actions name =
      let select : List String = if can_select then "_select_" ∷ [] else [] in
      let visible = map (λ (c : Column T V). c.name) (filter (λ c. not c.hidden) columns) in
      let last : List String = if actions then "_actions_" ∷ [] else [] in
      (
        distinct-IsDistinct (select ++ (visible ++ (custom ++ last))),
        ground (
          arith,
          holds-distinct name (select ++ (visible ++ (custom ++ last))),
          holds-append name select (visible ++ (custom ++ last)),
          holds-append name visible (custom ++ last),
          holds-append name custom last,
          holds-visible name columns,
        ),
      )

  find?-is_true :
      (p : Column T V → Bool) (columns : List (Column T V)) (c : Column T V)
      → find? p columns ≡ some c
      → p c ≡ true
  find?-is_true p (d ∷ columns) c e = ground (arith, find?-is_true p columns c)
  find?-is_true p [] c e = cc

  find?-none :
      (p : Column T V → Bool) (columns : List (Column T V))
      → find? p columns ≡ none
      → All (λ c. p c ≡ false) columns
  find?-none p [] e = tt
  find?-none p (c ∷ columns) e = ground (arith, find?-none p columns)

  find?-All {κ} :
      (P : Column T V → Type κ) (p : Column T V → Bool) (columns : List (Column T V))
      (c : Column T V)
      → All P columns
      → find? p columns ≡ some c
      → P c
  find?-All P p [] c a e = cc
  find?-All P p (d ∷ columns) c a e = elim (Bool-cases (p d)) [
    | inl hit ↦ let same : d ≡ c = ground arith in subst P same a.0
    | inr miss ↦ find?-All P p columns c a.1 (ground arith)
  ]

  -- What the table sorts by first.
  abbrev pub IsDefault : List (Column T V) → Column T V → Type 0
  IsDefault columns c =
      (c.can_sort ≡ true)
      × ((c.default_sort ≡ true) ⊎ All (λ d. (d.can_sort && d.default_sort) ≡ false) columns)

  default_active_at :
      (columns : List (Column T V)) (marked sortable : Option (Column T V))
      → find? (λ c. c.can_sort && c.default_sort) columns ≡ marked
      → find? (λ c. c.can_sort) columns ≡ sortable
      → All (λ c. c.name ≢ "") columns
      → default_active columns ≢ ""
      → (c : Column T V) × (default_active columns ≡ c.name) × IsDefault columns c
  unfolding default_active
  default_active_at columns (some c) o em es named h =
      let p = λ (d : Column T V). d.can_sort && d.default_sort in
      let used = find?-is_true p columns c em in
      let name = find?-All (λ d. d.name ≢ "") p columns c named em in
      (c, rw em (ground (arith, eq_iff c.name "")), (ground arith, inl (ground arith)))
  default_active_at columns none (some c) em es named h =
      let used = find?-is_true (λ d. d.can_sort) columns c es in
      (c, rw (em, es), (used, inr (find?-none (λ d. d.can_sort && d.default_sort) columns em)))
  default_active_at columns none none em es named h = absurd (h (rw (em, es)))

  -- Where every column has a name and the table sorts by one first, that one is a column that can
  -- be sorted, and one marked as the default unless no sortable column is.
  pub default_active_lem :
      (columns : List (Column T V))
      → All (λ c. c.name ≢ "") columns
      → default_active columns ≢ ""
      → (c : Column T V) × (default_active columns ≡ c.name) × IsDefault columns c
  default_active_lem columns named h =
      default_active_at columns (find? (λ c. c.can_sort && c.default_sort) columns)
        (find? (λ c. c.can_sort) columns) refl refl named h
