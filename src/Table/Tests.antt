-- ===== src/Table/Tests.antt =====
-- The laws of the table at concrete rows and columns.
use mathlib.Core.List.{Perm}
use asl_bissieux.Prelude.{
  ℕ, ◌≡◌, refl, ◌≢◌, true, false, ◌&&◌, ◌||◌, List, [], ◌∷◌, map, none, some, arith, filter, All,
}
use asl_bissieux.Prelude.Int.{pos, ◌-ℤ◌, -ℤ_parts}
use asl_bissieux.Prelude.Strings.{String, str_eq, eq_iff}
use asl_bissieux.Table.Selection.{Item, is_selected, is_present, prune}
use asl_bissieux.Table.Selection.Refinement.{
  flips, sets, keeps, perform_all, follow_all, perform_all-follow_all,
}
use asl_bissieux.Table.Selection.Pruning.{IsValid, is_selected-prune}
use asl_bissieux.Table.Columns.{Column, shown_columns, default_active}
use asl_bissieux.Table.Columns.Laws.{IsDistinct, holds, is_visible, shown_columns_lem}
use asl_bissieux.Table.Rows.{
  Row, Sort, is_shown, get_field, set_field, make_cells, compare_by, sort_found, by_name, make_row,
  make_cell, view,
}
use asl_bissieux.Table.Rows.Shown.{accepts, view-accepts}
use asl_bissieux.Table.Rows.Order.{compare_results, compare_values, view-IsSorted}
use asl_bissieux.Sorting.{sort_by, IsOrder, IsSorted}

-- Texts are their own hashes here.
abbrev own : String → String
own s = s

abbrev chosen : List (Item String)
chosen = record { hash = "a"; row = "a" } ∷ record { hash = "b"; row = "b" } ∷ []

chosen-IsValid : IsValid own chosen
chosen-IsValid = (refl, refl, (refl, refl, tt))

is_selected-prune_example :
    is_selected own "b" (prune own ("a" ∷ "c" ∷ []) chosen)
    ≡ is_selected own "b" chosen && is_present own "b" ("a" ∷ "c" ∷ [])
is_selected-prune_example = is_selected-prune own ("a" ∷ "c" ∷ []) "b" chosen chosen-IsValid

-- A table of numbers, with one column: the number itself.
abbrev size : Column ℕ ℕ
size = record {
  name = "size";
  label = "Taille";
  hidden = false;
  can_filter = true;
  filter_func = λ v pattern. str_eq pattern "x";
  default_sort = true;
  can_sort = true;
  sort_func = λ a b. pos a -ℤ pos b;
  render = λ v. "n";
  route_to = none;
  get_value = λ n. n;
}

shown_columns_lem_example :
    IsDistinct (shown_columns true (size ∷ []) ("size" ∷ []) true)
    × (holds "size" (shown_columns true (size ∷ []) ("size" ∷ []) true)
        ≡ (true && str_eq "_select_" "size")
          || is_visible "size" (size ∷ [])
          || holds "size" ("size" ∷ [])
          || (true && str_eq "_actions_" "size"))
shown_columns_lem_example = shown_columns_lem true (size ∷ []) ("size" ∷ []) true "size"

size_named : All (λ (c : Column ℕ ℕ). c.name ≢ "") (size ∷ [])
size_named = (ground (arith, eq_iff "size" ""), tt)

size_sorts : default_active (size ∷ []) ≢ ""
unfolding default_active
size_sorts = ground (arith, eq_iff "size" "")

abbrev by_size : Sort
by_size = record { active = "size"; direction = "asc" }

abbrev row : ℕ → Row ℕ ℕ
row n = make_row (by_name (size ∷ []) []) n

sorted_view :
    view false (size ∷ []) (some by_size) "" (3 ∷ 1 ∷ 2 ∷ []) ≡ some (row 1 ∷ row 2 ∷ row 3 ∷ [])
unfolding view make_row by_name make_cells set_field get_field compare_by sort_found make_cell
    sort_by is_shown ◌-ℤ◌
sorted_view = refl

view-accepts_example :
    (out : List (Row ℕ ℕ)) × (view false (size ∷ []) (some by_size) "x" (3 ∷ 1 ∷ 2 ∷ []) ≡ some out)
    × Perm (map (λ r. r.original) out) (filter (accepts false "x" (size ∷ [])) (3 ∷ 1 ∷ 2 ∷ []))
view-accepts_example = view-accepts false (size ∷ []) (some by_size) "x" (3 ∷ 1 ∷ 2 ∷ []) refl

size_order : IsOrder (compare_values size "asc")
size_order = record {
  total = λ a b. ground (arith, -ℤ_parts (pos a) (pos b), -ℤ_parts (pos b) (pos a));
  trans = λ a b c h k.
      omega (arith, -ℤ_parts (pos a) (pos b), -ℤ_parts (pos b) (pos c), -ℤ_parts (pos a) (pos c));
}

size_present : by_size.active ≢ ""
size_present = ground (arith, eq_iff "size" "")

view-IsSorted_example : IsSorted (compare_results size "asc") (row 1 ∷ row 2 ∷ row 3 ∷ [])
view-IsSorted_example =
    view-IsSorted (size ∷ []) by_size "" (3 ∷ 1 ∷ 2 ∷ []) size (row 1 ∷ row 2 ∷ row 3 ∷ [])
      size_present refl size_order sorted_view

perform_all-follow_all_example :
    is_selected own "b"
      (perform_all own (flips "a" ∷ sets true ("b" ∷ []) ∷ keeps ("b" ∷ []) ∷ []) [])
    ≡ follow_all own (flips "a" ∷ sets true ("b" ∷ []) ∷ keeps ("b" ∷ []) ∷ []) (λ other. false) "b"
perform_all-follow_all_example =
    perform_all-follow_all own (flips "a" ∷ sets true ("b" ∷ []) ∷ keeps ("b" ∷ []) ∷ []) "b"
