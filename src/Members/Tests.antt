-- ===== src/Members/Tests.antt =====
-- The page of the members at a concrete address, and what it shows of two lots.
use asl_bissieux.Prelude.{ℕ, ◌≡◌, refl, ◌≢◌, inl, inr, true, false, [], ◌∷◌, none, some, arith}
use asl_bissieux.Prelude.Strings.{String, eq_iff}
use asl_bissieux.Directory.{Member, Lot}
use asl_bissieux.Members.Page.{
  Page, new, map_view, has_selection, read_route, route_of, select_member, select_unit,
}
use asl_bissieux.Members.Page.Laws.{
  selects_unit, changes_query, run, IsConsistent, run-new-IsConsistent, read_route-route_of,
}
use asl_bissieux.Members.Views.{Loaded, directory_units}
use asl_bissieux.Members.Views.Selecting.{
  Among, ShowsMember, ShowsUnit, select_member-ShowsMember, select_unit-ShowsUnit,
}

abbrev lot : ℕ → Lot ℕ
lot n = record { id = none; number = some n; address = none; members = none }

abbrev owner : Member (Lot ℕ)
owner = record {
  id = some "m";
  first_name = some "Ada";
  last_name = none;
  email = none;
  phone_number = none;
  address = none;
  units = some (lot 3 ∷ lot 3 ∷ []);
}

abbrev loaded : Loaded ℕ
loaded = record {
  members = owner ∷ [];
  all_units = lot 3 ∷ lot 7 ∷ [];
  loading = false;
  loaded = true;
  error = false;
  units_error = false;
  units_loading = false;
}

-- Lot 7, on the map.
abbrev page : Page
page = record {
  view = map_view;
  member = none;
  unit = some 7;
  invalid = false;
  dialog = true;
  query = "ada";
  asked = none;
  alive = true;
}

run-new-IsConsistent_example :
    IsConsistent (run (selects_unit (some 7) ∷ changes_query "ada" ∷ []) new)
run-new-IsConsistent_example =
    run-new-IsConsistent (selects_unit (some 7) ∷ changes_query "ada" ∷ [])

page-IsConsistent : IsConsistent page
unfolding has_selection
page-IsConsistent = record {
  dialog_exact = refl;
  one_selected = λ _. refl;
  invalid_alone = λ h. ground arith;
  unit_safe = omega arith;
}

read_route-route_of_example : read_route (route_of page) page ≡ page
read_route-route_of_example = read_route-route_of page page-IsConsistent refl refl

owner_listed : Among owner loaded.members
owner_listed = inl refl

filled : ◌≢◌ {A = String} "m" ""
filled = ground (arith, eq_iff "m" "")

select_member-ShowsMember_example :
    (m : Member (Lot ℕ)) × (m.id ≡ some "m")
    × ShowsMember loaded page m (select_member (some "m") page)
select_member-ShowsMember_example =
    select_member-ShowsMember loaded page "m" owner filled refl owner_listed

seven_listed : Among (lot 7) (directory_units loaded)
unfolding directory_units
seven_listed = inr (inl refl)

select_unit-ShowsUnit_example :
    (u : Lot ℕ) × (u.number ≡ some 7) × ShowsUnit loaded page 7 u (select_unit (some 7) page)
select_unit-ShowsUnit_example =
    select_unit-ShowsUnit loaded page 7 (lot 7) (omega arith) refl seven_listed
