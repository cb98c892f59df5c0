-- ===== src/Dashboard/Navigation.antt =====
-- The addresses that the dashboard asks for (frontend/src/app/dashboard/dashboard.component.ts).
-- The router merges the parameters of a navigation into those of the address, and a null one removes
-- what is there; the year is in none of them.
use asl_bissieux.Prelude.{
  ℕ, ◌≡◌, refl, ◌≤◌, Bool, true, false, List, Option, none, some, if◌then◌else◌,
}
use asl_bissieux.Prelude.Int.{ℤ}
use asl_bissieux.Prelude.Strings.{String, str_eq}
use asl_bissieux.Prelude.Text.{trim}
use asl_bissieux.Query.{max_safe}
use asl_bissieux.Query.Decimal.{decimal, read_lot-decimal}
use asl_bissieux.Dashboard.Choice.{Budget, Params, select}

pub data Change : Type 0 where
  keep : Change
  write : Option String → Change

pub record Patch : Type 0 where
  pub budget : Change
  pub reference : Change
  pub lot : Change
  pub search : Change
  pub replace_url : Bool

abbrev pub change : Change → Option String → Option String
change keep old = old
change (write value) old = value

-- `queryParamsHandling: "merge"`
unfoldable pub merge : Patch → Params → Params
merge patch p = record p {
  budget = change patch.budget p.budget;
  reference = change patch.reference p.reference;
  lot = change patch.lot p.lot;
  search = change patch.search p.search;
}

abbrev nothing : Patch
nothing = record { budget = keep; reference = keep; lot = keep; search = keep; replace_url = false }

-- `selectBudget`
unfoldable pub select_budget : String → Patch
select_budget id = record nothing {
  budget = write (some id);
  reference = write none;
  lot = write none;
}

-- `selectReference`
unfoldable pub select_reference : String → Patch
select_reference id = record nothing { reference = write (if str_eq id "" then none else some id) }

abbrev lot_text : Option ℕ → Option String
lot_text none = none
lot_text (some n) = some (decimal n)

-- `selectLot`
unfoldable pub select_lot : Option ℕ → Patch
select_lot lot = record nothing { lot = write (lot_text lot) }

-- `searchMap`, less what it stores.
unfoldable pub search_map : String → Patch
search_map query = record nothing {
  search = write (if str_eq (trim query) "" then none else some query);
  lot = write none;
  replace_url = true;
}

-- Once the router has come back with the address, the budget that was chosen is selected without a
-- reference and without a lot, and the lot that was chosen is selected in the budget of before.
pub select-merge :
    (parse_date : String → Option ℤ) (locale : String → String → ℤ) (year_now : ℕ) (p : Params)
    (budgets : List Budget) (id : String) (n : ℕ)
    → n ≤ max_safe
    → ((select parse_date locale year_now (merge (select_budget id) p) budgets).budget ≡ id)
      × ((select parse_date locale year_now (merge (select_budget id) p) budgets).reference ≡ "")
      × ((select parse_date locale year_now (merge (select_budget id) p) budgets).lot ≡ none)
      × ((select parse_date locale year_now (merge (select_lot (some n)) p) budgets).lot ≡ some n)
      × ((select parse_date locale year_now (merge (select_lot (some n)) p) budgets).budget
          ≡ (select parse_date locale year_now p budgets).budget)
unfolding merge select_budget select_lot select
select-merge parse_date locale year_now p budgets id n h =
    (refl, refl, refl, read_lot-decimal n h, refl)
