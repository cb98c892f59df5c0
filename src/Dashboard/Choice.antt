-- ===== src/Dashboard/Choice.antt =====
-- What the address of the dashboard selects (frontend/src/app/dashboard/dashboard.component.ts).
-- `Date.parse` (`none` is NaN), `localeCompare` and the year in Paris are parameters.
use asl_bissieux.Prelude.{
  ℕ, Bool, ◌&&◌, List, [], ◌∷◌, Option, none, some, if◌then◌else◌, filter, get_or, is_some,
}
use asl_bissieux.Prelude.Int.{ℤ, pos, ◌-ℤ◌, eqb_ℤ}
use asl_bissieux.Prelude.Strings.{String}
use asl_bissieux.Prelude.Text.{has_text}
use asl_bissieux.Query.{read_year, read_lot}
use asl_bissieux.Sorting.{sort_by}

-- `ModelsBudgetResult`, what the dashboard reads of it.
pub record Budget : Type 0 where
  pub id : Option String
  pub amount : Option ℤ
  pub created_at : Option String

-- The parameters of the address.
pub record Params : Type 0 where
  pub budget : Option String
  pub reference : Option String
  pub year : Option String
  pub lot : Option String
  pub search : Option String

pub record Selection : Type 0 where
  pub budget : String
  pub reference : String
  pub year : ℕ
  pub lot : Option ℕ
  pub search : String

module _ (parse_date : String → Option ℤ) (locale : String → String → ℤ) where
  abbrev pub date_of : Budget → Option ℤ
  date_of b = parse_date (get_or b.created_at "")

  abbrev pub id_of : Budget → String
  id_of b = get_or b.id ""

  unfoldable pub is_eligible : Budget → Bool
  is_eligible b = has_text b.id && is_some (date_of b)

  -- A date that is not one is left out before.
  unfoldable pub compare_budgets : Budget → Budget → ℤ
  compare_budgets a b =
      let by_date = get_or (date_of b) (pos 0) -ℤ get_or (date_of a) (pos 0) in
      if eqb_ℤ by_date (pos 0) then locale (id_of a) (id_of b) else by_date

  abbrev pub first_id : List Budget → String
  first_id [] = ""
  first_id (b ∷ bs) = id_of b

  -- `latestBudgetId`
  unfoldable pub latest_budget_id : List Budget → String
  unfolding is_eligible compare_budgets
  latest_budget_id budgets = first_id (sort_by compare_budgets (filter is_eligible budgets))

  -- `selection$`
  unfoldable pub select : (year_now : ℕ) → Params → List Budget → Selection
  unfolding latest_budget_id
  select year_now p budgets = record {
    budget = elim p.budget [ none ↦ latest_budget_id budgets | some id ↦ id ];
    reference = get_or p.reference "";
    year = elim p.year [ none ↦ year_now | some raw ↦ get_or (read_year raw) year_now ];
    lot = elim p.lot [ none ↦ none | some raw ↦ read_lot raw ];
    search = get_or p.search "";
  }
