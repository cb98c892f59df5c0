-- ===== src/Dashboard/Tests.antt =====
-- The dashboard after an address, the budgets and the answer to one of them.
use asl_bissieux.Prelude.{
  ℕ, ◌≡◌, true, List, [], ◌∷◌, Option, none, some, arith, any, if◌then◌else◌,
}
use asl_bissieux.Prelude.Int.{ℤ, pos}
use asl_bissieux.Prelude.Strings.{String}
use asl_bissieux.Directory.{Member, Lot}
use asl_bissieux.Budgets.Recipients.{Due}
use asl_bissieux.Dashboard.Choice.{Budget, Params, select}
use asl_bissieux.Dashboard.Navigation.{merge, select_budget, select_lot, select-merge}
use asl_bissieux.Dashboard.Views.{no_call, classes_of}
use asl_bissieux.Dashboard.Classes.{is_at, last_class, classes_of_lem}
use asl_bissieux.Dashboard.{start}
use asl_bissieux.Dashboard.Events.{
  Event, answers_budgets, changes_rights, changes_address, retries, payments, run,
}
use asl_bissieux.Dashboard.Laws.Events.{IsFollowed, run-start-IsFollowed}

abbrev any_date : String → Option ℤ
any_date s = some (pos 1)

abbrev all_equal : String → String → ℤ
all_equal a b = pos 0

abbrev bare : Params
bare = record { budget = none; reference = none; year = none; lot = none; search = none }

abbrev budget : Budget
budget = record { id = some "b"; amount = some (pos 10); created_at = some "2026-01-01" }

abbrev events : List (Event ℕ ℕ)
events =
    answers_budgets 2026 (some (some (budget ∷ [])))
    ∷ changes_rights true
    ∷ changes_address 2026 (record bare { lot = some "3" })
    ∷ retries payments
    ∷ []

run-start-IsFollowed_example :
    IsFollowed (run any_date all_equal events (start any_date all_equal 2026 bare))
run-start-IsFollowed_example = run-start-IsFollowed any_date all_equal events 2026 bare

select-merge_example :
    ((select any_date all_equal 2026 (merge (select_budget "b") bare) (budget ∷ [])).budget ≡ "b")
    × ((select any_date all_equal 2026 (merge (select_budget "b") bare) (budget ∷ [])).reference
        ≡ "")
    × ((select any_date all_equal 2026 (merge (select_budget "b") bare) (budget ∷ [])).lot ≡ none)
    × ((select any_date all_equal 2026 (merge (select_lot (some 3)) bare) (budget ∷ [])).lot
        ≡ some 3)
    × ((select any_date all_equal 2026 (merge (select_lot (some 3)) bare) (budget ∷ [])).budget
        ≡ (select any_date all_equal 2026 bare (budget ∷ [])).budget)
select-merge_example = select-merge any_date all_equal 2026 bare (budget ∷ []) "b" 3 (omega arith)

-- Lot 3 with a cotisation of which nothing is paid.
abbrev lot : Lot (Member ℕ)
lot = record { id = none; number = some 3; address = none; members = none }

abbrev due : Due ℕ
due = record {
  cotisation = record {
    id = some "c";
    amount = some (pos 10);
    paid = none;
    remaining = none;
    state = none;
  };
  unit = some lot;
}

classes_of_lem_example :
    classes_of (lot ∷ []) (due ∷ []) 3
    ≡ last_class 3
        (due ∷ [])
        (if any (λ (u : Lot (Member ℕ)). is_at 3 u.number) (lot ∷ []) then some no_call else none)
classes_of_lem_example = classes_of_lem (lot ∷ []) (due ∷ []) 3
