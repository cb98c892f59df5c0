-- ===== src/Budgets/Details.antt =====
-- frontend/src/app/budgets/components/budget-details/budget-details.component.ts: the budget of the
-- address, the source of its cotisations with the coverage that the address names, and the deletion
-- of an expense.
-- `asked` is the identifier of the request in flight; `source` is what `cotisations$` holds, with
-- the scope that it was given last. The rights, the answers and the confirmation are events.
pub mod Laws
use asl_bissieux.Prelude.{
  Bool, true, false, ◌&&◌, not, List, [], ◌∷◌, Option, none, some, if◌then◌else◌, any, get_or,
  is_some, ◌||◌,
}
use asl_bissieux.Prelude.Strings.{String, str_eq}

-- `ModelsBudgetResult`, what decides here.
pub record Budget : Type 0 where
  pub id : Option String
  pub draft : Bool

-- A `CotisationDataSource`, and the last `setScope`.
pub record Scoped : Type 0 where
  pub budget_id : String
  pub coverage : String
  pub cotisation : String

-- A deletion that waits for its confirmation.
pub record Deletion : Type 0 where
  pub budget_id : String
  pub expense_id : String

pub record Details : Type 0 where
  pub route_id : String
  pub budget_loading : Bool
  pub budget_error : Bool
  pub coverage : String
  pub cotisation_filter : String
  pub budget : Option Budget
  pub source : Option Scoped
  pub asked : Option String
  pub alive : Bool
  -- The deletions that the API was asked for, the latest first.
  pub deleted : List Deletion

-- `coverageLabels`
abbrev pub coverages : List String
coverages = "received" ∷ "remaining" ∷ "settled" ∷ "partial" ∷ "unpaid" ∷ "overpaid" ∷ []

unfoldable pub read_coverage : Option String → String
read_coverage none = ""
read_coverage (some scope) = if any (λ c. str_eq c scope) coverages then scope else ""

-- `cotisations$` of a budget, in the scope of the address.
unfoldable pub source_of : (coverage cotisation : String) → Option Budget → Option Scoped
source_of coverage cotisation none = none
source_of coverage cotisation (some b) = elim b.id [
  | none ↦ none
  | some id ↦
      if b.draft
      then none
      else some (record { budget_id = id; coverage = coverage; cotisation = cotisation })
]

-- `_budget$.next(…)`
unfoldable pub set_budget : Option Budget → Details → Details
unfolding source_of
set_budget budget s = record s {
  budget = budget;
  source = source_of s.coverage s.cotisation_filter budget;
}

-- `tap`, then `switchMap`
unfoldable pub begin : Details → Details
unfolding set_budget
begin s =
    set_budget none
      (record s { budget_loading = true; budget_error = false; asked = some s.route_id })

-- `ngOnInit`, for the first address.
unfoldable pub start : (id : String) (coverage cotisation : Option String) → Details
unfolding begin read_coverage
start id coverage cotisation = begin (record {
  route_id = id;
  budget_loading = true;
  budget_error = false;
  coverage = read_coverage coverage;
  cotisation_filter = get_or cotisation "";
  budget = none;
  source = none;
  asked = none;
  alive = true;
  deleted = [];
})

-- `paramMap` emits.
unfoldable pub change_route : String → Details → Details
unfolding begin
change_route id s = if s.alive then begin (record s { route_id = id }) else s

-- `refreshBudget`
unfoldable pub refresh_budget : Details → Details
unfolding begin
refresh_budget s = if s.alive then begin s else s

-- `queryParamMap` emits: the scope of the source follows.
unfoldable pub change_query : (coverage cotisation : Option String) → Details → Details
unfolding read_coverage source_of
change_query coverage cotisation s =
    if s.alive
    then record s {
      coverage = read_coverage coverage;
      cotisation_filter = get_or cotisation "";
      source = source_of (read_coverage coverage) (get_or cotisation "") s.budget;
    }
    else s

-- The answer to `getBudget`: `none` is a failure, `some none` is null.
unfoldable pub answered : Option (Option Budget) → Details → Details
unfolding set_budget
answered result s =
    if is_some s.asked
    then elim result [
      | none ↦
          set_budget none (record s { budget_error = true; budget_loading = false; asked = none })
      | some budget ↦ set_budget budget (record s { budget_loading = false; asked = none })
    ]
    else s

-- `canCreateExpense$`, `canEditExpense` and `canDeleteExpense`
unfoldable pub can_change_expense : (allowed : Bool) → Option Budget → Bool
can_change_expense allowed none = false
can_change_expense allowed (some b) = b.draft && allowed

abbrev pub is_draft_of : String → Option Budget → Bool
is_draft_of id none = false
is_draft_of id (some b) = elim b.id [ none ↦ false | some own ↦ str_eq own id && b.draft ]

-- `deleteExpense`, up to the confirmation.
unfoldable pub delete_expense : (expense_id : String) → Option Budget → Option Deletion
delete_expense expense_id none = none
delete_expense expense_id (some b) = elim b.id [
  | none ↦ none
  | some id ↦
      if str_eq id "" || not b.draft
      then none
      else some (record { budget_id = id; expense_id = expense_id })
]

-- The dialog of a deletion is closed.
unfoldable pub close_deletion : Deletion → (confirmed : Bool) → Details → Details
close_deletion d confirmed s =
    if confirmed && is_draft_of d.budget_id s.budget
    then record s { deleted = d ∷ s.deleted }
    else s

-- `ngOnDestroy`
unfoldable pub destroy : Details → Details
destroy s = record s { alive = false; asked = none }
