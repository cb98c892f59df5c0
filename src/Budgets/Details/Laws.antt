-- ===== src/Budgets/Details/Laws.antt =====
-- The screen of a budget follows the answers and the address
-- (frontend/src/app/budgets/components/budget-details/budget-details.component.ts).
use asl_bissieux.Prelude.{
  ◌≡◌, refl, ◌⊎◌, inl, inr, Bool, true, false, ◌&&◌, List, [], ◌∷◌, Option, none, some, arith,
  if◌then◌else◌, any, is_some, get_or, Bool-cases,
}
use asl_bissieux.Prelude.Strings.{String, str_eq}
use asl_bissieux.Budgets.Details.{
  Budget, Deletion, Scoped, Details, coverages, read_coverage, source_of, begin, start,
  change_route, refresh_budget, change_query, answered, close_deletion, is_draft_of, destroy,
}

pub data Event : Type 0 where
  changes_route : String → Event
  refreshes : Event
  changes_query : (coverage cotisation : Option String) → Event
  answers : Option (Option Budget) → Event
  closes : Deletion → Bool → Event
  destroys : Event

unfoldable pub handle : Event → Details → Details
handle (changes_route id) s = change_route id s
handle refreshes s = refresh_budget s
handle (changes_query coverage cotisation) s = change_query coverage cotisation s
handle (answers result) s = answered result s
handle (closes d confirmed) s = close_deletion d confirmed s
handle destroys s = destroy s

unfoldable pub run : List Event → Details → Details
run [] s = s
run (e ∷ es) s = run es (handle e s)

-- No source without a budget, for a budget without an identifier or for a draft; a source for any
-- other, with the budget's identifier and the two parts of the scope.
pub record IsSourced (coverage cotisation : String) (budget : Option Budget)
    (source : Option Scoped) : Type 0 where
  pub without_budget : budget ≡ none → source ≡ none
  pub without_id : (b : Budget) → budget ≡ some b → b.id ≡ none → source ≡ none
  pub of_draft : (b : Budget) → budget ≡ some b → b.draft ≡ true → source ≡ none
  pub of_settled :
      (b : Budget) (id : String)
      → budget ≡ some b
      → b.id ≡ some id
      → b.draft ≡ false
      → source ≡ some (record { budget_id = id; coverage = coverage; cotisation = cotisation })

draft-source_of :
    (coverage cotisation : String) (b : Budget)
    → b.draft ≡ true
    → source_of coverage cotisation (some b) ≡ none
unfolding source_of
draft-source_of coverage cotisation b d = ground arith

source_of-IsSourced :
    (coverage cotisation : String) (budget : Option Budget)
    → IsSourced coverage cotisation budget (source_of coverage cotisation budget)
unfolding source_of
source_of-IsSourced coverage cotisation budget = record {
  without_budget = λ e. rw e refl;
  without_id = λ b e i. rw (e, i) refl;
  of_draft = λ b e d. rw e (draft-source_of coverage cotisation b d);
  of_settled = λ b id e i d. rw (e, i, d) refl;
}

pub record IsConsistent (s : Details) : Type 0 where
  pub source_shown : IsSourced s.coverage s.cotisation_filter s.budget s.source
  pub in_flight : is_some s.asked ≡ true → s.alive ≡ true
  pub loading_exact : s.alive ≡ true → s.budget_loading ≡ is_some s.asked
  pub asked_here : is_some s.asked ≡ true → s.asked ≡ some s.route_id
  pub hidden_while : is_some s.asked ≡ true → s.budget ≡ none
  pub no_error_while : is_some s.asked ≡ true → s.budget_error ≡ false
  pub error_alone : s.budget_error ≡ true → s.budget ≡ none
  pub coverage_known : (s.coverage ≡ "") ⊎ (any (λ c. str_eq c s.coverage) coverages ≡ true)

read_coverage-known :
    (c : Option String)
    → (read_coverage c ≡ "") ⊎ (any (λ k. str_eq k (read_coverage c)) coverages ≡ true)
unfolding read_coverage
read_coverage-known none = inl refl
read_coverage-known (some scope) = elim (Bool-cases (any (λ c. str_eq c scope) coverages)) [
  | inl e ↦ rw e (inr e)
  | inr e ↦ rw e (inl refl)
]

if-IsConsistent :
    (b : Bool) {s t : Details}
    → (b ≡ true → IsConsistent s)
    → (b ≡ false → IsConsistent t)
    → IsConsistent (if b then s else t)
if-IsConsistent true f g = f refl
if-IsConsistent false f g = g refl

begin-IsConsistent :
    (s : Details)
    → s.alive ≡ true
    → (s.coverage ≡ "") ⊎ (any (λ c. str_eq c s.coverage) coverages ≡ true)
    → IsConsistent (begin s)
unfolding begin
begin-IsConsistent s live k = record {
  source_shown = source_of-IsSourced _ _ _;
  in_flight = λ _. live;
  loading_exact = λ _. refl;
  asked_here = λ _. refl;
  hidden_while = λ _. refl;
  no_error_while = λ _. refl;
  error_alone = λ _. refl;
  coverage_known = k;
}

answered-IsConsistent :
    (result : Option (Option Budget)) (s : Details)
    → IsConsistent s
    → IsConsistent (answered result s)
unfolding answered
answered-IsConsistent none s c =
    if-IsConsistent (is_some s.asked)
      (λ e. record {
        source_shown = source_of-IsSourced _ _ _;
        in_flight = λ h. ground arith;
        loading_exact = λ _. refl;
        asked_here = λ h. ground arith;
        hidden_while = λ _. refl;
        no_error_while = λ h. ground arith;
        error_alone = λ _. refl;
        coverage_known = c.coverage_known;
      })
      (λ e. c)
answered-IsConsistent (some budget) s c =
    if-IsConsistent (is_some s.asked)
      (λ e. record {
        source_shown = source_of-IsSourced _ _ _;
        in_flight = λ h. ground arith;
        loading_exact = λ _. refl;
        asked_here = λ h. ground arith;
        hidden_while = λ h. ground arith;
        no_error_while = λ h. ground arith;
        error_alone = λ h. ground (arith, c.no_error_while e);
        coverage_known = c.coverage_known;
      })
      (λ e. c)

handle-IsConsistent : (e : Event) (s : Details) → IsConsistent s → IsConsistent (handle e s)
unfolding handle change_route refresh_budget change_query close_deletion destroy
handle-IsConsistent (changes_route id) s c =
    if-IsConsistent s.alive
      (λ live. begin-IsConsistent (record s { route_id = id }) live c.coverage_known) (λ _. c)
handle-IsConsistent refreshes s c =
    if-IsConsistent s.alive (λ live. begin-IsConsistent s live c.coverage_known) (λ _. c)
handle-IsConsistent (changes_query coverage cotisation) s c =
    if-IsConsistent s.alive
      (λ _. record {
        source_shown = source_of-IsSourced _ _ _;
        in_flight = c.in_flight;
        loading_exact = c.loading_exact;
        asked_here = c.asked_here;
        hidden_while = c.hidden_while;
        no_error_while = c.no_error_while;
        error_alone = c.error_alone;
        coverage_known = read_coverage-known coverage;
      })
      (λ _. c)
handle-IsConsistent (answers result) s c = answered-IsConsistent result s c
handle-IsConsistent (closes d confirmed) s c =
    if-IsConsistent (confirmed && is_draft_of d.budget_id s.budget)
      (λ _. record {
        source_shown = c.source_shown;
        in_flight = c.in_flight;
        loading_exact = c.loading_exact;
        asked_here = c.asked_here;
        hidden_while = c.hidden_while;
        no_error_while = c.no_error_while;
        error_alone = c.error_alone;
        coverage_known = c.coverage_known;
      })
      (λ _. c)
handle-IsConsistent destroys s c = record {
  source_shown = c.source_shown;
  in_flight = λ h. ground arith;
  loading_exact = λ h. ground arith;
  asked_here = λ h. ground arith;
  hidden_while = λ h. ground arith;
  no_error_while = λ h. ground arith;
  error_alone = c.error_alone;
  coverage_known = c.coverage_known;
}

run-IsConsistent : (es : List Event) (s : Details) → IsConsistent s → IsConsistent (run es s)
unfolding run
run-IsConsistent [] s c = c
run-IsConsistent (e ∷ es) s c = run-IsConsistent es (handle e s) (handle-IsConsistent e s c)

-- After any order of addresses, refreshes, answers, closed dialogs and ends: the cotisations have a
-- source exactly if the budget on show has an identifier and is no draft, of that budget and in the
-- scope that is kept of the address, of which the coverage is a known one or none; a request is in
-- flight only while the screen lives, which then says that it loads exactly while one is; the
-- request is for the budget of the address, and no budget and no error is on show meanwhile; nor is
-- a budget beside an error.
pub run-start-IsConsistent :
    (es : List Event) (id : String) (coverage cotisation : Option String)
    → IsConsistent (run es (start id coverage cotisation))
unfolding start
run-start-IsConsistent es id coverage cotisation =
    let s : Details = record {
      route_id = id;
      budget_loading = true;
      budget_error = false;
      coverage = read_coverage coverage;
      cotisation_filter = get_or cotisation "";
      budget = none;
      source = none;
      asked = none;
      alive = true;
      deleted = [];
    } in
    run-IsConsistent es (begin s) (begin-IsConsistent s refl (read_coverage-known coverage))
