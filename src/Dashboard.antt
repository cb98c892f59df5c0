-- ===== src/Dashboard.antt =====
-- frontend/src/app/dashboard/dashboard.component.ts: the selection that the address holds, and the
-- streams that follow it.
-- An event is what reaches the component: a new address, an answer, a right, a call of a method.
-- The four tracks without a key are those of `bind`. `paid_for` is what `distinctUntilChanged`
-- compares with for the payments; for the two other selections it is the key of `selection`.
pub mod Stream
pub mod Choice
pub mod Events
pub mod Laws
pub mod Views
pub mod Classes
pub mod Navigation
mod Tests
use asl_bissieux.Prelude.{
  ℕ, ◌+◌, Bool, true, false, ◌&&◌, not, List, [], ◌∷◌, Option, none, some, if◌then◌else◌, ◌==◌,
  find?, get_or,
}
use asl_bissieux.Prelude.Int.{ℤ}
use asl_bissieux.Prelude.Strings.{String, str_eq}
use asl_bissieux.Directory.{Member, Lot}
use asl_bissieux.Budgets.Recipients.{Due, number_of}
use asl_bissieux.Dashboard.Stream.{Track, idle, begin, answer}
use asl_bissieux.Dashboard.Choice.{Budget, Params, Selection, select}

-- `ModelsRecoverySummary`
pub record Recovery : Type 0 where
  pub remaining : Option ℤ
  pub overpaid : Option ℤ

-- `ModelsBudgetDashboard`
pub record Finance (U : Type 0) : Type 0 where
  pub budget : Option Budget
  pub cotisations : Option (List (Due U))
  pub recovery : Option Recovery

-- `ModelsDirectoryQuality`
pub record Quality : Type 0 where
  pub invalid_shares : Option ℤ

-- `ModelsEmailCounts`, `ModelsEmailDashboard`
pub record EmailCounts : Type 0 where
  pub error : Option ℤ
  pub unknown : Option ℤ

pub record EmailDashboard : Type 0 where
  pub counts : Option EmailCounts

-- `AuthAccessRequestSummary`
pub record Access : Type 0 where
  pub pending : Option ℤ

pub record FinanceKey : Type 0 where
  pub budget : String
  pub year : ℕ

pub record ReferenceKey : Type 0 where
  pub budget : String
  pub reference : String

pub record PaymentKey : Type 0 where
  pub budget : String
  pub id : String
  pub revision : ℕ

-- `P` is `ModelsPayment`, which the code only shows.
pub record Dashboard (U P : Type 0) : Type 0 where
  pub params : Params
  pub choices : List Budget
  pub selection : Selection
  pub map_search : String
  pub budgets : Track Unit (List Budget)
  pub units : Track Unit (List (Lot (Member U)))
  pub directory : Track Unit Quality
  pub emails : Track Unit EmailDashboard
  pub finance : Track FinanceKey (Finance U)
  pub reference : Track ReferenceKey Budget
  pub rights : Option Bool
  pub administrator : Bool
  pub access : Track Unit Access
  pub payments : Track PaymentKey (List P)
  pub paid_for : PaymentKey
  pub revision : ℕ
  pub alive : Bool

-- The two inner `map` of a selection, and the tests of `distinctUntilChanged`.
abbrev pub finance_key : Selection → FinanceKey
finance_key c = record { budget = c.budget; year = c.year }

abbrev pub reference_key : Selection → ReferenceKey
reference_key c = record { budget = c.budget; reference = c.reference }

abbrev pub same_finance : FinanceKey → FinanceKey → Bool
same_finance a b = str_eq a.budget b.budget && (a.year == b.year)

abbrev pub same_reference : ReferenceKey → ReferenceKey → Bool
same_reference a b = str_eq a.budget b.budget && str_eq a.reference b.reference

abbrev pub same_payment : PaymentKey → PaymentKey → Bool
same_payment a b = str_eq a.budget b.budget && str_eq a.id b.id && (a.revision == b.revision)

-- The selections for which a request is made.
abbrev pub wants_finance : FinanceKey → Bool
wants_finance k = not (str_eq k.budget "")

abbrev pub wants_reference : ReferenceKey → Bool
wants_reference k = not (str_eq k.reference "") && not (str_eq k.reference k.budget)

abbrev pub wants_payments : PaymentKey → Bool
wants_payments k = not (str_eq k.id "")

module _ {U : Type 0} where
  -- `c.unit?.number === lot`: a missing lot is not the null selection.
  abbrev pub is_of : Option ℕ → Due U → Bool
  is_of none c = false
  is_of (some n) c = elim (number_of c) [ none ↦ false | some m ↦ m == n ]

  abbrev pub cotisations_of : Option (Finance U) → List (Due U)
  cotisations_of none = []
  cotisations_of (some f) = get_or f.cotisations []

  -- `cotisations?.find(…)?.id ?? ""`
  unfoldable pub cotisation_id : Option ℕ → Option (Finance U) → String
  cotisation_id lot f = elim (find? (is_of lot) (cotisations_of f)) [
    | none ↦ ""
    | some c ↦ get_or c.cotisation.id ""
  ]

module _ {U P : Type 0} where
  unfoldable pub payment_key : Dashboard U P → PaymentKey
  unfolding cotisation_id
  payment_key s = record {
    budget = s.selection.budget;
    id = cotisation_id s.selection.lot s.finance.remote.value;
    revision = s.revision;
  }

  -- The payments follow the selection, the cotisations and the requests to read them again.
  unfoldable pub follow_payments : Dashboard U P → Dashboard U P
  unfolding payment_key
  follow_payments s =
      let k = payment_key s in
      if same_payment k s.paid_for
      then s
      else record s { payments = begin (wants_payments k) k s.payments; paid_for = k }

  -- The budget of a selection is read: `financeData$` changes.
  unfoldable pub begin_finance : Selection → Dashboard U P → Dashboard U P
  unfolding follow_payments
  begin_finance c s =
      let k = finance_key c in
      follow_payments (record s { finance = begin (wants_finance k) k s.finance })

  unfoldable pub begin_reference : Selection → Dashboard U P → Dashboard U P
  begin_reference c s =
      let k = reference_key c in record s { reference = begin (wants_reference k) k s.reference }

  -- The three streams receive a selection, in the order of their subscriptions.
  unfoldable pub follow_finance : Selection → Dashboard U P → Dashboard U P
  unfolding begin_finance
  follow_finance c s =
      if same_finance (finance_key s.selection) (finance_key c) then s else begin_finance c s

  unfoldable pub follow_reference : Selection → Dashboard U P → Dashboard U P
  unfolding begin_reference
  follow_reference c s =
      if same_reference (reference_key s.selection) (reference_key c)
      then s
      else begin_reference c s

  unfoldable pub follow : Selection → Dashboard U P → Dashboard U P
  unfolding follow_finance follow_reference follow_payments
  follow c s =
      follow_payments
        (record (follow_reference c (follow_finance c s)) { selection = c; map_search = c.search })

  module _ (parse_date : String → Option ℤ) (locale : String → String → ℤ) where
    unfoldable pub reselect : (year_now : ℕ) → Dashboard U P → Dashboard U P
    unfolding follow
    reselect year_now s = follow (select parse_date locale year_now s.params s.choices) s

    -- `ngOnInit`, before a right and an answer arrive.
    unfoldable pub start : (year_now : ℕ) → Params → Dashboard U P
    start year_now p =
        let c = select parse_date locale year_now p [] in
        record {
          params = p;
          choices = [];
          selection = c;
          map_search = c.search;
          budgets = begin true tt idle;
          units = begin true tt idle;
          directory = begin true tt idle;
          emails = begin true tt idle;
          finance = begin (wants_finance (finance_key c)) (finance_key c) idle;
          reference = begin (wants_reference (reference_key c)) (reference_key c) idle;
          rights = none;
          administrator = false;
          access = idle;
          payments = idle;
          paid_for = record { budget = c.budget; id = ""; revision = 0 };
          revision = 0;
          alive = true;
        }

    -- The answer to `listBudgets`: a list becomes the choices.
    unfoldable pub budgets_answer :
        (year_now : ℕ) → Option (Option (List Budget)) → Dashboard U P → Dashboard U P
    unfolding reselect
    budgets_answer year_now none s = record s { budgets = answer none s.budgets }
    budgets_answer year_now (some none) s = record s { budgets = answer (some none) s.budgets }
    budgets_answer year_now (some (some bs)) s = elim s.budgets.asked [
      | none ↦ s
      | some key ↦
          reselect year_now (record s { budgets = answer (some (some bs)) s.budgets; choices = bs })
    ]
