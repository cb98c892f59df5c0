-- ===== src/Dashboard/Views.antt =====
-- What the dashboard shows of the values that it holds
-- (frontend/src/app/dashboard/dashboard.component.ts).
-- An amount is an integer, as for the payments; a percentage is the pair of what is divided.
use asl_bissieux.Prelude.{
  ℕ, Bool, false, ◌&&◌, ◌||◌, not, List, [], ◌∷◌, Option, none, some, if◌then◌else◌, ◌==◌, find?,
  get_or, is_some, filter, any,
}
use asl_bissieux.Prelude.Int.{ℤ, pos, ◌-ℤ◌, ltb_ℤ}
use asl_bissieux.Prelude.Strings.{String, str_eq}
use asl_bissieux.Prelude.Text.{trim}
use asl_bissieux.Members.Matching.{member_matches, unit_matches}
use asl_bissieux.Members.Views.{numbers_of}
use asl_bissieux.Directory.{Member, Lot}
use asl_bissieux.Budgets.Payments.{
  Cotisation, PaymentState, done, doing, waiting, overpaid, payment_state, paid_of,
}
use asl_bissieux.Budgets.Recipients.{Due, number_of}
use asl_bissieux.Dashboard.Choice.{Budget}
use asl_bissieux.Dashboard.{
  Recovery, Finance, Quality, EmailCounts, EmailDashboard, Access, Dashboard, is_of, cotisations_of,
}

-- The label of a cotisation.
unfoldable pub state_of : PaymentState → Cotisation → String
state_of overpaid c = "Trop-perçu à rembourser"
state_of done c = "Soldé"
state_of doing c = if ltb_ℤ (pos 0) (paid_of c) then "Partiellement réglé" else "Sans paiement"
state_of waiting c = if ltb_ℤ (pos 0) (paid_of c) then "Partiellement réglé" else "Sans paiement"

-- `state`
unfoldable pub state : Cotisation → String
unfolding state_of
state c = state_of (payment_state c) c

-- The classes of the map, without their prefix `dashboard-`.
pub data MapClass : Type 0 where
  no_call class_overpaid settled partial unpaid : MapClass

unfoldable pub class_at : PaymentState → Cotisation → MapClass
class_at overpaid c = class_overpaid
class_at done c = settled
class_at doing c = if ltb_ℤ (pos 0) (paid_of c) then partial else unpaid
class_at waiting c = if ltb_ℤ (pos 0) (paid_of c) then partial else unpaid

-- `result[number] = value`
abbrev pub put : Option ℕ → MapClass → (ℕ → Option MapClass) → ℕ → Option MapClass
put none v m k = m k
put (some n) v m k = if n == k then some v else m k

module _ {U : Type 0} where
  unfoldable pub put_units : List (Lot (Member U)) → (ℕ → Option MapClass) → ℕ → Option MapClass
  put_units [] m = m
  put_units (u ∷ us) m = put_units us (put u.number no_call m)

  unfoldable pub put_cotisations : List (Due U) → (ℕ → Option MapClass) → ℕ → Option MapClass
  unfolding class_at
  put_cotisations [] m = m
  put_cotisations (c ∷ cs) m =
      put_cotisations cs (put (number_of c) (class_at (payment_state c.cotisation) c.cotisation) m)

  -- `mapClasses`, less the reading of the state.
  unfoldable pub classes_of : List (Lot (Member U)) → List (Due U) → ℕ → Option MapClass
  unfolding put_units put_cotisations
  classes_of us cs = put_cotisations cs (put_units us (λ k. none))

  abbrev pub lot_is : Option ℕ → Lot (Member U) → Bool
  lot_is none u = false
  lot_is (some n) u = elim u.number [ none ↦ false | some m ↦ m == n ]

abbrev pub above_zero : Option ℤ → Bool
above_zero a = ltb_ℤ (pos 0) (get_or a (pos 0))

abbrev pub amount_of : Option Budget → Option ℤ
amount_of none = none
amount_of (some b) = b.amount

abbrev pub recovery_of : {U : Type 0} → Option (Finance U) → Recovery
recovery_of none = record { remaining = none; overpaid = none }
recovery_of (some f) = get_or f.recovery record { remaining = none; overpaid = none }

abbrev pub counts_of : Option EmailDashboard → EmailCounts
counts_of none = record { error = none; unknown = none }
counts_of (some d) = get_or d.counts record { error = none; unknown = none }

abbrev pub invalid_of : Option Quality → Option ℤ
invalid_of none = none
invalid_of (some q) = q.invalid_shares

abbrev pub pending_of : Option Access → Option ℤ
pending_of none = none
pending_of (some a) = a.pending

abbrev pub budget_of : {U : Type 0} → Option (Finance U) → Option Budget
budget_of none = none
budget_of (some f) = f.budget

module _ {U P : Type 0} where
  -- `selectedCotisation`
  unfoldable pub selected_cotisation : Dashboard U P → Option (Due U)
  selected_cotisation s = find? (is_of s.selection.lot) (cotisations_of s.finance.remote.value)

  -- `selectedUnit`
  unfoldable pub selected_unit : Dashboard U P → Option (Lot (Member U))
  unfolding selected_cotisation
  selected_unit s = elim (find? (lot_is s.selection.lot) (get_or s.units.remote.value [])) [
    | some u ↦ some u
    | none ↦ elim (selected_cotisation s) [ none ↦ none | some c ↦ c.unit ]
  ]

  -- `mapClasses`
  unfoldable pub map_classes : Dashboard U P → ℕ → Option MapClass
  unfolding classes_of
  map_classes s =
      classes_of (get_or s.units.remote.value []) (cotisations_of s.finance.remote.value)

  -- `comparisonDifference`
  unfoldable pub comparison_difference : Dashboard U P → Option ℤ
  comparison_difference s = elim (amount_of (budget_of s.finance.remote.value)) [
    | none ↦ none
    | some selected ↦ elim (amount_of s.reference.remote.value) [
      | none ↦ none
      | some reference ↦ some (selected -ℤ reference)
    ]
  ]

  -- `comparisonPercent`: what is divided, and by what.
  unfoldable pub comparison_percent : Dashboard U P → Option (ℤ × ℤ)
  unfolding comparison_difference
  comparison_percent s = elim (amount_of s.reference.remote.value) [
    | none ↦ none
    | some reference ↦
        if ltb_ℤ (pos 0) reference
        then elim (comparison_difference s) [
          | none ↦ none
          | some difference ↦ some (difference, reference)
        ]
        else none
  ]

  -- `hasActions`
  unfoldable pub has_actions : Dashboard U P → Bool
  has_actions s =
      above_zero (recovery_of s.finance.remote.value).remaining
      || above_zero (recovery_of s.finance.remote.value).overpaid
      || above_zero (counts_of s.emails.remote.value).error
      || above_zero (counts_of s.emails.remote.value).unknown
      || above_zero (invalid_of s.directory.remote.value)
      || (s.administrator && above_zero (pending_of s.access.remote.value))

  -- `actionsComplete`
  unfoldable pub actions_complete : Dashboard U P → Bool
  actions_complete s =
      (str_eq s.selection.budget "" || is_some s.finance.remote.value)
      && is_some s.directory.remote.value
      && is_some s.emails.remote.value
      && (not s.administrator || is_some s.access.remote.value)

-- The lots of the map that the search finds, where the members of a lot list theirs.
module _ {M P : Type 0} (fold : String → String) where
  -- `matchingMapUnits`
  unfoldable pub matching_map_units : Dashboard (Lot M) P → List (Lot (Member (Lot M)))
  matching_map_units s =
      if str_eq (trim s.map_search) ""
      then []
      else filter
          (λ u.
            unit_matches fold u s.map_search
            || any (λ m. member_matches fold m s.map_search) (get_or u.members []))
          (get_or s.units.remote.value [])

  -- `highlightedMapUnits`
  unfoldable pub highlighted_map_units : Dashboard (Lot M) P → List ℕ
  unfolding matching_map_units
  highlighted_map_units s = numbers_of (matching_map_units s)
