-- ===== src/Budgets/Payments.antt =====
-- frontend/src/app/budgets/payment-state.ts and datasources/cotisation.datasource.ts: the state of
-- a cotisation, and the rows that a coverage shows.
-- An amount is an integer in a unit that divides every amount: the code only compares amounts,
-- compares with a half, and reads the sign of a difference.
pub mod Laws
use mathlib.Core.Option.{Option, none, some}
use asl_bissieux.Prelude.{
  ℕ, Bool, true, false, ◌&&◌, ◌||◌, not, List, if◌then◌else◌, filter, get_or, ◌==◌, is_some,
}
use asl_bissieux.Prelude.Int.{ℤ, pos, ◌+ℤ◌, ◌-ℤ◌, ltb_ℤ, leb_ℤ, eqb_ℤ}
use asl_bissieux.Prelude.Strings.{String, str_eq}

-- `ModelsCotisationResult`; `state` is `payment_state`.
pub record Cotisation : Type 0 where
  pub id : Option String
  pub amount : Option ℤ
  pub paid : Option ℤ
  pub remaining : Option ℤ
  pub state : Option ℕ

pub data PaymentState : Type 0 where
  done doing waiting overpaid : PaymentState

-- The number of the enumeration that the server sends.
unfoldable pub decode : Option ℕ → Option PaymentState
decode none = none
decode (some n) =
    if n == 1
    then some done
    else if n == 2
    then some doing
    else if n == 3
    then some waiting
    else if n == 4
    then some overpaid
    else none

abbrev pub amount_of : Cotisation → ℤ
amount_of c = get_or c.amount (pos 0)

abbrev pub paid_of : Cotisation → ℤ
paid_of c = get_or c.paid (pos 0)

-- `paid >= amount / 2` is `amount <= 2 * paid`.
unfoldable pub compare_paid : ℤ → ℤ → PaymentState
compare_paid amount paid =
    if ltb_ℤ amount paid
    then overpaid
    else if eqb_ℤ paid amount
    then done
    else if leb_ℤ amount (paid +ℤ paid)
    then doing
    else waiting

-- `paymentState`: the state that the server sends counts, where it is one of the four.
unfoldable pub payment_state : Cotisation → PaymentState
unfolding decode compare_paid
payment_state c = elim (decode c.state) [
  | some state ↦ state
  | none ↦ compare_paid (amount_of c) (paid_of c)
]

unfoldable pub class_of : PaymentState → String
class_of overpaid = "payment-overpaid"
class_of done = "payment-done"
class_of doing = "payment-doing"
class_of waiting = "payment-waiting"

-- `paymentClass`
unfoldable pub payment_class : Cotisation → String
unfolding class_of payment_state
payment_class c = class_of (payment_state c)

unfoldable pub remaining_of : Cotisation → ℤ
remaining_of c = get_or c.remaining (amount_of c -ℤ paid_of c)

-- The `switch` of `results$`.
unfoldable pub covers : String → Cotisation → Bool
unfolding remaining_of
covers coverage c =
    if str_eq coverage "received"
    then ltb_ℤ (pos 0) (paid_of c)
    else if str_eq coverage "remaining"
    then ltb_ℤ (pos 0) (remaining_of c)
    else if str_eq coverage "settled"
    then leb_ℤ (remaining_of c) (pos 0)
    else if str_eq coverage "partial"
    then ltb_ℤ (pos 0) (paid_of c) && ltb_ℤ (pos 0) (remaining_of c)
    else if str_eq coverage "unpaid"
    then leb_ℤ (paid_of c) (pos 0) && ltb_ℤ (pos 0) (remaining_of c)
    else if str_eq coverage "overpaid"
    then ltb_ℤ (remaining_of c) (pos 0)
    else true

abbrev pub id_is : String → Option String → Bool
id_is id none = false
id_is id (some own) = str_eq own id

-- A scope with an identifier shows that cotisation alone.
unfoldable pub shows : String → String → Cotisation → Bool
unfolding covers
shows coverage id c = if not (str_eq id "") && not (id_is id c.id) then false else covers coverage c

-- `results$` under the scope of `setScope`.
unfoldable pub scoped_results : String → String → List Cotisation → List Cotisation
unfolding shows
scoped_results coverage id rows = filter (shows coverage id) rows
