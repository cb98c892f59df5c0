-- ===== src/Budgets/Payments/Laws.antt =====
-- How the states and the coverages of cotisations fit together
-- (frontend/src/app/budgets/payment-state.ts, datasources/cotisation.datasource.ts).
use asl_bissieux.Prelude.{◌≡◌, Bool, true, false, ◌&&◌, ◌||◌, not, none, arith}
use asl_bissieux.Prelude.Int.{ℤ, pos, ◌+ℤ◌, ◌-ℤ◌, ltb_ℤ, leb_ℤ, -ℤ_parts, eq_of_parts}
use asl_bissieux.Budgets.Payments.{
  Cotisation, PaymentState, done, doing, waiting, overpaid, compare_paid, payment_state, amount_of,
  paid_of, covers,
}

abbrev pub is_overpaid : PaymentState → Bool
is_overpaid overpaid = true
is_overpaid _ = false

abbrev pub is_settled : PaymentState → Bool
is_settled overpaid = true
is_settled done = true
is_settled _ = false

abbrev pub is_doing : PaymentState → Bool
is_doing doing = true
is_doing _ = false

abbrev pub is_waiting : PaymentState → Bool
is_waiting waiting = true
is_waiting _ = false

covers_lem :
    (amount paid : ℤ)
    → (ltb_ℤ (amount -ℤ paid) (pos 0) ≡ is_overpaid (compare_paid amount paid))
      × (leb_ℤ (amount -ℤ paid) (pos 0) ≡ is_settled (compare_paid amount paid))
      × (ltb_ℤ (pos 0) (amount -ℤ paid) ≡ not (is_settled (compare_paid amount paid)))
unfolding compare_paid
covers_lem amount paid = ground (arith, -ℤ_parts amount paid, eq_of_parts paid amount)

partial_lem :
    (amount paid : ℤ)
    → (ltb_ℤ (pos 0) paid && ltb_ℤ (pos 0) (amount -ℤ paid))
      ≡ is_doing (compare_paid amount paid)
        || (is_waiting (compare_paid amount paid) && ltb_ℤ (pos 0) paid)
unfolding compare_paid ◌+ℤ◌
partial_lem amount paid = ground (arith, -ℤ_parts amount paid, eq_of_parts paid amount)

unpaid_lem :
    (amount paid : ℤ)
    → (leb_ℤ paid (pos 0) && ltb_ℤ (pos 0) (amount -ℤ paid))
      ≡ is_waiting (compare_paid amount paid) && not (ltb_ℤ (pos 0) paid)
unfolding compare_paid ◌+ℤ◌
unpaid_lem amount paid = ground (arith, -ℤ_parts amount paid, eq_of_parts paid amount)

-- The server sends neither a state nor a balance.
pub record IsLocal (c : Cotisation) : Type 0 where
  pub no_state : c.state ≡ none
  pub no_remaining : c.remaining ≡ none

-- Where the server sends neither a state nor a balance, the coverages of the filter follow the
-- states of the table: overpaid is that state; settled is done or overpaid, and remaining is neither
-- of them; partial is doing, or waiting with something received; unpaid is waiting with nothing
-- received.
pub covers-payment_state :
    (c : Cotisation)
    → IsLocal c
    → (covers "overpaid" c ≡ is_overpaid (payment_state c))
      × (covers "settled" c ≡ is_settled (payment_state c))
      × (covers "remaining" c ≡ not (is_settled (payment_state c)))
      × (covers "partial" c
          ≡ is_doing (payment_state c) || (is_waiting (payment_state c) && covers "received" c))
      × (covers "unpaid" c ≡ is_waiting (payment_state c) && not (covers "received" c))
unfolding covers payment_state
covers-payment_state c h =
    let amount = amount_of c in
    let paid = paid_of c in
    let (over, settled, left) = covers_lem amount paid in
    rw (h.no_state, h.no_remaining)
      (over, settled, left, partial_lem amount paid, unpaid_lem amount paid)

-- Every cotisation is settled or has a balance, never both; one with a balance is partial or
-- unpaid, never both; and an overpaid one is settled.
pub covers_partition :
    (c : Cotisation)
    → (covers "settled" c ≡ not (covers "remaining" c))
      × (covers "remaining" c ≡ covers "partial" c || covers "unpaid" c)
      × (covers "partial" c && covers "unpaid" c ≡ false)
      × (covers "overpaid" c ≡ covers "overpaid" c && covers "settled" c)
unfolding covers
covers_partition c = ground arith
