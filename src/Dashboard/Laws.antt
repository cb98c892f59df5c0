-- ===== src/Dashboard/Laws.antt =====
-- The streams of the dashboard follow its selection
-- (frontend/src/app/dashboard/dashboard.component.ts).
use asl_bissieux.Prelude.{
  ℕ, ◌≡◌, refl, sym, ◌≢◌, Bool, true, false, ◌&&◌, not, List, [], ◌∷◌, Option, none, some, arith,
  if◌then◌else◌, ◌==◌, Bool-cases, inl, inr, get_or,
}
pub mod Events
use mathlib.Core.Path.{subst}
use asl_bissieux.Prelude.Int.{ℤ}
use asl_bissieux.Prelude.Strings.{String, str_eq, eq_iff}
use asl_bissieux.Dashboard.Stream.{
  Track, Remote, idle, begin, answer, IsFor, idle-IsFor, begin-IsFor, answer-IsFor,
}
use asl_bissieux.Directory.{Member, Lot}
use asl_bissieux.Dashboard.Choice.{Budget, Params, Selection, select}
use asl_bissieux.Dashboard.{
  Finance, Quality, EmailDashboard, Access, FinanceKey, ReferenceKey, PaymentKey, Dashboard,
  finance_key, reference_key, same_finance, same_reference, same_payment, wants_finance,
  wants_reference, wants_payments, payment_key, follow_payments, begin_finance, begin_reference,
  follow_finance, follow_reference, follow, reselect, start, budgets_answer,
}
use asl_bissieux.Dashboard.Events.{
  Event, finance_answer, change_rights, reload_access, refresh, retry, react, handle, run,
}

eq_of_same_finance : (a b : FinanceKey) → same_finance a b ≡ true → a ≡ b
eq_of_same_finance a b e = ground (arith, eq_iff a.budget b.budget)

eq_of_same_payment : (a b : PaymentKey) → same_payment a b ≡ true → a ≡ b
eq_of_same_payment a b e = ground (arith, eq_iff a.budget b.budget, eq_iff a.id b.id)

eq_of_same_reference : (a b : ReferenceKey) → same_reference a b ≡ true → a ≡ b
eq_of_same_reference a b e =
    ground (arith, eq_iff a.budget b.budget, eq_iff a.reference b.reference)

module _ {U : Type 0} where
  -- The component lives, and its other streams ask, show and say that they load as they should.
  pub record AreRead (alive : Bool) (budgets : Track {0} (Unit {0}) (List Budget))
      (units : Track {0} (Unit {0}) (List (Lot (Member U))))
      (directory : Track {0} (Unit {0}) Quality) (emails : Track {0} (Unit {0}) EmailDashboard)
      (access : Track {0} (Unit {0}) Access) : Type 0 where
    pub living : alive ≡ true
    pub budgets_for : IsFor tt budgets
    pub units_for : IsFor tt units
    pub directory_for : IsFor tt directory
    pub emails_for : IsFor tt emails
    pub access_for : IsFor tt access

module _ {U P : Type 0} where
  -- The tracks are of these keys, and nobody but an administrator has the access requests.
  pub record IsOf (f : FinanceKey) (r : ReferenceKey) (s : Dashboard U P) : Type 0 where
    pub finance_for : IsFor f s.finance
    pub reference_for : IsFor r s.reference
    pub payments_for : IsFor s.paid_for s.payments
    pub access_private : s.administrator ≡ false → s.access ≡ idle
    pub others : AreRead s.alive s.budgets s.units s.directory s.emails s.access

  pub record IsCurrent (s : Dashboard U P) : Type 0 where
    pub finance_current : IsFor (finance_key s.selection) s.finance
    pub reference_current : IsFor (reference_key s.selection) s.reference
    pub payments_current : IsFor (payment_key s) s.payments
    pub paid_exact : s.paid_for ≡ payment_key s
    pub access_private : s.administrator ≡ false → s.access ≡ idle
    pub others : AreRead s.alive s.budgets s.units s.directory s.emails s.access

  follow_payments-IsOf :
      {f : FinanceKey} {r : ReferenceKey} (s : Dashboard U P)
      → IsOf f r s
      → IsOf f r (follow_payments s)
  unfolding follow_payments
  follow_payments-IsOf s c = elim (Bool-cases (same_payment (payment_key s) s.paid_for)) [
    | inl e ↦ rw e c
    | inr e ↦ rw e record {
      finance_for = c.finance_for;
      reference_for = c.reference_for;
      payments_for = begin-IsFor _ _ _;
      access_private = c.access_private;
      others = c.others;
    }
  ]

  follow_payments-paid :
      (s : Dashboard U P) → (follow_payments s).paid_for ≡ payment_key (follow_payments s)
  unfolding follow_payments payment_key
  follow_payments-paid s = elim (Bool-cases (same_payment (payment_key s) s.paid_for)) [
    | inl e ↦ rw e (sym (eq_of_same_payment (payment_key s) s.paid_for e))
    | inr e ↦ rw e refl
  ]

  follow_payments-selection : (s : Dashboard U P) → (follow_payments s).selection ≡ s.selection
  unfolding follow_payments
  follow_payments-selection s = ground arith

  pub IsOf-IsCurrent :
      (s : Dashboard U P)
      → IsOf (finance_key s.selection) (reference_key s.selection) s
      → s.paid_for ≡ payment_key s
      → IsCurrent s
  IsOf-IsCurrent s c e = record {
    finance_current = c.finance_for;
    reference_current = c.reference_for;
    payments_current = rw (sym e) c.payments_for;
    paid_exact = e;
    access_private = c.access_private;
    others = c.others;
  }

  pub IsCurrent-IsOf :
      (s : Dashboard U P)
      → IsCurrent s
      → IsOf (finance_key s.selection) (reference_key s.selection) s
  IsCurrent-IsOf s c = record {
    finance_for = c.finance_current;
    reference_for = c.reference_current;
    payments_for = rw c.paid_exact c.payments_current;
    access_private = c.access_private;
    others = c.others;
  }

  -- Once the payments follow, everything is of the selection.
  pub follow_payments-IsCurrent :
      (s : Dashboard U P)
      → IsOf (finance_key s.selection) (reference_key s.selection) s
      → IsCurrent (follow_payments s)
  follow_payments-IsCurrent s c =
      IsOf-IsCurrent (follow_payments s)
        (subst (λ k. IsOf (finance_key k) (reference_key k) (follow_payments s))
          (sym (follow_payments-selection s)) (follow_payments-IsOf s c))
        (follow_payments-paid s)

  begin_finance-IsOf :
      {f : FinanceKey} {r : ReferenceKey} (c : Selection) (s : Dashboard U P)
      → IsOf f r s
      → IsOf (finance_key c) r (begin_finance c s)
  unfolding begin_finance
  begin_finance-IsOf c s i = follow_payments-IsOf _ record {
    finance_for = begin-IsFor _ _ _;
    reference_for = i.reference_for;
    payments_for = i.payments_for;
    access_private = i.access_private;
    others = i.others;
  }

  pub begin_finance-selection :
      (c : Selection) (s : Dashboard U P) → (begin_finance c s).selection ≡ s.selection
  unfolding begin_finance
  begin_finance-selection c s =
      follow_payments-selection
        (record s { finance = begin (wants_finance (finance_key c)) (finance_key c) s.finance })

  follow_finance-IsOf :
      {r : ReferenceKey} (c : Selection) (s : Dashboard U P)
      → IsOf (finance_key s.selection) r s
      → IsOf (finance_key c) r (follow_finance c s)
  unfolding follow_finance
  follow_finance-IsOf {r} c s i =
      elim (Bool-cases (same_finance (finance_key s.selection) (finance_key c))) [
        | inl e ↦ rw e (
            subst (λ k. IsOf k r s) (eq_of_same_finance (finance_key s.selection) (finance_key c) e)
              i)
        | inr e ↦ rw e (begin_finance-IsOf c s i)
      ]

  follow_finance-selection :
      (c : Selection) (s : Dashboard U P) → (follow_finance c s).selection ≡ s.selection
  unfolding follow_finance
  follow_finance-selection c s = ground (arith, begin_finance-selection c s)

  begin_reference-IsOf :
      {f : FinanceKey} {r : ReferenceKey} (c : Selection) (s : Dashboard U P)
      → IsOf f r s
      → IsOf f (reference_key c) (begin_reference c s)
  unfolding begin_reference
  begin_reference-IsOf c s i = record {
    finance_for = i.finance_for;
    reference_for = begin-IsFor _ _ _;
    payments_for = i.payments_for;
    access_private = i.access_private;
    others = i.others;
  }

  follow_reference-IsOf :
      {f : FinanceKey} (c : Selection) (s : Dashboard U P)
      → IsOf f (reference_key s.selection) s
      → IsOf f (reference_key c) (follow_reference c s)
  unfolding follow_reference
  follow_reference-IsOf {f} c s i =
      elim (Bool-cases (same_reference (reference_key s.selection) (reference_key c))) [
        | inl e ↦ rw e (
            subst (λ k. IsOf f k s)
              (eq_of_same_reference (reference_key s.selection) (reference_key c) e) i)
        | inr e ↦ rw e (begin_reference-IsOf c s i)
      ]

  reselected-IsOf :
      {f : FinanceKey} {r : ReferenceKey} (c : Selection) (s : Dashboard U P)
      → IsOf f r s
      → IsOf f r (record s { selection = c; map_search = c.search })
  reselected-IsOf c s i = record {
    finance_for = i.finance_for;
    reference_for = i.reference_for;
    payments_for = i.payments_for;
    access_private = i.access_private;
    others = i.others;
  }

  pub follow-IsCurrent :
      (c : Selection) (s : Dashboard U P)
      → IsOf (finance_key s.selection) (reference_key s.selection) s
      → IsCurrent (follow c s)
  unfolding follow
  follow-IsCurrent c s i = follow_payments-IsCurrent _ (
      reselected-IsOf c _ (
        follow_reference-IsOf c (follow_finance c s) (
          subst (λ k. IsOf (finance_key c) (reference_key k) (follow_finance c s))
            (sym (follow_finance-selection c s)) (follow_finance-IsOf c s i))))
