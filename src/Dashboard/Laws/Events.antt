-- ===== src/Dashboard/Laws/Events.antt =====
-- Every event of the dashboard keeps its streams on its selection
-- (frontend/src/app/dashboard/dashboard.component.ts).
use mathlib.Core.Path.{subst}
use asl_bissieux.Prelude.{
  ℕ, ◌+◌, ◌≡◌, refl, sym, ap, ◌∙◌, Bool, true, false, List, [], ◌∷◌, Option, none, some, arith,
  if◌then◌else◌, Bool-cases, ◌⊎◌, inl, inr,
}
use asl_bissieux.Prelude.Int.{ℤ}
use asl_bissieux.Prelude.Strings.{String}
use asl_bissieux.Directory.{Member, Lot}
use asl_bissieux.Dashboard.Stream.{
  Track, IsFor, begin-unwanted, begin-no_value, answer-idle, idle, begin, answer, idle-IsFor,
  begin-IsFor, answer-IsFor,
}
use asl_bissieux.Dashboard.Choice.{Budget, Params, Selection, select}
use asl_bissieux.Dashboard.{
  Finance, Dashboard, finance_key, reference_key, wants_finance, payment_key, cotisation_id,
  Quality, EmailDashboard, Access, begin_finance, begin_reference, reselect, start, budgets_answer,
}
use asl_bissieux.Dashboard.Events.{
  same_right, Scope, budgets, finance, reference, units, directory, emails, access, payments, Event,
  changes_address, answers_budgets, answers_units, answers_directory, answers_emails,
  answers_finance, answers_reference, answers_access, answers_payments, changes_rights, refreshes,
  retries, searches, destroys, finance_answer, change_rights, reload_access, refresh, retry,
  destroy, react, handle, run,
}
use asl_bissieux.Dashboard.Laws.{
  AreRead, IsCurrent, IsOf-IsCurrent, IsCurrent-IsOf, follow_payments-IsCurrent,
  begin_finance-selection, follow-IsCurrent,
}

module _ {U : Type 0} where
  -- The access requests are read anew.
  access_read :
      {alive : Bool} {b : Track Unit (List Budget)} {u : Track Unit (List (Lot (Member U)))}
      {d : Track Unit Quality} {e : Track Unit EmailDashboard} {a a' : Track Unit Access}
      → IsFor tt a'
      → AreRead {U = U} alive b u d e a
      → AreRead {U = U} alive b u d e a'
  access_read h o = record {
    living = o.living;
    budgets_for = o.budgets_for;
    units_for = o.units_for;
    directory_for = o.directory_for;
    emails_for = o.emails_for;
    access_for = h;
  }

module _ {U P : Type 0} where
  finance_answer-IsCurrent :
      (result : Option (Option (Finance U))) (s : Dashboard U P)
      → IsCurrent s
      → IsCurrent (finance_answer result s)
  unfolding finance_answer
  finance_answer-IsCurrent result s c =
      let i = IsCurrent-IsOf s c in
      follow_payments-IsCurrent (record s { finance = answer result s.finance })
        record {
          finance_for = answer-IsFor _ _ _ i.finance_for;
          reference_for = i.reference_for;
          payments_for = i.payments_for;
          access_private = i.access_private;
          others = i.others;
        }

  begin_finance-IsCurrent :
      (s : Dashboard U P) → IsCurrent s → IsCurrent (begin_finance s.selection s)
  unfolding begin_finance
  begin_finance-IsCurrent s c =
      let i = IsCurrent-IsOf s c in
      follow_payments-IsCurrent
        (record s {
          finance =
              begin (wants_finance (finance_key s.selection)) (finance_key s.selection) s.finance;
        })
        record {
          finance_for = begin-IsFor _ _ _;
          reference_for = i.reference_for;
          payments_for = i.payments_for;
          access_private = i.access_private;
          others = i.others;
        }

  begin_reference-IsCurrent :
      (c : Selection) (s : Dashboard U P)
      → c ≡ s.selection
      → IsCurrent s
      → IsCurrent (begin_reference c s)
  unfolding begin_reference payment_key
  begin_reference-IsCurrent c s e i = record {
    finance_current = i.finance_current;
    reference_current =
        subst (λ k. IsFor (reference_key k) (begin_reference c s).reference) e (begin-IsFor _ _ _);
    payments_current = i.payments_current;
    paid_exact = i.paid_exact;
    access_private = i.access_private;
    others = i.others;
  }

  change_rights-IsCurrent :
      (b : Bool) (s : Dashboard U P) → IsCurrent s → IsCurrent (change_rights b s)
  unfolding change_rights payment_key
  change_rights-IsCurrent b s i = elim (Bool-cases (same_right s.rights b)) [
    | inl e ↦ rw e i
    | inr e ↦ rw e record {
      finance_current = i.finance_current;
      reference_current = i.reference_current;
      payments_current = i.payments_current;
      paid_exact = i.paid_exact;
      access_private = begin-unwanted b tt s.access;
      others = access_read (begin-IsFor b tt s.access) i.others;
    }
  ]

  if-IsCurrent :
      (b : Bool) {s t : Dashboard U P}
      → (b ≡ true → IsCurrent s)
      → (b ≡ false → IsCurrent t)
      → IsCurrent (if b then s else t)
  if-IsCurrent true f g = f refl
  if-IsCurrent false f g = g refl

  -- The access requests of an administrator change.
  access-IsCurrent :
      (t : Track Unit Access) (s : Dashboard U P)
      → (s.administrator ≡ false → t ≡ idle)
      → IsFor tt t
      → IsCurrent s
      → IsCurrent (record s { access = t })
  unfolding payment_key
  access-IsCurrent t s h k i = record {
    finance_current = i.finance_current;
    reference_current = i.reference_current;
    payments_current = i.payments_current;
    paid_exact = i.paid_exact;
    access_private = h;
    others = access_read k i.others;
  }

  -- The other parts change.
  other-IsCurrent :
      {p : Params} {cs : List Budget} {m : String} {b : Track Unit (List Budget)}
      {u : Track Unit (List (Lot (Member U)))} {d : Track Unit Quality}
      {e : Track Unit EmailDashboard} {s : Dashboard U P}
      → IsFor tt b
      → IsFor tt u
      → IsFor tt d
      → IsFor tt e
      → IsCurrent s
      → IsCurrent (record s {
        params = p;
        choices = cs;
        map_search = m;
        budgets = b;
        units = u;
        directory = d;
        emails = e;
      })
  unfolding payment_key
  other-IsCurrent hb hu hd he i = record {
    finance_current = i.finance_current;
    reference_current = i.reference_current;
    payments_current = i.payments_current;
    paid_exact = i.paid_exact;
    access_private = i.access_private;
    others = record {
      living = i.others.living;
      budgets_for = hb;
      units_for = hu;
      directory_for = hd;
      emails_for = he;
      access_for = i.others.access_for;
    };
  }

  -- None of those is read anew.
  same-IsCurrent :
      {p : Params} {cs : List Budget} {m : String} {s : Dashboard U P}
      → IsCurrent s
      → IsCurrent (record s { params = p; choices = cs; map_search = m })
  same-IsCurrent i =
      other-IsCurrent i.others.budgets_for i.others.units_for i.others.directory_for
        i.others.emails_for i

  budgets-IsCurrent :
      {cs : List Budget} {b : Track Unit (List Budget)} {s : Dashboard U P}
      → IsFor tt b
      → IsCurrent s
      → IsCurrent (record s { budgets = b; choices = cs })
  budgets-IsCurrent h i =
      other-IsCurrent h i.others.units_for i.others.directory_for i.others.emails_for i

  reload_access-IsCurrent : (s : Dashboard U P) → IsCurrent s → IsCurrent (reload_access s)
  unfolding reload_access
  reload_access-IsCurrent s i =
      if-IsCurrent s.administrator
        (λ e.
          access-IsCurrent (begin true tt s.access) s (λ n. ground arith)
            (begin-IsFor true tt s.access) i)
        (λ e. i)

  refresh-IsCurrent : (s : Dashboard U P) → IsCurrent s → IsCurrent (refresh s)
  unfolding refresh
  refresh-IsCurrent s i =
      let r =
        begin_reference-IsCurrent s.selection _
          (sym
            (begin_finance-selection s.selection (record s { budgets = begin true tt s.budgets })))
          (begin_finance-IsCurrent (record s { budgets = begin true tt s.budgets })
            (budgets-IsCurrent (begin-IsFor true tt s.budgets) i)) in
      reload_access-IsCurrent _ (
        other-IsCurrent r.others.budgets_for (begin-IsFor _ _ _) (begin-IsFor _ _ _)
          (begin-IsFor _ _ _) r)

  retry-IsCurrent : (scope : Scope) (s : Dashboard U P) → IsCurrent s → IsCurrent (retry scope s)
  unfolding retry
  retry-IsCurrent budgets s i = budgets-IsCurrent (begin-IsFor _ _ _) i
  retry-IsCurrent finance s i = begin_finance-IsCurrent s i
  retry-IsCurrent reference s i = begin_reference-IsCurrent s.selection s refl i
  retry-IsCurrent units s i =
      other-IsCurrent i.others.budgets_for (begin-IsFor _ _ _) i.others.directory_for
        i.others.emails_for i
  retry-IsCurrent directory s i =
      other-IsCurrent i.others.budgets_for i.others.units_for (begin-IsFor _ _ _)
        i.others.emails_for i
  retry-IsCurrent emails s i =
      other-IsCurrent i.others.budgets_for i.others.units_for i.others.directory_for
        (begin-IsFor _ _ _) i
  retry-IsCurrent access s i = reload_access-IsCurrent s i
  retry-IsCurrent payments s i =
      let c = IsCurrent-IsOf s i in
      follow_payments-IsCurrent (record s { revision = s.revision + 1 })
        record {
          finance_for = c.finance_for;
          reference_for = c.reference_for;
          payments_for = c.payments_for;
          access_private = c.access_private;
          others = c.others;
        }

  -- The component is destroyed, and nothing that it asked for is in flight.
  pub record IsOver (s : Dashboard U P) : Type 0 where
    pub dead : s.alive ≡ false
    pub no_budgets : s.budgets.asked ≡ none
    pub no_units : s.units.asked ≡ none
    pub no_directory : s.directory.asked ≡ none
    pub no_emails : s.emails.asked ≡ none
    pub no_finance : s.finance.asked ≡ none
    pub no_reference : s.reference.asked ≡ none
    pub no_access : s.access.asked ≡ none
    pub no_payments : s.payments.asked ≡ none

  abbrev pub IsFollowed : Dashboard U P → Type 0
  IsFollowed s = IsCurrent s ⊎ IsOver s

  if-IsFollowed :
      (b : Bool) {s t : Dashboard U P}
      → (b ≡ true → IsFollowed s)
      → (b ≡ false → IsFollowed t)
      → IsFollowed (if b then s else t)
  if-IsFollowed true f g = f refl
  if-IsFollowed false f g = g refl

  destroy-IsOver : (s : Dashboard U P) → IsOver (destroy s)
  unfolding destroy
  destroy-IsOver s = ground arith

  module _ (parse_date : String → Option ℤ) (locale : String → String → ℤ) where
    reselect-IsCurrent :
        (year_now : ℕ) (s : Dashboard U P)
        → IsCurrent s
        → IsCurrent (reselect parse_date locale year_now s)
    unfolding reselect
    reselect-IsCurrent year_now s i = follow-IsCurrent _ s (IsCurrent-IsOf s i)

    budgets_answer-IsCurrent :
        (year_now : ℕ) (result : Option (Option (List Budget))) (s : Dashboard U P)
        → IsCurrent s
        → IsCurrent (budgets_answer parse_date locale year_now result s)
    unfolding budgets_answer
    budgets_answer-IsCurrent year_now none s i =
        budgets-IsCurrent (answer-IsFor _ _ _ i.others.budgets_for) i
    budgets_answer-IsCurrent year_now (some none) s i =
        budgets-IsCurrent (answer-IsFor _ _ _ i.others.budgets_for) i
    budgets_answer-IsCurrent year_now (some (some bs)) s i = by_request s.budgets.asked
      where
        by_request :
            (asked : Option {0} (Unit {0}))
            → IsCurrent (elim asked [
              | none ↦ s
              | some key ↦
                  reselect parse_date locale year_now
                    (record s { budgets = answer (some (some bs)) s.budgets; choices = bs })
            ])
        by_request none = i
        by_request (some key) =
            reselect-IsCurrent year_now _
              (budgets-IsCurrent (answer-IsFor _ _ _ i.others.budgets_for) i)

    react-IsFollowed :
        (e : Event U P) (s : Dashboard U P) → IsCurrent s → IsFollowed (react parse_date locale e s)
    unfolding react payment_key
    react-IsFollowed (changes_address year_now p) s i =
        inl (reselect-IsCurrent year_now _ (same-IsCurrent i))
    react-IsFollowed (answers_budgets year_now result) s i =
        inl (budgets_answer-IsCurrent year_now result s i)
    react-IsFollowed (answers_units result) s i = inl (
        other-IsCurrent i.others.budgets_for (answer-IsFor _ _ _ i.others.units_for)
          i.others.directory_for i.others.emails_for i)
    react-IsFollowed (answers_directory result) s i = inl (
        other-IsCurrent i.others.budgets_for i.others.units_for
          (answer-IsFor _ _ _ i.others.directory_for) i.others.emails_for i)
    react-IsFollowed (answers_emails result) s i = inl (
        other-IsCurrent i.others.budgets_for i.others.units_for i.others.directory_for
          (answer-IsFor _ _ _ i.others.emails_for) i)
    react-IsFollowed (answers_finance result) s i = inl (finance_answer-IsCurrent result s i)
    react-IsFollowed (answers_reference result) s i = inl record {
      finance_current = i.finance_current;
      reference_current = answer-IsFor _ _ _ i.reference_current;
      payments_current = i.payments_current;
      paid_exact = i.paid_exact;
      access_private = i.access_private;
      others = i.others;
    }
    react-IsFollowed (answers_access result) s i = inl (
        access-IsCurrent (answer result s.access) s
          (λ n. ap (answer result) (i.access_private n) ∙ answer-idle result)
          (answer-IsFor _ _ _ i.others.access_for) i)
    react-IsFollowed (answers_payments result) s i = inl record {
      finance_current = i.finance_current;
      reference_current = i.reference_current;
      payments_current = answer-IsFor _ _ _ i.payments_current;
      paid_exact = i.paid_exact;
      access_private = i.access_private;
      others = i.others;
    }
    react-IsFollowed (changes_rights b) s i = inl (change_rights-IsCurrent b s i)
    react-IsFollowed refreshes s i = inl (refresh-IsCurrent s i)
    react-IsFollowed (retries scope) s i = inl (retry-IsCurrent scope s i)
    react-IsFollowed (searches query) s i = inl (same-IsCurrent i)
    react-IsFollowed destroys s i = inr (destroy-IsOver s)

    handle-IsFollowed :
        (e : Event U P) (s : Dashboard U P)
        → IsFollowed s
        → IsFollowed (handle parse_date locale e s)
    unfolding handle
    handle-IsFollowed e s (inl i) = if-IsFollowed s.alive (λ _. react-IsFollowed e s i) (λ _. inl i)
    handle-IsFollowed e s (inr o) =
        if-IsFollowed s.alive (λ h. absurd (ground (arith, o.dead))) (λ _. inr o)

    start-IsCurrent :
        (year_now : ℕ) (p : Params) → IsCurrent (start {U = U} {P = P} parse_date locale year_now p)
    unfolding start payment_key cotisation_id
    start-IsCurrent year_now p =
        let k = finance_key (select parse_date locale year_now p []) in
        IsOf-IsCurrent (start {U = U} {P = P} parse_date locale year_now p)
          record {
            finance_for = begin-IsFor _ _ _;
            reference_for = begin-IsFor _ _ _;
            payments_for = idle-IsFor _;
            access_private = λ n. refl;
            others = record {
              living = refl;
              budgets_for = begin-IsFor _ _ _;
              units_for = begin-IsFor _ _ _;
              directory_for = begin-IsFor _ _ _;
              emails_for = begin-IsFor _ _ _;
              access_for = idle-IsFor _;
            };
          }
          (rw (begin-no_value (wants_finance k) k (idle {T = Finance U})) refl)

    run-IsFollowed :
        (es : List (Event U P)) (s : Dashboard U P)
        → IsFollowed s
        → IsFollowed (run parse_date locale es s)
    unfolding run
    run-IsFollowed [] s i = i
    run-IsFollowed (e ∷ es) s i =
        run-IsFollowed es (handle parse_date locale e s) (handle-IsFollowed e s i)

    -- Whatever the order of addresses, answers, rights, retries, refreshes and searches: until the
    -- component is destroyed, the budget, the reference and the payments that are asked for or on
    -- show are those of the selection (with the cotisation of the selected lot); for these three and
    -- for the budgets, the lots, the directory, the e-mails and the access requests the indicator
    -- stands exactly while a request is in flight, and no value stands beside an error; a user who
    -- is no administrator has no access requests, shown or asked for. Once it is destroyed, no
    -- request is in flight, whatever still arrives.
    pub run-start-IsFollowed :
        (es : List (Event U P)) (year_now : ℕ) (p : Params)
        → IsFollowed (run parse_date locale es (start parse_date locale year_now p))
    run-start-IsFollowed es year_now p = run-IsFollowed es _ (inl (start-IsCurrent year_now p))
