-- ===== src/Dashboard/Events.antt =====
-- What happens to the dashboard after its start (frontend/src/app/dashboard/dashboard.component.ts):
-- the addresses, the answers, the rights, the calls of `refresh` and `retry`, and the end of the
-- component. A result is `none` for a failure and `some none` for null.
use asl_bissieux.Prelude.{
  ℕ, ◌+◌, Bool, true, false, not, List, [], ◌∷◌, Option, none, some, if◌then◌else◌,
}
use asl_bissieux.Prelude.Int.{ℤ}
use asl_bissieux.Prelude.Strings.{String}
use asl_bissieux.Directory.{Member, Lot}
use asl_bissieux.Dashboard.Stream.{begin, answer, leave}
use asl_bissieux.Dashboard.Choice.{Budget, Params}
use asl_bissieux.Dashboard.{
  Finance, Quality, EmailDashboard, Access, Dashboard, follow_payments, begin_finance,
  begin_reference, reselect, budgets_answer,
}

-- The parameter of `retry`.
pub data Scope : Type 0 where
  budgets finance reference units directory emails access payments : Scope

pub data Event (U P : Type 0) : Type 0 where
  changes_address : (year_now : ℕ) (p : Params) → Event U P
  answers_budgets : (year_now : ℕ) (result : Option (Option (List Budget))) → Event U P
  answers_units : Option (Option (List (Lot (Member U)))) → Event U P
  answers_directory : Option (Option Quality) → Event U P
  answers_emails : Option (Option EmailDashboard) → Event U P
  answers_finance : Option (Option (Finance U)) → Event U P
  answers_reference : Option (Option Budget) → Event U P
  answers_access : Option (Option Access) → Event U P
  answers_payments : Option (Option (List P)) → Event U P
  changes_rights : Bool → Event U P
  refreshes : Event U P
  retries : Scope → Event U P
  searches : String → Event U P
  destroys : Event U P

abbrev pub same_right : Option Bool → Bool → Bool
same_right none b = false
same_right (some true) b = b
same_right (some false) b = not b

module _ {U P : Type 0} where
  -- `financeData$` emits the answer.
  unfoldable pub finance_answer : Option (Option (Finance U)) → Dashboard U P → Dashboard U P
  unfolding follow_payments
  finance_answer result s = follow_payments (record s { finance = answer result s.finance })

  -- `administrator$` announces a value: the pending requests are read for an administrator.
  unfoldable pub change_rights : Bool → Dashboard U P → Dashboard U P
  change_rights b s =
      if same_right s.rights b
      then s
      else record s { rights = some b; administrator = b; access = begin b tt s.access }

  -- `reloadAccess$` has a subscriber while the user is an administrator.
  unfoldable pub reload_access : Dashboard U P → Dashboard U P
  reload_access s = if s.administrator then record s { access = begin true tt s.access } else s

  -- `refresh`, less the payments, which follow the budget.
  unfoldable pub refresh : Dashboard U P → Dashboard U P
  unfolding begin_finance begin_reference reload_access
  refresh s =
      let t =
        begin_reference s.selection
          (begin_finance s.selection (record s { budgets = begin true tt s.budgets })) in
      reload_access (record t {
        units = begin true tt t.units;
        directory = begin true tt t.directory;
        emails = begin true tt t.emails;
      })

  unfoldable pub retry : Scope → Dashboard U P → Dashboard U P
  unfolding begin_finance begin_reference reload_access follow_payments
  retry budgets s = record s { budgets = begin true tt s.budgets }
  retry finance s = begin_finance s.selection s
  retry reference s = begin_reference s.selection s
  retry units s = record s { units = begin true tt s.units }
  retry directory s = record s { directory = begin true tt s.directory }
  retry emails s = record s { emails = begin true tt s.emails }
  retry access s = reload_access s
  retry payments s = follow_payments (record s { revision = s.revision + 1 })

  -- `destroy$` emits: every stream ends.
  unfoldable pub destroy : Dashboard U P → Dashboard U P
  unfolding leave
  destroy s = record s {
    budgets = leave s.budgets;
    units = leave s.units;
    directory = leave s.directory;
    emails = leave s.emails;
    finance = leave s.finance;
    reference = leave s.reference;
    access = leave s.access;
    payments = leave s.payments;
    alive = false;
  }

  module _ (parse_date : String → Option ℤ) (locale : String → String → ℤ) where
    -- One event of a component that is not destroyed.
    unfoldable pub react : Event U P → Dashboard U P → Dashboard U P
    unfolding reselect budgets_answer finance_answer change_rights refresh retry destroy
    react (changes_address year_now p) s =
        reselect parse_date locale year_now (record s { params = p })
    react (answers_budgets year_now result) s = budgets_answer parse_date locale year_now result s
    react (answers_units result) s = record s { units = answer result s.units }
    react (answers_directory result) s = record s { directory = answer result s.directory }
    react (answers_emails result) s = record s { emails = answer result s.emails }
    react (answers_finance result) s = finance_answer result s
    react (answers_reference result) s = record s { reference = answer result s.reference }
    react (answers_access result) s = record s { access = answer result s.access }
    react (answers_payments result) s = record s { payments = answer result s.payments }
    react (changes_rights b) s = change_rights b s
    react refreshes s = refresh s
    react (retries scope) s = retry scope s
    react (searches query) s = record s { map_search = query }
    react destroys s = destroy s

    -- `takeUntil(this.destroy$)`
    unfoldable pub handle : Event U P → Dashboard U P → Dashboard U P
    unfolding react
    handle e s = if s.alive then react e s else s

    unfoldable pub run : List (Event U P) → Dashboard U P → Dashboard U P
    run [] s = s
    run (e ∷ es) s = run es (handle e s)
