-- ===== src/Users/Laws.antt =====
-- What the decisions on an account send
-- (frontend/src/app/users/components/user-list/user-list.component.ts).
use asl_bissieux.Prelude.{
  ◌≡◌, ◌≢◌, ◌⊎◌, refl, sym, Bool-cases, inl, inr, get_or, Bool, true, false, List, [], ◌∷◌, Option,
  none, some, arith, any, if◌then◌else◌,
}
pub mod Groups
pub mod Saving
use mathlib.Core.Path.{subst}
use asl_bissieux.Prelude.Strings.{String, str_eq, eq_iff}
use asl_bissieux.Users.{User, access_state}
use asl_bissieux.Users.Decisions.{
  Decision, approve, reject, disable, reactivate, Update, Phase, idle, checking, confirming,
  updating, UserList, new, is_status, known_status, change_query, edit, edited, decide, is_expected,
  update_of, answered, checked, closed, updated, destroy, is_offered, refresh,
}

pub data Event : Type 0 where
  queries : Option String → Event
  edits refreshes destroys : Event
  ends_edit : (saved : Bool) → Event
  decides : User → Decision → Event
  checks : Option (Option User) → Event
  closes : (confirm : Bool) → Event
  updates : Option (Option String) → Event

unfoldable pub perform : Event → UserList → UserList
unfolding change_query edit edited refresh decide checked closed updated destroy
perform (queries status) s = change_query status s
perform edits s = edit s
perform refreshes s = refresh s
perform (ends_edit saved) s = edited saved s
perform (decides u d) s = decide u d s
perform (checks answer) s = checked answer s
perform (closes confirm) s = closed confirm s
perform (updates answer) s = updated answer s
perform destroys s = destroy s

unfoldable pub run : List Event → UserList → UserList
unfolding perform
run [] s = s
run (e ∷ es) s = run es (perform e s)

abbrev pub is_running : Phase → Bool
is_running idle = false
is_running (checking id d) = true
is_running (confirming u d) = true
is_running (updating id u) = true

-- The account has the access that the decision is for.
abbrev pub Allows : Decision → User → Type 0
Allows approve u = u.access_status ≡ some "pending"
Allows reject u = u.access_status ≡ some "pending"
Allows disable u =
    (u.access_status ≡ some "active") ⊎ ((u.access_status ≡ none) × (u.enabled ≡ some true))
Allows reactivate u =
    (u.access_status ≡ some "disabled")
    ⊎ ((u.access_status ≡ some "rejected") ⊎ ((u.access_status ≡ none) × (u.enabled ≢ some true)))

-- Whether the decision gives access.
abbrev pub gives : Decision → Bool
gives approve = true
gives reject = false
gives disable = false
gives reactivate = true

-- The update keeps the account as it was read, but for the decision.
pub record IsUpdate (u : User) (d : Decision) (id : Option String) (body : Update) : Type 0 where
  pub same_id : id ≡ u.id
  pub same_name : body.username ≡ u.username
  pub same_admin : body.admin ≡ u.admin
  pub same_actions : body.actions ≡ u.actions
  pub access : body.enabled ≡ gives d
  pub decision : body.access_decision ≡ d
  pub same_date : body.expected_updated_at ≡ u.updated_at

-- What is confirmed, and what is sent, is a decision on an account that was read (`WasRead`) and
-- that has the access for it.
abbrev pub IsDue : (User → Type 0) → Phase → Type 0
IsDue WasRead idle = Unit
IsDue WasRead (checking id d) = Unit
IsDue WasRead (confirming u d) = WasRead u × Allows d u
IsDue WasRead (updating id body) =
    (u : User) × (d : Decision) × WasRead u × Allows d u × IsUpdate u d id body

pub record IsGuarded (WasRead : User → Type 0) (s : UserList) : Type 0 where
  pub status_known : (s.status ≡ "") ⊎ (is_status s.status ≡ true)
  pub source_same : s.source_status ≡ s.status
  pub running_busy : is_running s.phase ≡ true → s.busy ≡ true
  pub busy_running : s.destroyed ≡ false → s.busy ≡ true → is_running s.phase ≡ true
  pub due : IsDue WasRead s.phase

-- The access of an account without a status.
not_pending :
    (enabled : Option Bool)
    → str_eq (if get_or enabled false then "active" else "disabled") "pending" ≡ false
not_pending none = refl
not_pending (some true) = refl
not_pending (some false) = refl

no_pending :
    (enabled : Option Bool)
    → str_eq (if get_or enabled false then "active" else "disabled") "pending" ≡ true
    → ⊥
no_pending enabled h = cc (not_pending enabled)

enabled_of :
    (enabled : Option Bool)
    → str_eq (if get_or enabled false then "active" else "disabled") "active" ≡ true
    → enabled ≡ some true
enabled_of none h = cc
enabled_of (some true) h = refl
enabled_of (some false) h = cc

disabled_of :
    (enabled : Option Bool)
    → any
        (str_eq (if get_or enabled false then "active" else "disabled"))
        ("disabled" ∷ "rejected" ∷ [])
      ≡ true
    → enabled ≢ some true
disabled_of none h = λ e. cc
disabled_of (some true) h = absurd (cc)
disabled_of (some false) h = λ e. cc

is_expected-Allows :
    (d : Decision) (status : Option String) (u : User)
    → u.access_status ≡ status
    → is_expected d u ≡ true
    → Allows d u
unfolding is_expected access_state
is_expected-Allows approve none u e h = absurd (no_pending u.enabled (rw e at h))
is_expected-Allows reject none u e h = absurd (no_pending u.enabled (rw e at h))
is_expected-Allows disable none u e h = inr (e, enabled_of u.enabled (rw e at h))
is_expected-Allows reactivate none u e h = inr (inr (e, disabled_of u.enabled (rw e at h)))
is_expected-Allows approve (some x) u e h = ground (arith, eq_iff x "pending")
is_expected-Allows reject (some x) u e h = ground (arith, eq_iff x "pending")
is_expected-Allows disable (some x) u e h = ground (arith, eq_iff x "active")
is_expected-Allows reactivate (some x) u e h =
    ground (arith, eq_iff x "disabled", eq_iff x "rejected")

is_status-known_status :
    (given : String) → (known_status given ≡ "") ⊎ (is_status (known_status given) ≡ true)
unfolding known_status
is_status-known_status given = elim (Bool-cases (is_status given)) [
  | inl e ↦ rw e (inr e)
  | inr e ↦ rw e (inl refl)
]

-- The accounts that an event reads.
abbrev Reads : Event → User → Type 0
Reads (checks (some (some current))) u = current ≡ u
Reads _ u = ⊥

-- The accounts that a sequence of events reads: the answers to the calls of `getUser`.
abbrev pub ReadIn : List Event → User → Type 0
ReadIn [] u = ⊥
ReadIn (e ∷ es) u = Reads e u ⊎ ReadIn es u

module _ (WasRead : User → Type 0) where
  change_query-IsGuarded :
      (status : Option String) (s : UserList)
      → IsGuarded WasRead s
      → IsGuarded WasRead (change_query status s)
  unfolding change_query
  change_query-IsGuarded status s g = ground (arith, is_status-known_status (get_or status ""))

  edited-IsGuarded :
      (saved : Bool) (s : UserList) → IsGuarded WasRead s → IsGuarded WasRead (edited saved s)
  unfolding edited
  edited-IsGuarded saved s g = ground arith

  decide-IsGuarded :
      (u : User) (d : Decision) (s : UserList)
      → IsGuarded WasRead s
      → IsGuarded WasRead (decide u d s)
  unfolding decide
  decide-IsGuarded u d s g = ground arith

  answered-due :
      (answer : Option (Option User)) (d : Decision) (s : UserList)
      → ((u : User) → answer ≡ some (some u) → WasRead u)
      → IsDue WasRead (answered answer d s).phase
  unfolding refresh
  answered-due none d s k = tt
  answered-due (some none) d s k = tt
  answered-due (some (some u)) d s k = elim (Bool-cases (is_expected d u)) [
    | inl e ↦ rw e (k u refl, is_expected-Allows d u.access_status u refl e)
    | inr e ↦ rw e tt
  ]

  checked-due :
      (answer : Option (Option User)) (s : UserList) (p : Phase)
      → s.phase ≡ p
      → ((u : User) → answer ≡ some (some u) → WasRead u)
      → IsDue WasRead p
      → IsDue WasRead (checked answer s).phase
  unfolding checked
  checked-due answer s idle e k d = rw (e, checked) (subst (IsDue WasRead) (sym e) d)
  checked-due answer s (checking id v) e k d = rw (e, checked) (answered-due answer v s k)
  checked-due answer s (confirming u v) e k d = rw (e, checked) (subst (IsDue WasRead) (sym e) d)
  checked-due answer s (updating id b) e k d = rw (e, checked) (subst (IsDue WasRead) (sym e) d)

  checked-IsGuarded :
      (answer : Option (Option User)) (s : UserList)
      → ((u : User) → answer ≡ some (some u) → WasRead u)
      → IsGuarded WasRead s
      → IsGuarded WasRead (checked answer s)
  unfolding checked
  checked-IsGuarded answer s k g = record {
    status_known = ground arith;
    source_same = ground arith;
    running_busy = ground arith;
    busy_running = ground arith;
    due = checked-due answer s s.phase refl k g.due;
  }

  update_of-IsUpdate : (u : User) (d : Decision) → IsUpdate u d u.id (update_of u d)
  unfolding update_of
  update_of-IsUpdate u approve = ground arith
  update_of-IsUpdate u reject = ground arith
  update_of-IsUpdate u disable = ground arith
  update_of-IsUpdate u reactivate = ground arith

  closed-due :
      (confirm : Bool) (s : UserList) (p : Phase)
      → s.phase ≡ p
      → IsDue WasRead p
      → IsDue WasRead (closed confirm s).phase
  unfolding closed
  closed-due confirm s idle e d = rw (e, closed) (subst (IsDue WasRead) (sym e) d)
  closed-due confirm s (checking id v) e d = rw (e, closed) (subst (IsDue WasRead) (sym e) d)
  closed-due true s (confirming u v) e d = rw (e, closed) (u, v, d.0, d.1, update_of-IsUpdate u v)
  closed-due false s (confirming u v) e d = rw (e, closed) tt
  closed-due confirm s (updating id b) e d = rw (e, closed) (subst (IsDue WasRead) (sym e) d)

  closed-IsGuarded :
      (confirm : Bool) (s : UserList) → IsGuarded WasRead s → IsGuarded WasRead (closed confirm s)
  unfolding closed
  closed-IsGuarded confirm s g = record {
    status_known = ground arith;
    source_same = ground arith;
    running_busy = ground arith;
    busy_running = ground arith;
    due = closed-due confirm s s.phase refl g.due;
  }

  updated-IsGuarded :
      (answer : Option (Option String)) (s : UserList)
      → IsGuarded WasRead s
      → IsGuarded WasRead (updated answer s)
  unfolding updated
  updated-IsGuarded answer s g = ground arith

  perform-IsGuarded :
      (e : Event) (s : UserList)
      → ((u : User) → Reads e u → WasRead u)
      → IsGuarded WasRead s
      → IsGuarded WasRead (perform e s)
  unfolding perform edit refresh destroy
  perform-IsGuarded (queries status) s k g = change_query-IsGuarded status s g
  perform-IsGuarded edits s k g = ground arith
  perform-IsGuarded refreshes s k g = ground arith
  perform-IsGuarded (ends_edit saved) s k g = edited-IsGuarded saved s g
  perform-IsGuarded (decides u d) s k g = decide-IsGuarded u d s g
  perform-IsGuarded (checks none) s k g = checked-IsGuarded none s (λ u e. cc) g
  perform-IsGuarded (checks (some none)) s k g = checked-IsGuarded (some none) s (λ u e. cc) g
  perform-IsGuarded (checks (some (some v))) s k g =
      checked-IsGuarded (some (some v)) s (λ u e. k u (cc)) g
  perform-IsGuarded (closes confirm) s k g = closed-IsGuarded confirm s g
  perform-IsGuarded (updates answer) s k g = updated-IsGuarded answer s g
  perform-IsGuarded destroys s k g = ground arith

  run-IsGuarded :
      (es : List Event) (s : UserList)
      → ((u : User) → ReadIn es u → WasRead u)
      → IsGuarded WasRead s
      → IsGuarded WasRead (run es s)
  unfolding run
  run-IsGuarded [] s k g = g
  run-IsGuarded (e ∷ es) s k g =
      run-IsGuarded es (perform e s) (λ u r. k u (inr r))
        (perform-IsGuarded e s (λ u r. k u (inl r)) g)

  new-IsGuarded : IsGuarded WasRead new
  unfolding new
  new-IsGuarded = ground arith

-- After any order of addresses, clicks, closed dialogs and answers: an update of an account is under
-- way or waits for its confirmation only for an account that `getUser` has answered, of which the
-- access was then the one that the decision is for, and the update changes nothing of it but the
-- access, under the date that was read; the list is busy while a decision runs and, until it is
-- destroyed, only then; and the status by which it filters is a known one or none, in the source too.
pub run-new-IsGuarded : (es : List Event) → IsGuarded (ReadIn es) (run es new)
run-new-IsGuarded es = run-IsGuarded (ReadIn es) es new (λ u r. r) (new-IsGuarded (ReadIn es))

-- A decision is offered in the menu of a row exactly where the check before its confirmation would
-- let it through.
pub is_offered-is_expected : (d : Decision) (u : User) → is_offered d u ≡ is_expected d u
unfolding is_offered is_expected
is_offered-is_expected approve u = refl
is_offered-is_expected reject u = refl
is_offered-is_expected disable u = refl
is_offered-is_expected reactivate u = refl
