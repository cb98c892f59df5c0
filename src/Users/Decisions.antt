-- ===== src/Users/Decisions.antt =====
-- frontend/src/app/users/components/user-list/user-list.component.ts: the accounts, and the
-- decisions on their access.
-- The parameters of the address, the answers and the closings of dialogs are events. `phase` is the
-- subscription of `decide` that runs; `forms` counts the forms that are open, `loads` and `sessions`
-- the calls of `datasource.load` and of `auth.refresh`.
use asl_bissieux.Prelude.{
  ℕ, ◌+◌, ◌-◌, Bool, true, false, ◌||◌, not, List, [], ◌∷◌, Option, none, some, if◌then◌else◌, ◌==◌,
  any, get_or,
}
use asl_bissieux.Prelude.Strings.{String, str_eq}
use asl_bissieux.Prelude.Text.{has_text}
use asl_bissieux.Users.{User, access_state}

pub data Decision : Type 0 where
  approve reject disable reactivate : Decision

-- The messages, by what they say.
pub data Notice : Type 0 where
  rights_saved : Notice
  decided : Decision → (username : Option String) → Notice

pub data Problem : Type 0 where
  changed not_checked not_modified : Problem
  refused : String → Problem

-- `UpdateUserInput`, as `decide` builds it.
pub record Update : Type 0 where
  pub username : Option String
  pub enabled : Bool
  pub admin : Option Bool
  pub actions : Option (List String)
  pub access_decision : Decision
  pub expected_updated_at : Option String

-- The call of `getUser`, the confirmation and the call of `updateUser`.
pub data Phase : Type 0 where
  idle : Phase
  checking : (id : String) → Decision → Phase
  confirming : User → Decision → Phase
  updating : (id : Option String) → Update → Phase

pub record UserList : Type 0 where
  pub status : String
  -- `datasource.status`
  pub source_status : String
  pub busy : Bool
  pub message : Option Notice
  pub error : Option Problem
  pub destroyed : Bool
  pub phase : Phase
  pub forms : ℕ
  pub loads : ℕ
  pub sessions : ℕ

unfoldable pub new : UserList
new = record {
  status = "";
  source_status = "";
  busy = false;
  message = none;
  error = none;
  destroyed = false;
  phase = idle;
  forms = 0;
  loads = 0;
  sessions = 0;
}

unfoldable pub refresh : UserList → UserList
refresh s = record s { loads = s.loads + 1 }

unfoldable pub refresh_session : UserList → UserList
refresh_session s = record s { sessions = s.sessions + 1 }

unfoldable pub is_status : String → Bool
is_status status = any (str_eq status) ("active" ∷ "pending" ∷ "rejected" ∷ "disabled" ∷ [])

-- The status that is kept of the parameter.
unfoldable pub known_status : String → String
unfolding is_status
known_status given = if is_status given then given else ""

-- The subscriber of `queryParamMap`, of which only `status` is read.
unfoldable pub change_query : Option String → UserList → UserList
unfolding refresh known_status
change_query param s =
    let status = known_status (get_or param "") in
    if s.destroyed then s else refresh (record s { status = status; source_status = status })

-- `filter`: the parameter that the router is asked to go to, where it is asked.
unfoldable pub filter : String → UserList → Option (Option String)
filter status s = if s.busy then none else some (if str_eq status "" then none else some status)

-- `edit`, up to the dialog
unfoldable pub edit : UserList → UserList
edit s = if s.busy then s else record s { forms = s.forms + 1 }

-- What `edit` does after the dialog.
unfoldable pub edited : (saved : Bool) → UserList → UserList
unfolding refresh refresh_session
edited saved s =
    if s.forms == 0
    then s
    else (let t = refresh (record s { forms = s.forms - 1 }) in
        if saved then refresh_session (record t { message = some rights_saved }) else t)

-- `decide`, up to the answer of `getUser`
unfoldable pub decide : User → Decision → UserList → UserList
decide u d s =
    if s.busy || not (has_text u.id)
    then s
    else record s { busy = true; error = none; message = none; phase = checking (get_or u.id "") d }

-- `expected`
abbrev pub expected : Decision → Option String
expected approve = some "pending"
expected reject = some "pending"
expected disable = some "active"
expected reactivate = none

-- The account is still in a state that the decision is for.
unfoldable pub is_expected : Decision → User → Bool
unfolding access_state
is_expected d current = elim (expected d) [
  | some state ↦ str_eq (access_state current) state
  | none ↦ any (str_eq (access_state current)) ("disabled" ∷ "rejected" ∷ [])
]

abbrev pub grants : Decision → Bool
grants approve = true
grants reactivate = true
grants reject = false
grants disable = false

-- The body of `updateUser`.
unfoldable pub update_of : User → Decision → Update
update_of current d = record {
  username = current.username;
  enabled = grants d;
  admin = current.admin;
  actions = current.actions;
  access_decision = d;
  expected_updated_at = current.updated_at;
}

-- The answer of `getUser`: `none` is a failure, `some none` is null.
abbrev pub answered : Option (Option User) → Decision → UserList → UserList
answered none d s = record s { busy = false; error = some not_checked; phase = idle }
answered (some none) d s = record s { busy = false; phase = idle }
answered (some (some current)) d s =
    if is_expected d current
    then record s { phase = confirming current d }
    else refresh (record s { busy = false; error = some changed; phase = idle })

unfoldable pub checked : Option (Option User) → UserList → UserList
unfolding is_expected refresh
checked answer s = elim s.phase [ checking id d ↦ answered answer d s | _ ↦ s ]

-- The confirmation is closed.
unfoldable pub closed : (confirm : Bool) → UserList → UserList
unfolding update_of
closed confirm s = elim s.phase [
  | confirming current d ↦
      if confirm
      then record s { phase = updating current.id (update_of current d) }
      else record s { busy = false; phase = idle }
  | _ ↦ s
]

-- The answer of `updateUser`: `none` is a success, else the message of the error if it has one.
unfoldable pub updated : Option (Option String) → UserList → UserList
unfolding refresh refresh_session
updated answer s = elim s.phase [
  | updating id u ↦ elim answer [
    | none ↦
        let notice = decided u.access_decision u.username in
        refresh_session (refresh (record s { busy = false; message = some notice; phase = idle }))
    | some none ↦ refresh (record s { busy = false; error = some not_modified; phase = idle })
    | some (some text) ↦
        refresh (record s { busy = false; error = some (refused text); phase = idle })
  ]
  | _ ↦ s
]

-- `ngOnDestroy`: what was subscribed ends; once `destroy$` has completed it ends nothing more.
unfoldable pub destroy : UserList → UserList
destroy s = if s.destroyed then s else record s { destroyed = true; phase = idle; forms = 0 }

-- The conditions of the row actions.
unfoldable pub is_offered : Decision → User → Bool
unfolding access_state
is_offered approve u = str_eq (access_state u) "pending"
is_offered reject u = str_eq (access_state u) "pending"
is_offered disable u = str_eq (access_state u) "active"
is_offered reactivate u = any (str_eq (access_state u)) ("disabled" ∷ "rejected" ∷ [])
