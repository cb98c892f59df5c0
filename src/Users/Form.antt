-- ===== src/Users/Form.antt =====
-- frontend/src/app/users/components/user-form/user-form.component.ts: the dialog in which the rights
-- of an account are edited.
-- `units` counts the code units of a text, `locale` is `localeCompare` in French. `fetches` counts the
-- calls of `listActions` in flight, `request` is what is being saved.
use asl_bissieux.Prelude.{
  ℕ, ◌+◌, ◌-◌, Bool, true, false, ◌||◌, List, [], ◌∷◌, ◌++◌, map, Option, none, some, if◌then◌else◌,
  ◌==◌, get_or, is_some, ltb,
}
use asl_bissieux.Prelude.Int.{ℤ}
use asl_bissieux.Prelude.Strings.{String, str_eq}
use asl_bissieux.Prelude.Text.{trim}
use asl_bissieux.Sorting.{sort_by}
use asl_bissieux.Users.{User, permission_label, permission_group, distinct}

pub record Group : Type 0 where
  pub label : String
  pub actions : List String

-- `groups.set(group, [...(groups.get(group) ?? []), action])`: a `Map` keeps the order of insertion.
unfoldable pub put_action : (label action : String) → List Group → List Group
put_action label action [] = record { label = label; actions = action ∷ [] } ∷ []
put_action label action (g ∷ gs) =
    let rest = put_action label action gs in
    if str_eq g.label label then record g { actions = g.actions ++ action ∷ [] } ∷ gs else g ∷ rest

-- The loop over all the actions.
unfoldable pub put_actions : List String → List Group → List Group
unfolding put_action
put_actions [] gs = gs
put_actions (a ∷ as_) gs = put_actions as_ (put_action (permission_group a) a gs)

-- `form.getRawValue()`
pub record Values : Type 0 where
  pub username : String
  pub admin : Bool
  pub actions : List String

-- `UpdateUserInput`, as `submit` builds it.
pub record Body : Type 0 where
  pub username : String
  pub enabled : Bool
  pub admin : Bool
  pub actions : List String
  pub expected_updated_at : Option String

pub data Saved : Type 0 where
  create : Body → Saved
  update : (id : String) → Body → Saved

pub data Problem : Type 0 where
  not_saved : Problem
  refused : String → Problem

pub record UserForm : Type 0 where
  pub values : Values
  -- The error that `setErrors` puts on the name, and `markAllAsTouched`.
  pub blank : Bool
  pub touched : Bool
  pub disabled : Bool
  pub groups : List Group
  pub loading_actions : Bool
  pub actions_error : Bool
  pub saving : Bool
  pub error : Option Problem
  -- What the dialog was closed with.
  pub closed : Option Bool
  pub destroyed : Bool
  pub fetches : ℕ
  pub request : Option Saved

module _ (units : String → ℕ) (locale : String → String → ℤ) (user : Option User) where
  abbrev of_user : {A : Type 0} → (User → Option A) → Option A
  of_user f = elim user [ none ↦ none | some u ↦ f u ]

  -- `actions.sort(…)` in each group.
  unfoldable pub sort_actions : Group → Group
  unfolding permission_label
  sort_actions g = record g {
    actions = sort_by (λ a b. locale (permission_label a) (permission_label b)) g.actions;
  }

  -- The groups that an answer of `listActions` gives.
  unfoldable pub groups_of : List String → List Group
  unfolding distinct put_actions sort_actions
  groups_of actions =
      map sort_actions (put_actions (distinct (actions ++ get_or (of_user (λ u. u.actions)) [])) [])

  -- `loadActions`
  unfoldable pub load_actions : UserForm → UserForm
  load_actions s =
      if s.saving
      then s
      else record s { loading_actions = true; actions_error = false; fetches = s.fetches + 1 }

  -- The constructor, then `ngOnInit`.
  unfoldable pub open_form : UserForm
  unfolding load_actions
  open_form = load_actions (record {
    values = record {
      username = get_or (of_user (λ u. u.username)) "";
      admin = get_or (of_user (λ u. u.admin)) false;
      actions = get_or (of_user (λ u. u.actions)) [];
    };
    blank = false;
    touched = false;
    disabled = false;
    groups = [];
    loading_actions = true;
    actions_error = false;
    saving = false;
    error = none;
    closed = none;
    destroyed = false;
    fetches = 0;
    request = none;
  })

  -- The answer of a call of `listActions`: `none` is a failure.
  unfoldable pub actions_loaded : Option (List String) → UserForm → UserForm
  unfolding groups_of
  actions_loaded answer s =
      if s.fetches == 0
      then s
      else (let t = record s { fetches = s.fetches - 1; loading_actions = false } in
          elim answer [
            | none ↦ record t { actions_error = true }
            | some actions ↦ record t { groups = groups_of actions }
          ])

  -- The user types: a change validates the form again. A disabled form takes no change.
  unfoldable pub edit : Values → UserForm → UserForm
  edit values s = if s.disabled then s else record s { values = values; blank = false }

  unfoldable pub cancel : UserForm → UserForm
  cancel s = if s.saving then s else record s { closed = some false }

  -- `form.invalid`: the name is required and has 320 code units at most. A disabled form is not
  -- invalid.
  unfoldable pub invalid : UserForm → Bool
  invalid s =
      if s.disabled
      then false
      else str_eq s.values.username "" || (ltb 320 (units s.values.username) || s.blank)

  unfoldable pub body_of : Values → Body
  unfolding trim
  body_of v = record {
    username = trim v.username;
    enabled = get_or (of_user (λ u. u.enabled)) false;
    admin = v.admin;
    actions = v.actions;
    expected_updated_at = of_user (λ u. u.updated_at);
  }

  unfoldable pub request_of : Body → Saved
  request_of body = elim (of_user (λ u. u.id)) [
    | none ↦ create body
    | some id ↦ if str_eq id "" then create body else update id body
  ]

  -- `submit` of a valid form
  unfoldable pub save : Body → UserForm → UserForm
  unfolding request_of
  save body s = if str_eq body.username "" then record s { blank = true } else record s {
    saving = true;
    error = none;
    disabled = true;
    request = some (request_of body);
  }

  -- `submit`
  unfoldable pub submit : UserForm → UserForm
  unfolding invalid body_of save
  submit s =
      if s.saving || (s.loading_actions || s.actions_error)
      then s
      else if invalid s
      then record s { touched = true }
      else save (body_of s.values) s

  -- The answer of the request: `none` is a success, else the message of the error if it has one.
  -- `form.enable()` validates the form again.
  unfoldable pub saved : Option (Option String) → UserForm → UserForm
  saved answer s =
      if is_some s.request
      then elim answer [
        | none ↦ record s { closed = some true; request = none }
        | some none ↦ record s {
          saving = false;
          disabled = false;
          blank = false;
          error = some not_saved;
          request = none;
        }
        | some (some text) ↦ record s {
          saving = false;
          disabled = false;
          blank = false;
          error = some (refused text);
          request = none;
        }
      ]
      else s

  -- `ngOnDestroy`: once `destroy$` has completed it ends nothing more.
  unfoldable pub destroy : UserForm → UserForm
  destroy s = if s.destroyed then s else record s { destroyed = true; fetches = 0; request = none }
