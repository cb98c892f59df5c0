-- ===== src/Users/Laws/Saving.antt =====
-- What the form of an account saves
-- (frontend/src/app/users/components/user-form/user-form.component.ts).
use asl_bissieux.Prelude.{
  ◌≡◌, refl, ap, ◌∙◌, Bool-cases, inl, inr, Bool, true, false, ◌||◌, List, [], ◌∷◌, Option, none,
  some, arith, is_some, ℕ,
}
use asl_bissieux.Prelude.Int.{ℤ}
use asl_bissieux.Prelude.Strings.{String, str_eq}
use asl_bissieux.Users.{User}
use asl_bissieux.Users.Form.{
  Values, Body, Saved, create, update, UserForm, load_actions, open_form, actions_loaded, edit,
  cancel, submit, saved, destroy, save, body_of, request_of,
}

pub data Event : Type 0 where
  loads cancels submits destroys : Event
  receives : Option (List String) → Event
  edits : Values → Event
  answers : Option (Option String) → Event

abbrev pub body_in : Saved → Body
body_in (create b) = b
body_in (update id b) = b

-- What is saved has a name, and is of the account of the dialog where that has an identifier.
abbrev pub IsSavable : Option Saved → Type 0
IsSavable none = Unit
IsSavable (some r) = str_eq (body_in r).username "" ≡ false

abbrev pub is_true : Option Bool → Bool
is_true none = false
is_true (some b) = b

pub record IsLocked (s : UserForm) : Type 0 where
  pub saving_exact : s.destroyed ≡ false → s.saving ≡ is_some s.request || is_true s.closed
  pub saving_open : s.destroyed ≡ false → is_some s.request ≡ true → is_true s.closed ≡ false
  pub disabled_exact : s.disabled ≡ s.saving
  pub savable : IsSavable s.request

body_in-request_of :
    (units : String → ℕ) (locale : String → String → ℤ) (user : Option User) (b : Body)
    → body_in (request_of units locale user b) ≡ b
unfolding request_of
body_in-request_of units locale none b = refl
body_in-request_of units locale (some u) b = ground arith

module _ (units : String → ℕ) (locale : String → String → ℤ) (user : Option User) where
  unfoldable pub perform : Event → UserForm → UserForm
  unfolding load_actions actions_loaded edit cancel submit saved destroy
  perform loads s = load_actions units locale user s
  perform (receives answer) s = actions_loaded units locale user answer s
  perform (edits values) s = edit units locale user values s
  perform cancels s = cancel units locale user s
  perform submits s = submit units locale user s
  perform (answers answer) s = saved units locale user answer s
  perform destroys s = destroy units locale user s

  unfoldable pub run : List Event → UserForm → UserForm
  unfolding perform
  run [] s = s
  run (e ∷ es) s = run es (perform e s)

  save-IsLocked :
      (b : Body) (s : UserForm)
      → s.saving ≡ false
      → IsLocked s
      → IsLocked (save units locale user b s)
  unfolding save
  save-IsLocked b s e l =
      let kept = body_in-request_of units locale user b in
      elim (Bool-cases (str_eq b.username "")) [
        | inl h ↦
            rw (h, save)
              (record {
                saving_exact = l.saving_exact;
                saving_open = l.saving_open;
                disabled_exact = l.disabled_exact;
                savable = l.savable;
              })
        | inr h ↦
            rw (h, save)
              (record {
                saving_exact = λ d. refl;
                saving_open = λ d r. ground (arith, l.saving_exact d);
                disabled_exact = refl;
                savable = ap (λ c. str_eq c.username "") kept ∙ h;
              })
      ]

  submit-IsLocked : (s : UserForm) → IsLocked s → IsLocked (submit units locale user s)
  unfolding submit
  submit-IsLocked s l = elim (Bool-cases s.saving) [
    | inl e ↦ ground arith
    | inr e ↦ ground (arith, save-IsLocked (body_of units locale user s.values) s e l)
  ]

  perform-IsLocked : (e : Event) (s : UserForm) → IsLocked s → IsLocked (perform e s)
  unfolding perform load_actions edit cancel
  perform-IsLocked loads s l = ground arith
  perform-IsLocked (receives answer) s l = ground arith
  perform-IsLocked (edits values) s l = ground arith
  perform-IsLocked cancels s l = ground arith
  perform-IsLocked submits s l = submit-IsLocked s l
  perform-IsLocked (answers answer) s l = ground arith
  perform-IsLocked destroys s l = ground arith

  run-IsLocked : (es : List Event) (s : UserForm) → IsLocked s → IsLocked (run es s)
  unfolding run
  run-IsLocked [] s l = l
  run-IsLocked (e ∷ es) s l = run-IsLocked es (perform e s) (perform-IsLocked e s l)

  -- After any order of loads, edits, clicks and answers: until the dialog is destroyed, the form
  -- says that it saves exactly while a request runs or once it was closed with success, never both;
  -- it is locked exactly while it says so; and what is being saved has a name.
  pub run-open_form-IsLocked : (es : List Event) → IsLocked (run es (open_form units locale user))
  unfolding open_form load_actions
  run-open_form-IsLocked es = run-IsLocked es (open_form units locale user) (ground arith)
