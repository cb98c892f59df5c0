-- ===== src/Budgets/Message/Errors.antt =====
-- `describeError` of
-- frontend/src/app/budgets/components/budget-email-form/budget-email-form.component.ts.
-- `contains` is `includes` of a text, `missing_key` what the regular expression finds in one.
use asl_bissieux.Prelude.{
  ℕ, ◌≡◌, Bool, true, false, ◌&&◌, ◌||◌, Option, none, some, arith, if◌then◌else◌, ◌==◌, get_or,
}
use asl_bissieux.Prelude.Strings.{String}

pub data Operation : Type 0 where
  previewing_message creating_emails : Operation

-- The messages, by what they say.
pub data Problem : Type 0 where
  correct_data out_of_date incomplete : Problem
  check_campaigns session_over not_allowed gone recipient_gone : Problem
  missing_value : String → Problem
  bad_values try_again : Operation → Problem

-- `APIError`
pub record Failure : Type 0 where
  pub status : ℕ
  pub message : Option String

abbrev pub is_creation : Operation → Bool
is_creation previewing_message = false
is_creation creating_emails = true

module _ (contains : String → String → Bool) (missing_key : String → Option String) where
  -- The tests on the text of the server.
  abbrev pub describe_message : String → ℕ → Operation → Problem
  describe_message message status operation =
      if contains message "ne fait pas partie des destinataires sélectionnés"
        || contains message "n’a pas d’adresse e-mail"
      then recipient_gone
      else elim (missing_key message) [
        | some key ↦ missing_value key
        | none ↦ if status == 400 then bad_values operation else try_again operation
      ]

  unfoldable pub describe_error : Failure → Operation → Problem
  describe_error failure operation =
      if is_creation operation && (failure.status == 0)
      then check_campaigns
      else if failure.status == 401
      then session_over
      else if failure.status == 403
      then not_allowed
      else if failure.status == 404
      then gone
      else describe_message (get_or failure.message "") failure.status operation

  -- The warning to check the campaigns before another attempt is shown exactly for a creation whose
  -- answer was not received: whether the e-mails were created is then unknown.
  pub describe_error-check_campaigns :
      (failure : Failure) (operation : Operation)
      → (describe_error failure operation ≡ check_campaigns)
      → (operation ≡ creating_emails) × (failure.status ≡ 0)
  unfolding describe_error
  describe_error-check_campaigns failure operation h = ground arith
