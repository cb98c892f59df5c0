-- ===== src/Budgets/Message.antt =====
-- frontend/src/app/budgets/components/budget-email-form/budget-email-form.component.ts: the e-mails
-- of a budget are prepared on a form, previewed for one recipient, then created.
-- The answers of the API are events; `takeUntil(destroyed$)` drops them once the dialog is gone.
-- The three validity flags are what Angular keeps of the validators' last run. `previewed` marks the
-- request that `preview_result` answers: no decision reads it.
pub mod Errors
pub mod Laws
use asl_bissieux.Prelude.{
  ℕ, ◌+◌, Bool, true, false, ◌&&◌, ◌||◌, not, List, [], ◌∷◌, Option, none, some, if◌then◌else◌,
  ◌==◌, any, find?, get_or, is_some, length, ltb,
}
use asl_bissieux.Prelude.Int.{ℤ}
use asl_bissieux.Prelude.Strings.{String, str_eq}
use asl_bissieux.Editor.Values.{
  Value, JsonText, Suggestion, Parsed, object, fails, parse_members, validate_template_values,
}
use asl_bissieux.Budgets.Recipients.{Due, Recipient, collect, missing_of, recipients_of}
use Errors.{
  Problem, Operation, previewing_message, creating_emails, Failure, describe_error, correct_data,
  out_of_date, incomplete,
}

-- `ModelsEmailTemplate`
pub record Template : Type 0 where
  pub id : Option String
  pub fields : List Suggestion

-- `ModelsBuiltEmail`
pub record Built : Type 0 where
  pub subject : Option String
  pub message : Option String

pub record Form : Type 0 where
  pub template : String
  pub values : String
  pub to_doing : Bool
  pub to_paid : Bool
  pub preview_member : String

pub data LoadError : Type 0 where
  no_budget not_loaded : LoadError

abbrev pub same_id : String → Option String → Bool
same_id id none = false
same_id id (some own) = str_eq own id

abbrev pub is_revision : Option ℕ → ℕ → Bool
is_revision none revision = false
is_revision (some r) revision = r == revision

abbrev pub is_complete : Option Built → Bool
is_complete none = false
is_complete (some b) = is_some b.subject && is_some b.message

-- What the form uses of the browser: JSON, `localeCompare`, `includes` and a regular expression. `U` is
-- what a member lists as lots.
pub record Platform : Type 1 where
  pub json : JsonText
  pub U : Type 0
  pub locale : String → String → ℤ
  pub contains : String → String → Bool
  pub missing_key : String → Option String

module _ (P : Platform) where
  open P use {json, U, locale, contains, missing_key}
  open json use {Number, Nested}

  -- What `payload` returns.
  pub record Payload : Type 0 where
    pub template_id : String
    pub values : List (String × Value Number Nested)
    pub send_to_doing : Bool
    pub send_to_paid : Bool

  -- `previewBudgetEmail` with a payload and a member, under the revision of its start.
  pub record Asked : Type 0 where
    pub payload : Payload
    pub member_id : String
    pub revision : ℕ

  pub record Message : Type 0 where
    pub form : Form
    pub enabled : Bool
    pub template_valid : Bool
    pub data_valid : Bool
    pub member_valid : Bool
    pub templates : List Template
    pub cotisations : List (Due U)
    pub recipients : List (Recipient U)
    pub missing_email_count : ℕ
    pub ready : Bool
    pub loading : Bool
    pub load_error : Option LoadError
    pub error : Option Problem
    pub previewing : Bool
    pub creating : Bool
    pub allowed_to_create : Bool
    pub revision : ℕ
    -- `none` is -1.
    pub preview_revision : Option ℕ
    pub preview_result : Option Built
    pub preview_recipient : Option (Recipient U)
    -- The requests in flight, and what the result answers.
    pub asked : Option Asked
    pub sent : Option Payload
    pub previewed : Option Asked
    -- What the dialog was closed with.
    pub closed : Option Bool

  -- `selectedTemplate` and its fields
  unfoldable pub selected_fields : Message → List Suggestion
  selected_fields s = elim (find? (λ (t : Template). same_id s.form.template t.id) s.templates) [
    | none ↦ []
    | some t ↦ t.fields
  ]

  -- `selectedRecipient`
  unfoldable pub selected_recipient : Message → Option (Recipient U)
  selected_recipient s =
      find? (λ (r : Recipient U). same_id s.form.preview_member r.member.id) s.recipients

  -- The validators of the three controls, run again.
  unfoldable pub check_template : Message → Message
  check_template s = record s {
    template_valid =
        not (str_eq s.form.template "")
        && any (λ (t : Template). same_id s.form.template t.id) s.templates;
  }

  unfoldable pub check_data : Message → Message
  unfolding selected_fields
  check_data s = record s {
    data_valid =
        not (str_eq s.form.values "")
        && not (is_some (validate_template_values json s.form.values (selected_fields s)));
  }

  unfoldable pub check_member : Message → Message
  unfolding selected_recipient
  check_member s = record s {
    member_valid = not (str_eq s.form.preview_member "") && is_some (selected_recipient s);
  }

  abbrev pub first_id : List (Recipient U) → String
  first_id [] = ""
  first_id (r ∷ rs) = get_or r.member.id ""

  -- `updateRecipients`
  unfoldable pub update_recipients : Message → Message
  unfolding check_member selected_recipient
  update_recipients s =
      let form = s.form in
      let members = collect form.to_doing form.to_paid s.cotisations [] in
      let t = record s {
        missing_email_count = missing_of members;
        recipients = recipients_of locale members;
      } in
      check_member (
        if is_some (selected_recipient t) then t else record t {
          form = record form { preview_member = first_id (recipients_of locale members) };
        })

  -- A control changes: `valueChanges`.
  unfoldable pub edit : Form → Message → Message
  edit form s =
      if s.enabled
      then check_data
          (update_recipients (check_template (record s { form = form; revision = s.revision + 1 })))
      else s

  -- `allowed$`
  unfoldable pub allow : Bool → Message → Message
  allow allowed s = record s { allowed_to_create = allowed }

  -- `load` once its first tests are passed, of a budget with an identifier or not.
  unfoldable pub load_at : Option String → Message → Message
  load_at none s = record s { load_error = some no_budget }
  load_at (some id) s =
      if str_eq id "" then record s { load_error = some no_budget } else record s {
        loading = true;
        ready = false;
        load_error = none;
        error = none;
        revision = s.revision + 1;
      }

  -- `load`
  unfoldable pub load : Option String → Message → Message
  load budget s =
      if s.loading || s.creating
      then s
      else if s.ready && not s.data_valid
      then record s { error = some correct_data }
      else load_at budget s

  unfoldable pub loaded : List Template → List (Due U) → Message → Message
  loaded templates cotisations s =
      if s.loading
      then (let t =
            check_template
              (update_recipients (record s { templates = templates; cotisations = cotisations })) in
          record t { loading = false; ready = true })
      else s

  unfoldable pub load_failed : Message → Message
  load_failed s =
      if s.loading then record s { loading = false; load_error = some not_loaded } else s

  -- `canPreview`; a form that is disabled is not valid.
  unfoldable pub can_preview : Message → Bool
  can_preview s =
      s.ready
      && (s.enabled && s.template_valid && s.data_valid && s.member_valid)
      && ltb 0 (length s.recipients)
      && not s.previewing
      && not s.creating

  -- `previewCurrent`
  unfoldable pub preview_current : Message → Bool
  preview_current s = is_some s.preview_result && is_revision s.preview_revision s.revision

  -- `canPrepare`
  unfoldable pub can_prepare : Message → Bool
  can_prepare s = s.allowed_to_create && can_preview s && preview_current s

  payload_at : Form → Parsed json → Option Payload
  payload_at form (fails p) = none
  payload_at form (object entries) = some (record {
    template_id = form.template;
    values = entries;
    send_to_doing = form.to_doing;
    send_to_paid = form.to_paid;
  })

  -- `payload`: `none` is the exception.
  unfoldable pub payload_of : Form → Option Payload
  unfolding payload_at
  payload_of form = payload_at form (parse_members json form.values)

  -- `preview`, with the payload
  unfoldable pub preview_at : Option Payload → Message → Message
  preview_at none s = record s { error = some correct_data }
  preview_at (some payload) s = record s {
    preview_revision = none;
    previewing = true;
    error = none;
    asked =
        some
          (record { payload = payload; member_id = s.form.preview_member; revision = s.revision });
  }

  -- `preview`
  unfoldable pub preview : Message → Message
  preview s = if can_preview s then preview_at (payload_of s.form) s else s

  -- The answer to the preview that was asked for.
  unfoldable pub answer_at : Option Asked → Option Built → Message → Message
  answer_at none result s = s
  answer_at (some request) result s =
      if not (request.revision == s.revision)
      then record s { previewing = false; asked = none; error = some out_of_date }
      else if not (is_complete result)
      then record s { previewing = false; asked = none; error = some incomplete }
      else record s {
        previewing = false;
        asked = none;
        preview_result = result;
        preview_recipient = selected_recipient s;
        preview_revision = some request.revision;
        previewed = some request;
      }

  unfoldable pub answered : Option Built → Message → Message
  answered result s = answer_at s.asked result s

  unfoldable pub preview_failed : Failure → Message → Message
  preview_failed failure s =
      if is_some s.asked
      then record s {
        previewing = false;
        asked = none;
        error = some (describe_error contains missing_key failure previewing_message);
      }
      else s

  -- `submit`, with the payload
  unfoldable pub submit_at : Option Payload → Message → Message
  submit_at none s = record s { error = some correct_data }
  submit_at (some payload) s = record s {
    creating = true;
    enabled = false;
    error = none;
    sent = some payload;
  }

  -- `submit`
  unfoldable pub submit : Message → Message
  submit s = if can_prepare s then submit_at (payload_of s.form) s else s

  unfoldable pub created : Message → Message
  created s =
      if is_some s.sent then record s { creating = false; sent = none; closed = some true } else s

  -- `form.enable` runs the validators of the three controls again.
  unfoldable pub create_failed : Failure → Message → Message
  unfolding check_data check_member
  create_failed failure s =
      if is_some s.sent
      then check_member (
          check_data (
            check_template (record s {
              enabled = true;
              creating = false;
              sent = none;
              error = some (describe_error contains missing_key failure creating_emails);
            })))
      else s

  -- `cancel`
  unfoldable pub cancel : Message → Message
  cancel s = if s.creating then s else record s { closed = some false }

  -- A new dialog, whose form has not been touched.
  unfoldable pub new : Message
  new = record {
    form = record {
      template = "";
      values = "{}";
      to_doing = false;
      to_paid = false;
      preview_member = "";
    };
    enabled = true;
    template_valid = false;
    data_valid = not (is_some (validate_template_values json "{}" []));
    member_valid = false;
    templates = [];
    cotisations = [];
    recipients = [];
    missing_email_count = 0;
    ready = false;
    loading = false;
    load_error = none;
    error = none;
    previewing = false;
    creating = false;
    allowed_to_create = false;
    revision = 0;
    preview_revision = none;
    preview_result = none;
    preview_recipient = none;
    asked = none;
    sent = none;
    previewed = none;
    closed = none;
  }
