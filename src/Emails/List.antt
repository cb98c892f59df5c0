-- ===== src/Emails/List.antt =====
-- frontend/src/app/emails/components/email-list/email-list.component.ts: the actions on the e-mails
-- of a campaign, each behind a confirmation.
-- The rows, the loading flag and the campaign come from streams: each delivery is an event.
pub mod Laws
use asl_bissieux.Prelude.{
  ℕ, ◌+◌, Bool, true, false, ◌&&◌, ◌||◌, not, List, [], ◌∷◌, Option, none, some, if◌then◌else◌,
  ◌==◌, filter, any, is_some,
}
use asl_bissieux.Prelude.Strings.{String, str_eq}
use asl_bissieux.Emails.States.{can_send_email, can_reset_email, is_deletable}

-- `ModelsEmailSummary`
pub record Email : Type 0 where
  pub id : Option String
  pub state : Option String
  pub to : String

-- `a === b`
abbrev pub same_text : Option String → Option String → Bool
same_text none none = true
same_text none (some b) = false
same_text (some a) none = false
same_text (some a) (some b) = str_eq a b

-- `!!row.id`
abbrev pub has_text : Option String → Bool
has_text none = false
has_text (some a) = not (str_eq a "")

pub record EmailList : Type 0 where
  pub visible : List Email
  pub loading : Bool
  pub campaign_loading : Bool
  pub campaign_error : Bool
  pub busy_action : Bool
  pub previewing_id : Option String
  pub revision : ℕ

pub can_act : EmailList → Bool
can_act s = not s.loading && not s.campaign_loading && not s.campaign_error && not s.busy_action

-- `isUsable`: a row with its identifier and its state stands in the list.
unfoldable pub is_usable : EmailList → Email → Bool
unfolding can_act
is_usable s row =
    can_act s
    && has_text row.id
    && any (λ item. same_text item.id row.id && same_text item.state row.state) s.visible

-- `every`
abbrev pub all : {A : Type 0} → (A → Bool) → List A → Bool
all p [] = true
all p (x ∷ xs) = p x && all p xs

-- What changes the component while a confirmation is open.
pub data Event : Type 0 where
  -- the subscription to `results$`
  shows : List Email → Event
  -- the subscription to `loading$`
  loads : Bool → Event
  -- `campaign$`: the `tap` before the request, and the answer: whether it fails
  campaign_asked : Event
  campaign_answered : Bool → Event
  -- an action begins or ends
  acts : Bool → Event
  -- `loadDetails` of a row, and its end
  details : Email → Event
  details_end : Event

-- `revision++` and `scopeChanged.next()`, which ends a running request for details.
abbrev pub bump : EmailList → EmailList
bump s = record s { revision = s.revision + 1; previewing_id = none }

unfoldable pub handle : EmailList → Event → EmailList
unfolding is_usable
handle s (shows rows) = record s { visible = rows }
handle s (loads true) = bump (record s { loading = true })
handle s (loads false) = record s { loading = false }
handle s campaign_asked = bump (record s { campaign_loading = true; campaign_error = false })
handle s (campaign_answered fails) = record s {
  campaign_loading = false;
  campaign_error = fails || s.campaign_error;
}
handle s (acts busy) = record s { busy_action = busy }
handle s (details row) =
    if not (is_usable s row) || is_some s.previewing_id
    then s
    else record s { previewing_id = row.id }
handle s details_end = record s { previewing_id = none }

unfoldable pub run : EmailList → List Event → EmailList
unfolding handle
run s [] = s
run s (e ∷ es) = run (handle s e) es

-- A confirmation that is open: the copied rows and the revision.
pub record Pending : Type 0 where
  pub frozen : List Email
  pub revision : ℕ

pub data Outcome : Type 0 where
  cancelled : Outcome
  -- The dialog that says that the list has changed.
  changed : Outcome
  act : List Email → Outcome

abbrev pub is_empty : List Email → Bool
is_empty [] = true
is_empty (row ∷ rows) = false

-- `confirmRows`, up to the dialog
unfoldable pub confirm_rows : EmailList → List Email → Option Pending
unfolding is_usable
confirm_rows s rows =
    if is_empty rows || not (all (is_usable s) rows)
    then none
    else some (record { frozen = rows; revision = s.revision })

-- `confirmRows`, from the answer of the dialog on
unfoldable pub answer : EmailList → Pending → Bool → Outcome
unfolding is_usable
answer s p false = cancelled
answer s p true =
    if not (p.revision == s.revision) || not (all (is_usable s) p.frozen)
    then changed
    else act p.frozen

-- `delete`, `bulkDelete`, `sendOne`, `bulkSend`, `resetOne`: the confirmation that each opens.
unfoldable pub delete : EmailList → Email → Option Pending
unfolding confirm_rows is_deletable
delete s row = if is_deletable row.state then confirm_rows s (row ∷ []) else none

unfoldable pub bulk_delete : EmailList → List Email → Option Pending
unfolding confirm_rows is_deletable
bulk_delete s selected = confirm_rows s (filter (λ row. is_deletable row.state) selected)

unfoldable pub send_one : EmailList → Email → Option Pending
unfolding confirm_rows can_send_email
send_one s row = if can_send_email row.state then confirm_rows s (row ∷ []) else none

unfoldable pub bulk_send : EmailList → List Email → Option Pending
unfolding confirm_rows can_send_email
bulk_send s selected = confirm_rows s (filter (λ row. can_send_email row.state) selected)

unfoldable pub reset_one : EmailList → Email → Option Pending
unfolding confirm_rows can_reset_email
reset_one s row = if can_reset_email row.state then confirm_rows s (row ∷ []) else none
