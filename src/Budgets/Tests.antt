-- ===== src/Budgets/Tests.antt =====
-- The laws of the cotisations and of their history at concrete amounts, edits and answers.
use asl_bissieux.Prelude.{
  ◌≡◌, refl, ◌≢◌, Bool, true, false, not, ◌&&◌, ◌||◌, ℕ, List, [], ◌∷◌, none, some, any, arith,
}
use asl_bissieux.Prelude.Int.{pos, negsuc, ◌+ℤ◌, ◌-ℤ◌}
use asl_bissieux.Prelude.Strings.{String, eq_iff}
use asl_bissieux.Prelude.Text.{trim}
use asl_bissieux.Budgets.Payments.{Cotisation, doing, payment_state, covers}
use asl_bissieux.Budgets.Payments.Laws.{
  IsLocal, is_overpaid, is_settled, is_doing, is_waiting, covers-payment_state,
}
use asl_bissieux.Budgets.History.{
  adjustment, Form, Payload, Request, quiet, creating, History, init, load, loaded, start, edit,
  review, previewed, confirm, payload_of,
}
use asl_bissieux.Sorting.{sort_by}
use asl_bissieux.Directory.{Member, Lot}
use asl_bissieux.Editor.Values.{nested, validate_template_values, parse_members}
use asl_bissieux.Budgets.Details
use asl_bissieux.Budgets.Details.Laws as Screens
use asl_bissieux.Budgets.Message
use asl_bissieux.Budgets.Message.Laws as Messages
use asl_bissieux.Budgets.Message.Laws.Sent
use asl_bissieux.Budgets.Message.{Platform}
use asl_bissieux.Budgets.Recipients.{Due, collect, add_member, add_members, recipients_of}
use asl_bissieux.Budgets.Recipients.Laws.{receives, calls, receives-collect}
use asl_bissieux.Budgets.History.Laws.{
  Reach, begin, step, is_loaded, starts, edits, reviews, is_previewed, confirms, IsShown,
  confirm-IsShown,
}

-- 60 of 100 paid.
abbrev partly : Cotisation
partly = record {
  id = some "c";
  amount = some (pos 100);
  paid = some (pos 60);
  remaining = none;
  state = none;
}

partly_doing : payment_state partly ≡ doing
unfolding payment_state ◌+ℤ◌
partly_doing = refl

partly-IsLocal : IsLocal partly
partly-IsLocal = record { no_state = refl; no_remaining = refl }

covers-payment_state_example :
    (covers "overpaid" partly ≡ is_overpaid (payment_state partly))
    × (covers "settled" partly ≡ is_settled (payment_state partly))
    × (covers "remaining" partly ≡ not (is_settled (payment_state partly)))
    × (covers "partial" partly
        ≡ is_doing (payment_state partly)
          || (is_waiting (payment_state partly) && covers "received" partly))
    × (covers "unpaid" partly ≡ is_waiting (payment_state partly) && not (covers "received" partly))
covers-payment_state_example = covers-payment_state partly partly-IsLocal

-- An adjustment of 5 less, with its reason.
abbrev form : Form
form = record {
  amount = pos 5;
  direction = "decrease";
  date = "2026-01-01";
  reason = " erreur ";
  reference = "";
}

abbrev all_valid : Form → Bool
all_valid f = true

abbrev opened : History
opened = start adjustment none "op" "2026-01-01" (loaded 1 "c" (partly ∷ []) [] (init form))

abbrev edited : History
edited = edit form opened

abbrev asked : History
asked = review all_valid edited

abbrev shown : History
shown = previewed (some (record { version = some 7 })) asked

abbrev sent : History
sent = confirm shown

abbrev payload : Payload
payload = record {
  id = "op";
  kind = adjustment;
  amount = negsuc 4;
  date = "2026-01-01";
  reason = "erreur";
  reference = "";
  reverses_id = none;
  version = some 7;
}

shown-Reach : Reach all_valid shown
shown-Reach =
    step
      (step
        (step
          (step (step (begin form) (is_loaded 1 "c" (partly ∷ []) [] refl))
            (starts adjustment none "op" "2026-01-01" refl))
          (edits form refl))
        (reviews refl))
      (is_previewed (some (record { version = some 7 })) refl)

sent-Reach : Reach all_valid sent
sent-Reach = step shown-Reach (confirms refl)

sent_creating : sent.request ≡ creating payload
unfolding init load loaded start edit review previewed confirm payload_of trim ◌-ℤ◌
sent_creating = refl

quiet_apart : (r : Request) (p : Payload) → r ≡ quiet → r ≢ creating p
quiet_apart r p e = λ h. cc

shown_idle : shown.request ≡ quiet
unfolding init load loaded start edit review previewed payload_of trim
shown_idle = refl

shown_quiet : shown.request ≢ creating payload
shown_quiet = quiet_apart shown.request payload shown_idle

confirm-IsShown_example : IsShown shown payload
confirm-IsShown_example =
    confirm-IsShown all_valid shown payload shown-Reach shown_quiet sent_creating

sent_busy : sent.busy ≡ true
unfolding init load loaded start edit review previewed confirm payload_of trim
sent_busy = refl

-- A budget with one cotisation, which is waited for, of a lot with one member.
abbrev lot : Lot (Member ℕ)
lot = record {
  id = none;
  number = some 3;
  address = none;
  members = some (
      record {
        id = some "m";
        first_name = some "Ada";
        last_name = none;
        email = some "ada@example.org";
        phone_number = none;
        address = none;
        units = none;
      }
      ∷ []);
}

abbrev due : Due ℕ
due = record { cotisation = record partly { paid = some (pos 0) }; unit = some lot }

abbrev ada : String
ada = "m"

m-named : ada ≢ ""
m-named = ground (arith, eq_iff "m" "")

receives-collect_example :
    receives "m" 3 (collect false false (due ∷ []) []) ≡ any (calls false false "m" 3) (due ∷ [])
receives-collect_example = receives-collect false false "m" 3 (due ∷ []) m-named

-- Every text is an object without entries, and names are not told apart.
abbrev platform : Platform
platform = record {
  json = record {
    Number = ℕ;
    Nested = ℕ;
    parse = λ s. some (nested 0);
    members = λ j. some [];
    write = λ j. "{}";
    write_members = λ entries. "{}";
    read_number = λ s. none;
    write_number = λ n. "0";
  };
  U = ℕ;
  locale = λ a b. pos 0;
  contains = λ a b. false;
  missing_key = λ s. none;
}

abbrev filled : Message.Form
filled = record {
  template = "t";
  values = "{}";
  to_doing = false;
  to_paid = false;
  preview_member = "m";
}

abbrev built : Message.Built
built = record { subject = some "Appel"; message = some "Bonjour" }

abbrev templates : List Message.Template
templates = record { id = some "t"; fields = [] } ∷ []

abbrev form_open : Message.Message platform
form_open =
    Message.loaded platform templates (due ∷ [])
      (Message.load platform (some "b") (Message.new platform))

abbrev chosen : Message.Message platform
chosen = Message.edit platform filled (Message.allow platform true form_open)

abbrev previewed_once : Message.Message platform
previewed_once = Message.answered platform (some built) (Message.preview platform chosen)

chosen_reached : Messages.Reach platform previewed_once
chosen_reached =
    Messages.step
      (Messages.step
        (Messages.step
          (Messages.step
            (Messages.step (Messages.step Messages.start (Messages.loads (some "b") refl))
              (Messages.is_loaded templates (due ∷ []) refl))
            (Messages.allows true refl))
          (Messages.edits filled refl))
        (Messages.previews refl))
      (Messages.answers (some built) refl)

abbrev sent_payload : Message.Payload platform
sent_payload = record {
  template_id = "t";
  values = [];
  send_to_doing = false;
  send_to_paid = false;
}

chosen_sent : (Message.submit platform previewed_once).sent ≡ some sent_payload
unfolding Message.submit Message.submit_at Message.can_prepare Message.can_preview
    Message.preview_current Message.payload_of Message.answered Message.answer_at Message.preview
    Message.preview_at Message.edit Message.allow Message.loaded Message.load Message.load_at
    Message.new Message.update_recipients Message.check_template Message.check_data
    Message.check_member Message.selected_fields validate_template_values parse_members collect
    recipients_of payment_state add_members add_member sort_by ◌+ℤ◌
chosen_sent = refl

unsent : previewed_once.sent ≡ none
unfolding Message.submit Message.submit_at Message.can_prepare Message.can_preview
    Message.preview_current Message.payload_of Message.answered Message.answer_at Message.preview
    Message.preview_at Message.edit Message.allow Message.loaded Message.load Message.load_at
    Message.new Message.update_recipients Message.check_template Message.check_data
    Message.check_member Message.selected_fields validate_template_values parse_members collect
    recipients_of payment_state add_members add_member sort_by ◌+ℤ◌
unsent = refl

submit-IsPreviewed_example : Sent.IsPreviewed platform previewed_once sent_payload
submit-IsPreviewed_example =
    Sent.submit-IsPreviewed platform previewed_once sent_payload chosen_reached unsent chosen_sent

-- A budget that has been read, in the scope of the lots that are settled.
run-start-IsConsistent_example : Screens.IsConsistent (
    Screens.run
      (Screens.answers (some (some (record { id = some "b"; draft = false })))
        ∷ Screens.refreshes
        ∷ [])
      (Details.start "b" (some "settled") none))
run-start-IsConsistent_example =
    Screens.run-start-IsConsistent
      (Screens.answers (some (some (record { id = some "b"; draft = false })))
        ∷ Screens.refreshes
        ∷ [])
      "b" (some "settled") none
