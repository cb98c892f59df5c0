-- ===== src/Emails/States.antt =====
-- frontend/src/app/emails/email-state.ts: what each state of an e-mail allows.
use asl_bissieux.Prelude.{
  ◌≡◌, refl, Bool, true, false, ◌&&◌, ◌||◌, not, ◌≢◌, Option, none, some, arith, if◌then◌else◌,
}
use asl_bissieux.Prelude.Strings.{String, str_eq, eq_iff}

-- The state that the schema gives, which may be missing.
abbrev pub state_is : String → Option String → Bool
state_is name none = false
state_is name (some state) = str_eq state name

unfoldable pub can_send_email : Option String → Bool
can_send_email state = state_is "WAITING" state || state_is "ERROR" state

unfoldable pub can_reset_email : Option String → Bool
can_reset_email state = state_is "SENT" state || state_is "READ" state || state_is "UNKNOWN" state

-- `EmailListComponent.canDelete`, of a row that is usable.
unfoldable pub is_deletable : Option String → Bool
is_deletable state = not (state_is "SENDING" state)

label_of : String → Option String
label_of state =
    if str_eq state "WAITING"
    then some "En attente"
    else if str_eq state "SENDING"
    then some "En cours"
    else if str_eq state "UNKNOWN"
    then some "À vérifier"
    else if str_eq state "SENT"
    then some "Envoyé"
    else if str_eq state "ERROR"
    then some "Erreur"
    else if str_eq state "READ"
    then some "Lu"
    else none

abbrev or_unknown : Option String → String
or_unknown none = "État inconnu"
or_unknown (some label) = label

unfoldable pub email_state_label : Option String → String
unfolding label_of
email_state_label none = or_unknown (label_of "")
email_state_label (some state) = or_unknown (label_of state)

-- A text is not two different ones.
exclusive : (s a b : String) → str_eq a b ≡ false → (str_eq s a && str_eq s b) ≡ false
exclusive s a b h = ground (arith, eq_iff s a, eq_iff s b, eq_iff a b)

-- No state allows both to send and to reset, and a state that cannot be deleted (the one that is
-- being sent) allows neither.
pub actions_disjoint :
    (state : Option String)
    → (can_send_email state && can_reset_email state ≡ false)
      × ((can_send_email state || can_reset_email state) && not (is_deletable state) ≡ false)
unfolding can_send_email can_reset_email is_deletable
actions_disjoint none = (refl, refl)
actions_disjoint (some state) = (
  ground (
    arith,
    exclusive state "WAITING" "SENT" refl,
    exclusive state "WAITING" "READ" refl,
    exclusive state "WAITING" "UNKNOWN" refl,
    exclusive state "ERROR" "SENT" refl,
    exclusive state "ERROR" "READ" refl,
    exclusive state "ERROR" "UNKNOWN" refl,
  ),
  ground (
    arith,
    exclusive state "WAITING" "SENDING" refl,
    exclusive state "ERROR" "SENDING" refl,
    exclusive state "SENT" "SENDING" refl,
    exclusive state "READ" "SENDING" refl,
    exclusive state "UNKNOWN" "SENDING" refl,
  ),
)

-- An e-mail whose state has a label other than the unknown one can be sent, can be reset, or is
-- being sent: no known state is left without a way on.
pub known_state_actions :
    (state : Option String)
    → email_state_label state ≢ "État inconnu"
    → (can_send_email state || can_reset_email state || not (is_deletable state)) ≡ true
unfolding email_state_label can_send_email can_reset_email is_deletable
known_state_actions none h = absurd (h refl)
known_state_actions (some state) h = ground arith
