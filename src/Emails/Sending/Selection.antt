-- ===== src/Emails/Sending/Selection.antt =====
-- From a selection in the list to the requests of its sending: `bulkSend` and `sendRows` of
-- frontend/src/app/emails/components/email-list/email-list.component.ts, and the dialog of
-- frontend/src/app/emails/components/email-sending-popup, which `sendRows` opens on the rows.
use asl_bissieux.Prelude.{
  ◌+◌, ◌≡◌, ◌≢◌, ◌⊎◌, inl, inr, Bool, true, false, List, [], ◌∷◌, Option, none, some, arith, length,
  filter, All, Bool-cases,
}
use asl_bissieux.Prelude.Strings.{String, eq_iff}
use asl_bissieux.Emails.States.{can_send_email}
use asl_bissieux.Emails.List.{Email, EmailList, Event, Pending, act, run, answer, bulk_send}
use asl_bissieux.Emails.List.Laws.{IsListed, IsReady, answer-IsSafe}
use asl_bissieux.Emails.Sending.{Sending, begin, is_sending}
use asl_bissieux.Emails.Sending.Laws as Sends

-- The e-mail waits or has failed.
abbrev pub IsSendable : Email → Type 0
IsSendable row = (row.state ≡ some "WAITING") ⊎ (row.state ≡ some "ERROR")

-- The second list has, in the order of the first, its e-mails that wait or have failed.
pub data Picks : List Email → List Email → Type 0 where
  ends : Picks [] []
  takes :
      {rows picked : List Email} (row : Email)
      → IsSendable row
      → Picks rows picked
      → Picks (row ∷ rows) (row ∷ picked)
  leaves :
      {rows picked : List Email} (row : Email)
      → ¬ IsSendable row
      → Picks rows picked
      → Picks (row ∷ rows) picked

sendable_state :
    (state : Option String)
    → can_send_email state ≡ true
    → (state ≡ some "WAITING") ⊎ (state ≡ some "ERROR")
unfolding can_send_email
sendable_state none h = cc
sendable_state (some text) h = ground (arith, eq_iff text "WAITING", eq_iff text "ERROR")

can_send_email_of :
    (state : Option String)
    → (state ≡ some "WAITING") ⊎ (state ≡ some "ERROR")
    → can_send_email state ≡ true
unfolding can_send_email
can_send_email_of state (inl e) = rw e
can_send_email_of state (inr e) = rw e

filter-Picks : (rows : List Email) → Picks rows (filter (λ row. can_send_email row.state) rows)
filter-Picks [] = ends
filter-Picks (row ∷ rows) = elim (Bool-cases (can_send_email row.state)) [
  | inl yes_ ↦ rw yes_ (takes row (sendable_state row.state yes_) (filter-Picks rows))
  | inr no_ ↦
      rw no_ (leaves row (λ k. ground (arith, can_send_email_of row.state k)) (filter-Picks rows))
]

-- The sending of a selection, after its last answer.
pub record IsSent (s : EmailList) (selected : List Email) (t : Sending Email) : Type 0 where
  pub picked : Picks selected t.sent_log
  pub some_sent : t.sent_log ≢ []
  pub listed : All (IsListed s.visible) t.sent_log
  pub ready : IsReady s
  pub counted : t.sent + t.errors ≡ length t.sent_log
  pub over : is_sending t ≡ false

-- Whatever happens while the confirmation of `bulkSend` is open: once it is given and the dialog
-- that sends its rows has had as many answers as there are rows, the requests made were for the
-- selected e-mails that wait or have failed, for all of them and for at least one, once and in the
-- order of the selection; each stood in the list when the confirmation was given, with its identifier
-- and in that state, and nothing was being loaded; each answer counts, and the sending is over.
pub bulk_send-IsSent :
    (s : EmailList) (selected frozen : List Email) (p : Pending) (es : List Event)
    (confirmed : Bool) (answers : List Bool)
    → bulk_send s selected ≡ some p
    → answer (run s es) p confirmed ≡ act frozen
    → length answers ≡ length frozen
    → IsSent (run s es) selected (Sends.run answers (begin frozen))
unfolding bulk_send
bulk_send-IsSent s selected frozen p es confirmed answers e h n =
    let sendable = filter (λ (row : Email). can_send_email row.state) selected in
    let safe = answer-IsSafe s sendable frozen p es confirmed e h in
    let (logged, counted, current, over) = Sends.run-IsDone frozen answers n in
    record {
      picked = rw (logged, safe.same_rows) (filter-Picks selected);
      some_sent = rw (logged, safe.same_rows) safe.some_rows;
      listed = rw (logged, safe.same_rows) safe.listed;
      ready = safe.ready;
      counted = rw logged counted;
      over = over;
    }
