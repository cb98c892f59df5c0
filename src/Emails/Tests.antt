-- ===== src/Emails/Tests.antt =====
-- The laws of the e-mails at concrete rows, events and answers.
use asl_bissieux.Prelude.{ℕ, ◌≡◌, refl, true, false, List, [], ◌∷◌, none, some}
use asl_bissieux.Emails.List
use asl_bissieux.Emails.List.{
  Email, EmailList, Pending, shows, details, confirm_rows, bulk_delete, bulk_send, reset_one, act,
  is_usable,
}
use asl_bissieux.Emails.List.Laws.{IsSafe, answer-IsSafe}
use asl_bissieux.Emails.Sending.Selection.{IsSent, bulk_send-IsSent}
use asl_bissieux.Emails.Sending
use asl_bissieux.Emails.Sending.{Sending}
use asl_bissieux.Emails.Sending.Laws.{
  Reach, begins, answers, cancels, IsCounted, Reach-IsCounted, cancel_final, IsDone, run-IsDone,
}
use asl_bissieux.Emails.Sending.Laws as Sends

abbrev waiting : Email
waiting = record { id = some "a"; state = some "WAITING"; to = "a@x" }

abbrev sent : Email
sent = record { id = some "b"; state = some "SENT"; to = "b@x" }

abbrev page : EmailList
page = record {
  visible = waiting ∷ sent ∷ [];
  loading = false;
  campaign_loading = false;
  campaign_error = false;
  busy_action = false;
  previewing_id = none;
  revision = 3;
}

-- The rows come again while the dialog is open.
abbrev events : List List.Event
events = shows (waiting ∷ sent ∷ []) ∷ details sent ∷ []

abbrev both : Pending
both = record { frozen = waiting ∷ sent ∷ []; revision = 3 }

abbrev first : Pending
first = record { frozen = waiting ∷ []; revision = 3 }

abbrev second : Pending
second = record { frozen = sent ∷ []; revision = 3 }

opened : confirm_rows page (waiting ∷ sent ∷ []) ≡ some both
unfolding confirm_rows
opened = refl

confirmed : List.answer (List.run page events) both true ≡ act (waiting ∷ sent ∷ [])
unfolding List.answer List.run
confirmed = refl

answer-IsSafe_example : IsSafe page events (waiting ∷ sent ∷ []) (waiting ∷ sent ∷ [])
answer-IsSafe_example =
    answer-IsSafe page (waiting ∷ sent ∷ []) (waiting ∷ sent ∷ []) both events true opened confirmed

send_opened : bulk_send page (waiting ∷ sent ∷ []) ≡ some first
unfolding bulk_send
send_opened = refl

send_confirmed : List.answer (List.run page events) first true ≡ act (waiting ∷ [])
unfolding List.answer List.run
send_confirmed = refl

bulk_send-IsSent_example :
    IsSent
      (List.run page events)
      (waiting ∷ sent ∷ [])
      (Sends.run (true ∷ []) (Sending.begin (waiting ∷ [])))
bulk_send-IsSent_example =
    bulk_send-IsSent page (waiting ∷ sent ∷ []) (waiting ∷ []) first events true (true ∷ [])
      send_opened send_confirmed refl

delete_opened : bulk_delete page (waiting ∷ sent ∷ []) ≡ some both
unfolding bulk_delete
delete_opened = refl

reset_opened : reset_one page sent ≡ some second
unfolding reset_one
reset_opened = refl

reset_confirmed : List.answer (List.run page events) second true ≡ act (sent ∷ [])
unfolding List.answer List.run
reset_confirmed = refl

-- Two numbers stand for the e-mails of a sending.
abbrev two : List ℕ
two = 1 ∷ 2 ∷ []

one_answer-Reach : Reach two (Sending.answered false (Sending.begin two))
one_answer-Reach = answers false begins

Reach-IsCounted_example :
    IsCounted two (Sending.cancel (Sending.answered false (Sending.begin two)))
Reach-IsCounted_example =
    Reach-IsCounted two (Sending.cancel (Sending.answered false (Sending.begin two)))
      (cancels one_answer-Reach)

run-IsDone_example : IsDone two (Sends.run (true ∷ false ∷ []) (Sending.begin two))
run-IsDone_example = run-IsDone two (true ∷ false ∷ []) refl

run_counts :
    ((Sends.run (true ∷ false ∷ []) (Sending.begin two)).sent ≡ 1)
    × ((Sends.run (true ∷ false ∷ []) (Sending.begin two)).errors ≡ 1)
unfolding Sends.run Sending.begin Sending.answered
run_counts = (refl, refl)
