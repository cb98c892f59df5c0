-- ===== src/Emails/Sending/Laws.antt =====
-- What the sending of several e-mails counts and requests
-- (frontend/src/app/emails/components/email-sending-popup/email-sending-popup.component.ts).
use mathlib.Core.List.{append-nil, append_assoc}
use asl_bissieux.Prelude.{
  ℕ, ◌+◌, ◌≤◌, ◌≡◌, refl, sym, ◌∙◌, ap, Bool, true, false, List, [], ◌∷◌, ◌++◌, Option, none, some,
  arith, length, length-append,
}
use asl_bissieux.Emails.Sending.{Sending, begin, answered, cancel, is_sending}

abbrev live {ℓ} : {E : Type ℓ} → Option E → ℕ
live none = 0
live (some email) = 1

-- Between two events, of a sending that began with these e-mails.
pub record IsCounted {ℓ} {E : Type ℓ} (emails : List E) (s : Sending E) : Type ℓ where
  pub total_length : s.total ≡ length emails
  pub at_least : s.sent + s.errors ≤ s.current
  pub at_most : s.current ≤ s.sent + s.errors + 1
  pub bounded : s.current ≤ s.total
  -- Each answer counts once, and the log and the queue make up the e-mails, in their order.
  pub exact : s.cancelled ≡ false → s.sent + s.errors ≡ s.current
  pub left : s.cancelled ≡ false → s.current + live s.current_request + length s.queue ≡ s.total
  pub logged : s.cancelled ≡ false → s.sent_log ++ s.queue ≡ emails
  pub over : s.cancelled ≡ true → s.current_request ≡ none
  pub running : live s.current_request ≡ 0 → s.queue ≡ []
  -- Each request was made once: the log is as long as the requests that ended and the running one.
  pub log_length : length s.sent_log ≡ s.current + live s.current_request

module _ {ℓ} {E : Type ℓ} where
  snoc : (xs ys : List E) (y : E) → (xs ++ y ∷ []) ++ ys ≡ xs ++ y ∷ ys
  snoc xs ys y = append_assoc xs (y ∷ []) ys

  begin-IsCounted : (emails : List E) → IsCounted emails (begin emails)
  unfolding begin
  begin-IsCounted [] = ground arith
  begin-IsCounted (email ∷ emails) = ground arith

  answered_at :
      (emails : List E) (s : Sending E) (success : Bool) (request : Option E) (queue : List E)
      → s.current_request ≡ request
      → s.queue ≡ queue
      → IsCounted emails s
      → IsCounted emails (answered success s)
  unfolding answered
  answered_at emails s success none queue er eq c = rw (er, answered) c
  answered_at emails s success (some email) [] er eq c = ground arith
  answered_at emails s success (some email) (next ∷ rest) er eq c =
      ground (arith, snoc s.sent_log rest next, length-append {ℓ} s.sent_log (next ∷ []))

  cancel-IsCounted :
      (emails : List E) (s : Sending E) → IsCounted emails s → IsCounted emails (cancel s)
  unfolding cancel
  cancel-IsCounted emails s c = ground arith

  pub data Reach (emails : List E) : Sending E → Type ℓ where
    begins : Reach emails (begin emails)
    answers : {s : Sending E} (success : Bool) → Reach emails s → Reach emails (answered success s)
    cancels : {s : Sending E} → Reach emails s → Reach emails (cancel s)

  -- Whatever the answers and wherever the sending is cancelled: no answer is counted twice, the
  -- counter is at most one ahead of the answers (the request that the cancellation left) and never
  -- beyond the total, as many requests were made as ended or run, and until a cancellation the
  -- requests made and the e-mails that wait are the e-mails, in their order.
  pub Reach-IsCounted : (emails : List E) (s : Sending E) → Reach emails s → IsCounted emails s
  Reach-IsCounted emails _ begins = begin-IsCounted emails
  Reach-IsCounted emails _ (answers {s} success r) =
      answered_at emails s success s.current_request s.queue refl refl (Reach-IsCounted emails s r)
  Reach-IsCounted emails _ (cancels {s} r) = cancel-IsCounted emails s (Reach-IsCounted emails s r)

  -- After a cancellation no request is made, whatever answer still arrives, and a second
  -- cancellation counts nothing.
  pub cancel_final :
      (s : Sending E) (success : Bool)
      → (answered success (cancel s) ≡ cancel s)
        × (cancel (cancel s) ≡ cancel s)
        × ((cancel s).sent_log ≡ s.sent_log)
  unfolding answered cancel
  cancel_final s success = ground arith

  -- The answers to the requests, one after the other.
  unfoldable pub run : List Bool → Sending E → Sending E
  run [] s = s
  run (b ∷ bs) s = run bs (answered b s)

  answered_uncancelled :
      (success : Bool) (s : Sending E) (request : Option E) (queue : List E)
      → s.current_request ≡ request
      → s.queue ≡ queue
      → ((answered success s).cancelled ≡ s.cancelled)
        × ((answered success s).current ≡ s.current + live request)
  unfolding answered
  answered_uncancelled success s none queue er eq = rw (er, answered) (refl, omega arith)
  answered_uncancelled success s (some email) [] er eq = ground arith
  answered_uncancelled success s (some email) (next ∷ rest) er eq = ground arith

  begin_uncancelled :
      (emails : List E) → ((begin emails).cancelled ≡ false) × ((begin emails).current ≡ 0)
  unfolding begin
  begin_uncancelled [] = (refl, refl)
  begin_uncancelled (email ∷ emails) = (refl, refl)

  still_live : (request : Option E) (queue : List E) → live request + length queue ≡ 0 → queue ≡ []
  still_live request [] h = refl
  still_live request (email ∷ queue) h = absurd (omega arith)

  -- Every e-mail was requested, in order, and every answer counted.
  abbrev pub IsDone : List E → Sending E → Type ℓ
  IsDone emails s =
      (s.sent_log ≡ emails)
      × (s.sent + s.errors ≡ length emails)
      × (s.current ≡ length emails)
      × (is_sending s ≡ false)

  run_end :
      (emails : List E) (bs : List Bool) (s : Sending E)
      → Reach emails s
      → s.cancelled ≡ false
      → length bs + s.current ≡ s.total
      → IsDone emails (run bs s)
  unfolding run
  run_end emails [] s r h e =
      let c = Reach-IsCounted emails s r in
      let ended : s.queue ≡ [] = still_live s.current_request s.queue (omega (arith, c.left h)) in
      (
        sym (append-nil s.sent_log) ∙ (ap (λ q. s.sent_log ++ q) (sym ended) ∙ c.logged h),
        omega (arith, c.exact h, c.total_length),
        omega (arith, c.total_length),
        ground (arith, c.total_length),
      )
  run_end emails (b ∷ bs) s r h e =
      let c = Reach-IsCounted emails s r in
      let c' = Reach-IsCounted emails (answered b s) (answers b r) in
      let (kept, counted) = answered_uncancelled b s s.current_request s.queue refl refl in
      run_end emails bs (answered b s) (answers b r) (kept ∙ h)
        (ground (arith, c.left h, c.running, c.total_length, c'.total_length, counted))

  -- When as many requests have been answered as there are e-mails, whether they failed or not,
  -- every e-mail was requested once and in order, every answer was counted once, and the dialog no
  -- longer says that it sends.
  pub run-IsDone :
      (emails : List E) (bs : List Bool)
      → length bs ≡ length emails
      → IsDone emails (run bs (begin emails))
  run-IsDone emails bs h =
      let c = begin-IsCounted emails in
      let (kept, zero_answers) = begin_uncancelled emails in
      run_end emails bs (begin emails) begins kept (omega (arith, zero_answers, c.total_length))
