-- ===== src/Emails/Sending.antt =====
-- frontend/src/app/emails/components/email-sending-popup/email-sending-popup.component.ts: the
-- e-mails of a selection are sent one after the other (`concatMap`), until a cancellation.
-- `sent_log` and `current_request` record the calls of `sendEmail`; the answers are events.
pub mod Laws
pub mod Selection
use asl_bissieux.Prelude.{
  ℕ, ◌+◌, ◌-◌, ◌*◌, Bool, true, false, List, [], ◌∷◌, ◌++◌, Option, none, some, if◌then◌else◌,
  length, ltb,
}
use Prim.Native.Nat.{◌/◌}

pub record Sending {ℓ} (E : Type ℓ) : Type ℓ where
  pub current : ℕ
  pub sent : ℕ
  pub errors : ℕ
  pub total : ℕ
  -- The e-mail whose request runs, those that wait, and those whose request was made.
  pub current_request : Option E
  pub queue : List E
  pub sent_log : List E
  pub cancelled : Bool

module _ {ℓ} {E : Type ℓ} where
  -- The next inner stream of `concatMap`.
  next_request : List E → Sending E → Sending E
  next_request [] s = record s { current_request = none; queue = [] }
  next_request (email ∷ rest) s = record s {
    current_request = some email;
    queue = rest;
    sent_log = s.sent_log ++ email ∷ [];
  }

  -- `ngAfterViewInit` on the e-mails of the dialog.
  unfoldable pub begin : List E → Sending E
  unfolding next_request
  begin emails = next_request emails (record {
    current = 0;
    sent = 0;
    errors = 0;
    total = length emails;
    current_request = none;
    queue = [];
    sent_log = [];
    cancelled = false;
  })

  -- The running request ends: `tap` or `catchError`, then `finalize`.
  unfoldable pub answered : Bool → Sending E → Sending E
  unfolding next_request
  answered success s = elim s.current_request [
    | none ↦ s
    | some email ↦ next_request s.queue (record s {
      sent = if success then s.sent + 1 else s.sent;
      errors = if success then s.errors else s.errors + 1;
      current = s.current + 1;
    })
  ]

  -- `_cancel$`, from `abort` or `ngOnDestroy`: the running request is left (`finalize`).
  unfoldable pub cancel : Sending E → Sending E
  cancel s = elim s.current_request [
    | none ↦ record s { cancelled = true; queue = [] }
    | some email ↦ record s {
      cancelled = true;
      queue = [];
      current_request = none;
      current = s.current + 1;
    }
  ]

  -- `remaining$` and `sending$`
  abbrev pub remaining : Sending E → ℕ
  remaining s = s.total - s.current

  abbrev pub is_sending : Sending E → Bool
  is_sending s = ltb 0 (remaining s)

  -- `Math.round(current / total * 100)`, of a total that is not 0.
  unfoldable pub progress : Sending E → ℕ
  progress s = (200 * s.current + s.total) / (2 * s.total)
