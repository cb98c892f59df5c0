-- ===== src/Budgets/Message/Laws/Sent.antt =====
-- What the form of the e-mails of a budget has previewed when it sends
-- (frontend/src/app/budgets/components/budget-email-form/budget-email-form.component.ts).
use asl_bissieux.Prelude.{
  ℕ, ◌≡◌, refl, sym, ◌∙◌, Bool, true, not, Option, none, some, arith, ◌==◌, is_some, Bool-cases,
  inl, inr,
}
use mathlib.Core.Path.{subst}
use asl_bissieux.Budgets.Message.Errors.{Failure, correct_data}
use asl_bissieux.Budgets.Message.{
  Built, Platform, Payload, Asked, Message, allow, load_failed, can_preview, preview_current,
  can_prepare, payload_of, preview_at, preview, answer_at, answered, preview_failed, submit_at,
  submit, created, check_template, check_data, check_member, create_failed, cancel, new,
  is_revision, is_complete,
}
use asl_bissieux.Budgets.Message.Laws.{
  Step, Reach, IsOf, AskedAt, ShownAt, IsConsistent, if-IsConsistent, edit-IsConsistent,
  loaded-IsConsistent, noted, load-IsConsistent, edits, allows, loads, is_loaded, fails_load,
  previews, answers, fails_preview, submits, is_created, fails_create, cancels, start, step,
}

module _ (P : Platform) where
  open P use {U}

  preview_at-IsConsistent :
      (s : Message P) (payload : Option (Payload P))
      → payload_of P s.form ≡ payload
      → s.ready ≡ true
      → IsConsistent P s
      → IsConsistent P (preview_at P payload s)
  unfolding preview_at
  preview_at-IsConsistent s none e r c = noted P s s.load_error (some correct_data) c
  preview_at-IsConsistent s (some payload) e r c = record {
    asked = (omega arith, λ now. (r, record { payload = e; member_id = refl }));
    shown = tt;
    loading = c.loading;
  }

  preview-IsConsistent : (s : Message P) → IsConsistent P s → IsConsistent P (preview P s)
  unfolding preview can_preview
  preview-IsConsistent s c =
      if-IsConsistent P (can_preview P s) _ _
        (λ e. preview_at-IsConsistent s (payload_of P s.form) refl (ground arith) c) (λ e. c)

  answer_at-IsConsistent :
      (result : Option Built) (s : Message P) (a : Option (Asked P))
      → s.asked ≡ a
      → IsConsistent P s
      → IsConsistent P (answer_at P a result s)
  unfolding answer_at
  answer_at-IsConsistent result s none e c = c
  answer_at-IsConsistent result s (some a) e c =
      let mine : AskedAt P s.revision s.ready s.form (some a) =
        subst (AskedAt P s.revision s.ready s.form) e c.asked in
      if-IsConsistent P (not (a.revision == s.revision)) _ _
        (λ e. record { asked = tt; shown = c.shown; loading = c.loading })
        (λ e.
          if-IsConsistent P (not (is_complete result)) _ _
            (λ f. record { asked = tt; shown = c.shown; loading = c.loading })
            (λ f. record { asked = tt; shown = mine; loading = c.loading }))

  -- The other steps leave the form, the revision and what was previewed.
  preview_failed-IsConsistent :
      (f : Failure) (s : Message P) → IsConsistent P s → IsConsistent P (preview_failed P f s)
  unfolding preview_failed
  preview_failed-IsConsistent f s c =
      if-IsConsistent P (is_some s.asked) _ _
        (λ e. record { asked = tt; shown = c.shown; loading = c.loading }) (λ e. c)

  submit_at-IsConsistent :
      (payload : Option (Payload P)) (s : Message P)
      → IsConsistent P s
      → IsConsistent P (submit_at P payload s)
  unfolding submit_at
  submit_at-IsConsistent none s c = noted P s s.load_error (some correct_data) c
  submit_at-IsConsistent (some payload) s c = record {
    asked = c.asked;
    shown = c.shown;
    loading = c.loading;
  }

  submit-IsConsistent : (s : Message P) → IsConsistent P s → IsConsistent P (submit P s)
  unfolding submit
  submit-IsConsistent s c =
      if-IsConsistent P (can_prepare P s) _ _
        (λ e. submit_at-IsConsistent (payload_of P s.form) s c) (λ e. c)

  created-IsConsistent : (s : Message P) → IsConsistent P s → IsConsistent P (created P s)
  unfolding created
  created-IsConsistent s c =
      if-IsConsistent P (is_some s.sent) _ _
        (λ e. record { asked = c.asked; shown = c.shown; loading = c.loading }) (λ e. c)

  create_failed-IsConsistent :
      (f : Failure) (s : Message P) → IsConsistent P s → IsConsistent P (create_failed P f s)
  unfolding create_failed check_template check_data check_member
  create_failed-IsConsistent f s c =
      if-IsConsistent P (is_some s.sent) _ _
        (λ e. record { asked = c.asked; shown = c.shown; loading = c.loading }) (λ e. c)

  cancel-IsConsistent : (s : Message P) → IsConsistent P s → IsConsistent P (cancel P s)
  unfolding cancel
  cancel-IsConsistent s c =
      if-IsConsistent P s.creating _ _ (λ e. c)
        (λ e. record { asked = c.asked; shown = c.shown; loading = c.loading })

  load_failed-IsConsistent : (s : Message P) → IsConsistent P s → IsConsistent P (load_failed P s)
  unfolding load_failed
  load_failed-IsConsistent s c =
      if-IsConsistent P s.loading _ _
        (λ e. record { asked = c.asked; shown = c.shown; loading = λ h. c.loading e }) (λ e. c)

  allow-IsConsistent : (b : Bool) (s : Message P) → IsConsistent P s → IsConsistent P (allow P b s)
  unfolding allow
  allow-IsConsistent b s c = record { asked = c.asked; shown = c.shown; loading = c.loading }

  Step-IsConsistent : {s t : Message P} → Step P s t → IsConsistent P s → IsConsistent P t
  unfolding answered
  Step-IsConsistent {s} (edits f e) c = subst (IsConsistent P) (sym e) (edit-IsConsistent P f s c)
  Step-IsConsistent {s} (allows b e) c = subst (IsConsistent P) (sym e) (allow-IsConsistent b s c)
  Step-IsConsistent {s} (loads id e) c = subst (IsConsistent P) (sym e) (load-IsConsistent P id s c)
  Step-IsConsistent {s} (is_loaded ts cs e) c =
      subst (IsConsistent P) (sym e) (loaded-IsConsistent P ts cs s c)
  Step-IsConsistent {s} (fails_load e) c =
      subst (IsConsistent P) (sym e) (load_failed-IsConsistent s c)
  Step-IsConsistent {s} (previews e) c = subst (IsConsistent P) (sym e) (preview-IsConsistent s c)
  Step-IsConsistent {s} (answers r e) c =
      subst (IsConsistent P) (sym e) (answer_at-IsConsistent r s s.asked refl c)
  Step-IsConsistent {s} (fails_preview f e) c =
      subst (IsConsistent P) (sym e) (preview_failed-IsConsistent f s c)
  Step-IsConsistent {s} (submits e) c = subst (IsConsistent P) (sym e) (submit-IsConsistent s c)
  Step-IsConsistent {s} (is_created e) c = subst (IsConsistent P) (sym e) (created-IsConsistent s c)
  Step-IsConsistent {s} (fails_create f e) c =
      subst (IsConsistent P) (sym e) (create_failed-IsConsistent f s c)
  Step-IsConsistent {s} (cancels e) c = subst (IsConsistent P) (sym e) (cancel-IsConsistent s c)

  Reach-IsConsistent : {s : Message P} → Reach P s → IsConsistent P s
  unfolding new
  Reach-IsConsistent start = record { asked = tt; shown = tt; loading = λ h. refl }
  Reach-IsConsistent (step r st) = Step-IsConsistent st (Reach-IsConsistent r)

  -- The payload is that of a preview that was asked for on the form as it stands.
  abbrev pub IsPreviewed : Message P → Payload P → Type 0
  IsPreviewed s p = (a : Asked P) × (s.previewed ≡ some a) × (a.payload ≡ p) × IsOf P s.form a

  previewed_at :
      (s : Message P) (r : Option ℕ) (a : Option (Asked P)) (p : Payload P)
      → s.previewed ≡ a
      → ShownAt P s.revision s.ready s.form r a
      → is_revision r s.revision ≡ true
      → payload_of P s.form ≡ some p
      → IsPreviewed s p
  previewed_at s none a p e h n f = absurd (ground arith)
  previewed_at s (some r) none p e h n f = absurd h
  previewed_at s (some r) (some a) p e h n f =
      let (old, fresh) = h in
      let (ready, of) = fresh (ground arith) in
      let same : some a.payload ≡ some p = sym of.payload ∙ f in (a, e, cc, of)

  sent_at :
      (s : Message P) (p : Payload P) (payload : Option (Payload P))
      → s.sent ≡ none
      → (submit_at P payload s).sent ≡ some p
      → payload ≡ some p
  unfolding submit_at
  sent_at s p none e h = absurd (ground arith)
  sent_at s p (some payload) e h = h

  -- Whatever was edited, loaded, previewed or answered before: what `submit` sends is the payload of
  -- the preview on show, and that was asked for on the form as it stands, for the member chosen in
  -- it.
  pub submit-IsPreviewed :
      (s : Message P) (p : Payload P)
      → Reach P s
      → s.sent ≡ none
      → (submit P s).sent ≡ some p
      → IsPreviewed s p
  unfolding submit can_prepare preview_current
  submit-IsPreviewed s p r e h = elim (Bool-cases (can_prepare P s)) [
    | inl open_now ↦
        previewed_at s s.preview_revision s.previewed p refl (Reach-IsConsistent r).shown
          (ground arith) (sent_at s p (payload_of P s.form) e (rw open_now at h))
    | inr shut ↦ absurd (ground arith)
  ]
