-- ===== src/Budgets/Message/Laws.antt =====
-- What the form of the e-mails of a budget keeps between a preview and a creation
-- (frontend/src/app/budgets/components/budget-email-form/budget-email-form.component.ts).
pub mod Sent
use asl_bissieux.Prelude.{
  ℕ, ◌+◌, ◌≤◌, ◌≡◌, refl, sym, ◌∙◌, Bool, true, false, ◌&&◌, ◌||◌, not, List, Option, none, some,
  arith, if◌then◌else◌, ◌==◌, is_some, Bool-cases, inl, inr,
}
use mathlib.Core.Path.{subst}
use asl_bissieux.Prelude.Strings.{String, str_eq}
use asl_bissieux.Budgets.Recipients.{Due}
use asl_bissieux.Budgets.Message.Errors.{Failure, Problem, correct_data}
use asl_bissieux.Budgets.Message.{
  LoadError, no_budget, Template, Built, Form, Platform, Payload, Asked, Message, check_template,
  check_data, update_recipients, edit, allow, load_at, load, loaded, load_failed, can_preview,
  preview_current, can_prepare, payload_of, preview_at, preview, answer_at, answered,
  preview_failed, submit_at, submit, created, create_failed, cancel, new, is_revision, is_complete,
}

module _ (P : Platform) where
  open P use {U}

  pub data Step (s t : Message P) : Type 0 where
    edits : (f : Form) → t ≡ edit P f s → Step s t
    allows : (b : Bool) → t ≡ allow P b s → Step s t
    loads : (id : Option String) → t ≡ load P id s → Step s t
    is_loaded : (ts : List Template) (cs : List (Due U)) → t ≡ loaded P ts cs s → Step s t
    fails_load : t ≡ load_failed P s → Step s t
    previews : t ≡ preview P s → Step s t
    answers : (r : Option Built) → t ≡ answered P r s → Step s t
    fails_preview : (f : Failure) → t ≡ preview_failed P f s → Step s t
    submits : t ≡ submit P s → Step s t
    is_created : t ≡ created P s → Step s t
    fails_create : (f : Failure) → t ≡ create_failed P f s → Step s t
    cancels : t ≡ cancel P s → Step s t

  pub data Reach : Message P → Type 0 where
    start : Reach (new P)
    step : {s t : Message P} → Reach s → Step s t → Reach t

  -- The request is that of the form as it stands, for the member that is chosen in it.
  pub record IsOf (form : Form) (a : Asked P) : Type 0 where
    pub payload : payload_of P form ≡ some a.payload
    pub member_id : a.member_id ≡ form.preview_member

  -- A request of the present revision is of the present form.
  abbrev pub AskedAt : ℕ → Bool → Form → Option (Asked P) → Type 0
  AskedAt revision ready form none = Unit
  AskedAt revision ready form (some a) =
      (a.revision ≤ revision) × (a.revision ≡ revision → (ready ≡ true) × IsOf form a)

  abbrev pub ShownAt : ℕ → Bool → Form → Option ℕ → Option (Asked P) → Type 0
  ShownAt revision ready form none a = Unit
  ShownAt revision ready form (some r) none = ⊥
  ShownAt revision ready form (some r) (some a) =
      (r ≤ revision) × (r ≡ revision → (ready ≡ true) × IsOf form a)

  pub record IsConsistent (s : Message P) : Type 0 where
    pub asked : AskedAt s.revision s.ready s.form s.asked
    pub shown : ShownAt s.revision s.ready s.form s.preview_revision s.previewed
    pub loading : s.loading ≡ true → s.ready ≡ false

  -- The fields that a change of the form leaves, and that of the recipients.
  record Kept (s t : Message P) : Type 0 where
    asked : t.asked ≡ s.asked
    shown : t.preview_revision ≡ s.preview_revision
    previewed : t.previewed ≡ s.previewed
    loading : t.loading ≡ s.loading
    ready : t.ready ≡ s.ready
    revision : t.revision ≡ s.revision

  update_recipients-Kept : (s : Message P) → Kept s (update_recipients P s)
  unfolding update_recipients
  update_recipients-Kept s = ground arith

  -- A revision that has passed is not the present one.
  AskedAt-newer :
      (n : ℕ) (b c : Bool) (f g : Form) (a : Option (Asked P))
      → AskedAt n b f a
      → AskedAt (n + 1) c g a
  AskedAt-newer n b c f g none h = tt
  AskedAt-newer n b c f g (some a) h = (omega (arith, h.0), λ e. absurd (omega (arith, h.0)))

  ShownAt-newer :
      (n : ℕ) (b c : Bool) (f g : Form) (r : Option ℕ) (a : Option (Asked P))
      → ShownAt n b f r a
      → ShownAt (n + 1) c g r a
  ShownAt-newer n b c f g none a h = tt
  ShownAt-newer n b c f g (some r) none h = h
  ShownAt-newer n b c f g (some r) (some a) h =
      (omega (arith, h.0), λ e. absurd (omega (arith, h.0)))

  -- Before the form is ready no request is of the present revision.
  AskedAt-unready :
      (n : ℕ) (c : Bool) (f g : Form) (a : Option (Asked P)) → AskedAt n false f a → AskedAt n c g a
  AskedAt-unready n c f g none h = tt
  AskedAt-unready n c f g (some a) h = (h.0, λ e. let (r, o) = h.1 e in cc)

  ShownAt-unready :
      (n : ℕ) (c : Bool) (f g : Form) (r : Option ℕ) (a : Option (Asked P))
      → ShownAt n false f r a
      → ShownAt n c g r a
  ShownAt-unready n c f g none a h = tt
  ShownAt-unready n c f g (some r) none h = h
  ShownAt-unready n c f g (some r) (some a) h = (h.0, λ e. let (x, o) = h.1 e in cc)

  -- A state with the same requests, under the next revision.
  newer-IsConsistent :
      (s u t : Message P)
      → Kept u t
      → u.asked ≡ s.asked
      → u.preview_revision ≡ s.preview_revision
      → u.previewed ≡ s.previewed
      → (u.loading ≡ true → u.ready ≡ false)
      → u.revision ≡ s.revision + 1
      → IsConsistent s
      → IsConsistent t
  newer-IsConsistent s u t k ea es ep l er c = record {
    asked =
        rw (k.asked, k.revision, ea, er)
          (AskedAt-newer s.revision s.ready t.ready s.form t.form s.asked c.asked);
    shown =
        rw (k.shown, k.previewed, k.revision, es, ep, er)
          (ShownAt-newer s.revision s.ready t.ready s.form t.form s.preview_revision s.previewed
            c.shown);
    loading = rw (k.loading, k.ready) l;
  }

  -- Both branches of a test.
  pub if-IsConsistent :
      (b : Bool) (t u : Message P)
      → (b ≡ true → IsConsistent t)
      → (b ≡ false → IsConsistent u)
      → IsConsistent (if b then t else u)
  if-IsConsistent true t u f g = f refl
  if-IsConsistent false t u f g = g refl

  pub edit-IsConsistent : (f : Form) (s : Message P) → IsConsistent s → IsConsistent (edit P f s)
  unfolding edit check_data check_template
  edit-IsConsistent f s c =
      let u = check_template P (record s { form = f; revision = s.revision + 1 }) in
      let k = update_recipients-Kept u in
      if-IsConsistent s.enabled (check_data P (update_recipients P u)) s
        (λ e.
          newer-IsConsistent s u (check_data P (update_recipients P u))
            (record {
              asked = k.asked;
              shown = k.shown;
              previewed = k.previewed;
              loading = k.loading;
              ready = k.ready;
              revision = k.revision;
            })
            refl refl refl c.loading refl c)
        (λ e. c)

  -- The rows have come: the requests are those of before, and the form becomes ready.
  settled-IsConsistent :
      (s u t : Message P)
      → Kept u t
      → u.asked ≡ s.asked
      → u.preview_revision ≡ s.preview_revision
      → u.previewed ≡ s.previewed
      → u.revision ≡ s.revision
      → s.ready ≡ false
      → IsConsistent s
      → IsConsistent (record t { loading = false; ready = true })
  settled-IsConsistent s u t k ea es ep er unready c =
      let asked : AskedAt s.revision false s.form s.asked =
        subst (λ b. AskedAt s.revision b s.form s.asked) unready c.asked in
      let shown : ShownAt s.revision false s.form s.preview_revision s.previewed =
        subst (λ b. ShownAt s.revision b s.form s.preview_revision s.previewed) unready c.shown in
      record {
        asked =
            rw (k.asked, k.revision, ea, er)
              (AskedAt-unready s.revision true s.form t.form s.asked asked);
        shown =
            rw (k.shown, k.previewed, k.revision, es, ep, er)
              (ShownAt-unready s.revision true s.form t.form s.preview_revision s.previewed shown);
        loading = λ h. cc;
      }

  pub loaded-IsConsistent :
      (ts : List Template) (cs : List (Due U)) (s : Message P)
      → IsConsistent s
      → IsConsistent (loaded P ts cs s)
  unfolding loaded check_template
  loaded-IsConsistent ts cs s c =
      let u = record s { templates = ts; cotisations = cs } in
      let k = update_recipients-Kept u in
      let t = check_template P (update_recipients P u) in
      if-IsConsistent s.loading (record t { loading = false; ready = true }) s
        (λ e.
          settled-IsConsistent s u t
            (record {
              asked = k.asked;
              shown = k.shown;
              previewed = k.previewed;
              loading = k.loading;
              ready = k.ready;
              revision = k.revision;
            })
            refl refl refl refl (c.loading e) c)
        (λ e. c)

  load_begun :
      (s : Message P)
      → IsConsistent s
      → IsConsistent (record s {
        loading = true;
        ready = false;
        load_error = none;
        error = none;
        revision = s.revision + 1;
      })
  load_begun s c = record {
    asked = AskedAt-newer s.revision s.ready false s.form s.form s.asked c.asked;
    shown =
        ShownAt-newer s.revision s.ready false s.form s.form s.preview_revision s.previewed c.shown;
    loading = λ h. refl;
  }

  -- A message on the form changes nothing of the requests.
  pub noted :
      (s : Message P) (l : Option LoadError) (e : Option Problem)
      → IsConsistent s
      → IsConsistent (record s { load_error = l; error = e })
  noted s l e c = record { asked = c.asked; shown = c.shown; loading = c.loading }

  load_at-IsConsistent :
      (id : Option String) (s : Message P) → IsConsistent s → IsConsistent (load_at P id s)
  unfolding load_at
  load_at-IsConsistent none s c = noted s (some no_budget) s.error c
  load_at-IsConsistent (some id) s c =
      if-IsConsistent (str_eq id "") _ _ (λ e. noted s (some no_budget) s.error c)
        (λ e. load_begun s c)

  pub load-IsConsistent :
      (id : Option String) (s : Message P) → IsConsistent s → IsConsistent (load P id s)
  unfolding load
  load-IsConsistent id s c =
      if-IsConsistent (s.loading || s.creating) _ _ (λ e. c)
        (λ e.
          if-IsConsistent (s.ready && not s.data_valid) _ _
            (λ f. noted s s.load_error (some correct_data) c) (λ f. load_at-IsConsistent id s c))
