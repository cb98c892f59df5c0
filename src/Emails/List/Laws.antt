-- ===== src/Emails/List/Laws.antt =====
-- What a confirmed action on e-mails acts on
-- (frontend/src/app/emails/components/email-list/email-list.component.ts).
use asl_bissieux.Prelude.{
  ◌+◌, ◌≤◌, ◌≡◌, refl, sym, ◌∙◌, ◌≢◌, ◌⊎◌, inl, inr, Bool, true, false, ◌&&◌, not, List, [], ◌∷◌,
  Option, none, some, arith, if◌then◌else◌, any, All, Bool-cases,
}
use asl_bissieux.Prelude.Strings.{String, eq_iff}
use asl_bissieux.Emails.List.{
  Email, EmailList, same_text, has_text, can_act, all, Event, loads, campaign_asked, handle, run,
  Pending, act, is_empty, is_usable, confirm_rows, answer,
}

-- No load of the rows and no load of the campaign begins.
abbrev pub is_quiet : Event → Bool
is_quiet (loads flag) = not flag
is_quiet campaign_asked = false
is_quiet _ = true

handle-revision :
    (s : EmailList) (e : Event)
    → (handle s e).revision ≡ (if is_quiet e then s.revision else s.revision + 1)
unfolding handle
handle-revision s (loads flag) = ground arith
handle-revision s e = ground arith

le-run : (s : EmailList) (es : List Event) → s.revision ≤ (run s es).revision
unfolding run
le-run s [] = omega arith
le-run s (e ∷ es) = ground (arith, le-run (handle s e) es, handle-revision s e)

quiet_of_revision :
    (s : EmailList) (es : List Event) → s.revision ≡ (run s es).revision → all is_quiet es ≡ true
unfolding run
quiet_of_revision s [] h = refl
quiet_of_revision s (e ∷ es) h =
    ground (arith, quiet_of_revision (handle s e) es, le-run (handle s e) es, handle-revision s e)

confirm_rows-some :
    (s : EmailList) (rows : List Email) (p : Pending)
    → confirm_rows s rows ≡ some p
    → (p.frozen ≡ rows) × (p.revision ≡ s.revision) × (is_empty rows ≡ false)
unfolding confirm_rows
confirm_rows-some s rows p e = ground arith

answer_act :
    (s : EmailList) (p : Pending) (confirmed : Bool) (frozen : List Email)
    → answer s p confirmed ≡ act frozen
    → (frozen ≡ p.frozen) × (p.revision ≡ s.revision) × (all (is_usable s) p.frozen ≡ true)
unfolding answer
answer_act s p true frozen e = ground arith
answer_act s p false frozen e = cc

nonempty : (rows : List Email) → is_empty rows ≡ false → rows ≢ []
nonempty [] e = λ h. cc
nonempty (row ∷ rows) e = λ h. cc

-- A row of the list has the identifier and the state of this one.
abbrev pub Stands : List Email → Email → Type 0
Stands [] row = ⊥
Stands (item ∷ items) row = ((item.id ≡ row.id) × (item.state ≡ row.state)) ⊎ Stands items row

same_text-eq : (a b : Option String) → same_text a b ≡ true → a ≡ b
same_text-eq none none h = refl
same_text-eq none (some b) h = cc
same_text-eq (some a) none h = cc
same_text-eq (some a) (some b) h = ground (arith, eq_iff a b)

any-Stands :
    (items : List Email) (row : Email)
    → any (λ item. same_text item.id row.id && same_text item.state row.state) items ≡ true
    → Stands items row
any-Stands [] row h = absurd (ground arith)
any-Stands (item ∷ items) row h =
    elim (Bool-cases (same_text item.id row.id && same_text item.state row.state)) [
      | inl same ↦ inl (
        same_text-eq item.id row.id (ground arith),
        same_text-eq item.state row.state (ground arith),
      )
      | inr other ↦ inr (any-Stands items row (ground arith))
    ]

named : (id : Option String) → has_text id ≡ true → (id ≢ none) × (id ≢ some "")
named none h = (absurd (ground arith), absurd (ground arith))
named (some text) h = (λ e. cc, λ e. ground (arith, eq_iff text ""))

-- The row has an identifier, and stands in the list.
abbrev pub IsListed : List Email → Email → Type 0
IsListed items row = (row.id ≢ none) × (row.id ≢ some "") × Stands items row

is_usable-IsListed : (s : EmailList) (row : Email) → is_usable s row ≡ true → IsListed s.visible row
unfolding is_usable
is_usable-IsListed s row h =
    let (given, filled) = named row.id (ground arith) in
    (given, filled, any-Stands s.visible row (ground arith))

all-IsListed :
    (s : EmailList) (rows : List Email)
    → all (is_usable s) rows ≡ true
    → All (IsListed s.visible) rows
all-IsListed s [] h = tt
all-IsListed s (row ∷ rows) h =
    (is_usable-IsListed s row (ground arith), all-IsListed s rows (ground arith))

-- Nothing is loaded or runs.
pub record IsReady (s : EmailList) : Type 0 where
  pub rows_read : s.loading ≡ false
  pub campaign_read : s.campaign_loading ≡ false
  pub campaign_known : s.campaign_error ≡ false
  pub no_action : s.busy_action ≡ false

is_usable-IsReady : (s : EmailList) (row : Email) → is_usable s row ≡ true → IsReady s
unfolding is_usable can_act
is_usable-IsReady s row h = ground arith

all-IsReady :
    (s : EmailList) (rows : List Email) → rows ≢ [] → all (is_usable s) rows ≡ true → IsReady s
all-IsReady s [] some_rows h = absurd (some_rows refl)
all-IsReady s (row ∷ rows) some_rows h = is_usable-IsReady s row (ground arith)

-- What the dialog lets through.
pub record IsSafe (s : EmailList) (es : List Event) (rows frozen : List Email) : Type 0 where
  pub same_rows : frozen ≡ rows
  pub some_rows : rows ≢ []
  pub listed : All (IsListed (run s es).visible) rows
  pub ready : IsReady (run s es)
  pub quiet : all is_quiet es ≡ true

-- Whatever happens while the dialog is open, an action that is confirmed runs on the rows that were
-- shown in it, at least one; each has an identifier, and a row with that identifier and the same
-- state stands in the list at the time of the answer; no action runs, the rows and the campaign are
-- read, without an error of the campaign, and no load of either began while the dialog was open.
pub answer-IsSafe :
    (s : EmailList) (rows frozen : List Email) (p : Pending) (es : List Event) (confirmed : Bool)
    → confirm_rows s rows ≡ some p
    → answer (run s es) p confirmed ≡ act frozen
    → IsSafe s es rows frozen
answer-IsSafe s rows frozen p es confirmed e h =
    let (shown, opened, some_rows) = confirm_rows-some s rows p e in
    let (acted, revised, usable) = answer_act (run s es) p confirmed frozen h in
    let still : all (is_usable (run s es)) rows ≡ true = rw (← shown) usable in
    record {
      same_rows = acted ∙ shown;
      some_rows = nonempty rows some_rows;
      listed = all-IsListed (run s es) rows still;
      ready = all-IsReady (run s es) rows (nonempty rows some_rows) still;
      quiet = quiet_of_revision s es (sym opened ∙ revised);
    }
