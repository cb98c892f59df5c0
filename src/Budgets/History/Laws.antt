-- ===== src/Budgets/History/Laws.antt =====
-- What every sequence of edits, clicks and answers keeps of the financial history
-- (frontend/src/app/budgets/components/financial-history/financial-history.component.ts).
use asl_bissieux.Prelude.{
  ℕ, ◌≡◌, refl, ◌≢◌, Bool, true, false, not, List, Option, none, some, arith,
}
use asl_bissieux.Prelude.Strings.{String}
use asl_bissieux.Budgets.Payments.{Cotisation}
use asl_bissieux.Budgets.History.{
  Kind, Entry, Form, Payload, Preview, Request, quiet, previewing, creating, History, edit, load,
  loaded, load_failed, init, start, cancel, payload_of, review, previewed, preview_failed, confirm,
  created, create_failed, destroy,
}

pub data Step (valid : Form → Bool) (h t : History) : Type 0 where
  edits : (f : Form) → t ≡ edit f h → Step valid h t
  loads : t ≡ load h → Step valid h t
  is_loaded :
      (n : ℕ) (id : String) (rows : List Cotisation) (es : List Entry)
      → t ≡ loaded n id rows es h
      → Step valid h t
  fails_load : (n : ℕ) → t ≡ load_failed n h → Step valid h t
  starts :
      (k : Kind) (e : Option Entry) (id today : String) → t ≡ start k e id today h → Step valid h t
  cancels : t ≡ cancel h → Step valid h t
  reviews : t ≡ review valid h → Step valid h t
  is_previewed : (p : Option Preview) → t ≡ previewed p h → Step valid h t
  fails_preview : (m : String) → t ≡ preview_failed m h → Step valid h t
  confirms : t ≡ confirm h → Step valid h t
  is_created : t ≡ created h → Step valid h t
  fails_create : (m : String) → t ≡ create_failed m h → Step valid h t
  destroys : t ≡ destroy h → Step valid h t

pub data Reach (valid : Form → Bool) : History → Type 0 where
  begin : (f : Form) → Reach valid (init f)
  step : {h t : History} → Reach valid h → Step valid h t → Reach valid t

-- What is shown as the preview was asked for by the form as it stands.
abbrev pub ShownMatches : Option Preview → Option Kind → History → Type 0
ShownMatches none k h = Unit
ShownMatches (some v) none h = ⊥
ShownMatches (some v) (some k) h =
    h.payload ≡ some (record (payload_of k h) { version = v.version })

abbrev pub AskedMatches : Request → Option Kind → History → Type 0
AskedMatches (previewing p) none h = ⊥
AskedMatches (previewing p) (some k) h = p ≡ payload_of k h
AskedMatches _ k h = Unit

abbrev pub is_active : Request → Bool
is_active quiet = false
is_active (previewing p) = true
is_active (creating p) = true

pub record IsConsistent (h : History) : Type 0 where
  pub busy_active : h.busy ≡ is_active h.request
  pub enabled_idle : h.enabled ≡ not h.busy
  pub shown : ShownMatches h.preview h.kind h
  pub asked : AskedMatches h.request h.kind h

edit-IsConsistent : {h : History} (f : Form) → IsConsistent h → IsConsistent (edit f h)
unfolding edit
edit-IsConsistent {h} f c = ground arith

load-IsConsistent : {h : History} → IsConsistent h → IsConsistent (load h)
unfolding load payload_of
load-IsConsistent {h} c = ground arith

previewed-IsConsistent :
    {h : History} (p : Option Preview) → IsConsistent h → IsConsistent (previewed p h)
unfolding previewed payload_of
previewed-IsConsistent {h} p c = ground arith

loaded-IsConsistent :
    {h : History} (n : ℕ) (id : String) (rows : List Cotisation) (es : List Entry)
    → IsConsistent h
    → IsConsistent (loaded n id rows es h)
unfolding loaded payload_of
loaded-IsConsistent {h} n id rows es c = ground arith

load_failed-IsConsistent : {h : History} (n : ℕ) → IsConsistent h → IsConsistent (load_failed n h)
unfolding load_failed payload_of
load_failed-IsConsistent {h} n c = ground arith

start-IsConsistent :
    {h : History} (k : Kind) (e : Option Entry) (id today : String)
    → IsConsistent h
    → IsConsistent (start k e id today h)
unfolding start payload_of
start-IsConsistent {h} k e id today c = ground arith

cancel-IsConsistent : {h : History} → IsConsistent h → IsConsistent (cancel h)
unfolding cancel payload_of
cancel-IsConsistent {h} c = ground arith

review-IsConsistent :
    {h : History} (valid : Form → Bool) → IsConsistent h → IsConsistent (review valid h)
unfolding review payload_of
review-IsConsistent {h} valid c = ground arith

preview_failed-IsConsistent :
    {h : History} (m : String) → IsConsistent h → IsConsistent (preview_failed m h)
unfolding preview_failed payload_of
preview_failed-IsConsistent {h} m c = ground arith

confirm-IsConsistent : {h : History} → IsConsistent h → IsConsistent (confirm h)
unfolding confirm payload_of
confirm-IsConsistent {h} c = ground arith

created-IsConsistent : {h : History} → IsConsistent h → IsConsistent (created h)
unfolding created payload_of
created-IsConsistent {h} c = ground arith

create_failed-IsConsistent :
    {h : History} (m : String) → IsConsistent h → IsConsistent (create_failed m h)
unfolding create_failed payload_of
create_failed-IsConsistent {h} m c = ground arith

destroy-IsConsistent : {h : History} → IsConsistent h → IsConsistent (destroy h)
unfolding destroy payload_of
destroy-IsConsistent {h} c = ground arith

init-IsConsistent : (f : Form) → IsConsistent (init f)
unfolding init
init-IsConsistent f = ground arith

Step-IsConsistent :
    {valid : Form → Bool} {h t : History} → Step valid h t → IsConsistent h → IsConsistent t
Step-IsConsistent (edits f e) c = rw e (edit-IsConsistent f c)
Step-IsConsistent (loads e) c = rw e (load-IsConsistent c)
Step-IsConsistent (is_loaded n id rows es e) c = rw e (loaded-IsConsistent n id rows es c)
Step-IsConsistent (fails_load n e) c = rw e (load_failed-IsConsistent n c)
Step-IsConsistent (starts k x id today e) c = rw e (start-IsConsistent k x id today c)
Step-IsConsistent (cancels e) c = rw e (cancel-IsConsistent c)
Step-IsConsistent {valid} (reviews e) c = rw e (review-IsConsistent valid c)
Step-IsConsistent (is_previewed p e) c = rw e (previewed-IsConsistent p c)
Step-IsConsistent (fails_preview m e) c = rw e (preview_failed-IsConsistent m c)
Step-IsConsistent (confirms e) c = rw e (confirm-IsConsistent c)
Step-IsConsistent (is_created e) c = rw e (created-IsConsistent c)
Step-IsConsistent (fails_create m e) c = rw e (create_failed-IsConsistent m c)
Step-IsConsistent (destroys e) c = rw e (destroy-IsConsistent c)

pub Reach-IsConsistent : {valid : Form → Bool} {h : History} → Reach valid h → IsConsistent h
Reach-IsConsistent (begin f) = init-IsConsistent f
Reach-IsConsistent (step r st) = Step-IsConsistent st (Reach-IsConsistent r)

-- The payload of a preview that is on show, with the version that the server gave it.
abbrev pub IsShown : History → Payload → Type 0
IsShown h p =
    (k : Kind) × (v : Preview) × (h.kind ≡ some k)
    × (h.preview ≡ some v)
    × (p ≡ record (payload_of k h) { version = v.version })

confirm-IsShown_at :
    (h : History) (p : Payload) (ko : Option Kind) (vo : Option Preview)
    → h.kind ≡ ko
    → h.preview ≡ vo
    → IsConsistent h
    → h.request ≢ creating p
    → (confirm h).request ≡ creating p
    → IsShown h p
unfolding confirm
confirm-IsShown_at h p (some k) (some v) ek ev c fresh e = (k, v, ek, ev, ground arith)
confirm-IsShown_at h p none (some v) ek ev c fresh e = absurd (ground arith)
confirm-IsShown_at h p _ none ek ev c fresh e = absurd (ground arith)

-- Whatever was edited, loaded, cancelled or answered before: what `confirm` sends is the form as
-- it stands, of the kind that is open, under the version of the preview that is shown.
pub confirm-IsShown :
    (valid : Form → Bool) (h : History) (p : Payload)
    → Reach valid h
    → h.request ≢ creating p
    → (confirm h).request ≡ creating p
    → IsShown h p
confirm-IsShown valid h p r fresh e =
    confirm-IsShown_at h p h.kind h.preview refl refl (Reach-IsConsistent r) fresh e

-- While the component is busy with a request, `review` and `confirm` start no other, the form is
-- locked and the operation stays open: no edit, no `start` and no `cancel` changes anything.
pub busy_locked :
    (valid : Form → Bool) (h : History) (f : Form) (k : Kind) (x : Option Entry) (id today : String)
    → Reach valid h
    → h.busy ≡ true
    → (review valid h ≡ h)
      × (confirm h ≡ h)
      × (edit f h ≡ h)
      × (start k x id today h ≡ h)
      × (cancel h ≡ h)
unfolding review confirm edit start cancel
busy_locked valid h f k x id today r b = let c = Reach-IsConsistent r in ground arith

-- After a creation that failed the preview is gone: `confirm` then changes nothing, the history is
-- being read again, and the message of the failure is shown.
pub confirm-create_failed :
    (valid : Form → Bool) (h : History) (p : Payload) (m : String)
    → Reach valid h
    → h.request ≡ creating p
    → h.alive ≡ true
    → (confirm (create_failed m h) ≡ create_failed m h)
      × ((create_failed m h).loading ≡ true)
      × ((create_failed m h).error ≡ m)
unfolding confirm create_failed
confirm-create_failed valid h p m r e a = ground arith
