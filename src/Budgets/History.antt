-- ===== src/Budgets/History.antt =====
-- frontend/src/app/budgets/components/financial-history/financial-history.component.ts: a refund
-- or an adjustment is prepared on a form, previewed by the server, then confirmed.
-- The answers of the API are events; `takeUntil` drops an answer to a load that another load has
-- replaced, and every answer once the component is destroyed.
pub mod Laws
use asl_bissieux.Prelude.{
  ℕ, ◌+◌, Bool, true, false, ◌&&◌, ◌||◌, not, List, [], Option, none, some, if◌then◌else◌, ◌==◌,
  find?, any, is_some, get_or,
}
use asl_bissieux.Prelude.Int.{ℤ, pos, ◌-ℤ◌, ltb_ℤ}
use asl_bissieux.Prelude.Strings.{String, str_eq}
use asl_bissieux.Prelude.Text.{trim}
use asl_bissieux.Budgets.Payments.{Cotisation, id_is}

pub data Kind : Type 0 where
  refund adjustment : Kind

-- `ModelsFinancialEntry`
pub record Entry : Type 0 where
  pub id : Option String
  pub amount : Option ℤ
  pub reverses_id : Option String

-- The form's controls.
pub record Form : Type 0 where
  pub amount : ℤ
  pub direction : String
  pub date : String
  pub reason : String
  pub reference : String

pub record Payload : Type 0 where
  pub id : String
  pub kind : Kind
  pub amount : ℤ
  pub date : String
  pub reason : String
  pub reference : String
  pub reverses_id : Option String
  pub version : Option ℕ

-- `ModelsFinancialPreview`
pub record Preview : Type 0 where
  pub version : Option ℕ

-- What `takeUntil(destroy$)` waits for beside the load.
pub data Request : Type 0 where
  quiet : Request
  previewing creating : Payload → Request

pub record History : Type 0 where
  pub form : Form
  -- The controls are enabled.
  pub enabled : Bool
  pub cotisation : Option Cotisation
  pub entries : List Entry
  pub loading : Bool
  pub load_error : Bool
  pub error : String
  pub busy : Bool
  pub kind : Option Kind
  pub reversal : Option Entry
  pub preview : Option Preview
  pub payload : Option Payload
  pub operation_id : String
  pub alive : Bool
  -- The last load, and whether it runs.
  pub load_number : ℕ
  pub request : Request

abbrev pub abs : ℤ → ℤ
abs a = if ltb_ℤ a (pos 0) then pos 0 -ℤ a else a

-- `this.form.valueChanges`: an edit, possible while the controls are enabled.
unfoldable pub edit : Form → History → History
edit form h =
    if h.enabled then record h { form = form; preview = none; payload = none; error = "" } else h

-- `load`
unfoldable pub load : History → History
load h =
    if h.alive
    then record h {
      preview = none;
      payload = none;
      loading = true;
      load_error = false;
      load_number = h.load_number + 1;
    }
    else h

-- The rows and the entries of the load with this number.
unfoldable pub loaded : ℕ → String → List Cotisation → List Entry → History → History
loaded n cotisation_id rows entries h =
    if h.alive && n == h.load_number && h.loading
    then record h {
      cotisation = find? (λ c. id_is cotisation_id c.id) rows;
      entries = entries;
      loading = false;
      load_error = not (is_some (find? (λ c. id_is cotisation_id c.id) rows));
    }
    else h

-- It fails.
unfoldable pub load_failed : ℕ → History → History
load_failed n h =
    if h.alive && n == h.load_number && h.loading
    then record h { loading = false; load_error = true }
    else h

-- `ngOnInit` on a new component, whose form is `form`.
unfoldable pub init : Form → History
unfolding load
init form = load (record {
  form = form;
  enabled = true;
  cotisation = none;
  entries = [];
  loading = true;
  load_error = false;
  error = "";
  busy = false;
  kind = none;
  reversal = none;
  preview = none;
  payload = none;
  operation_id = "";
  alive = true;
  load_number = 0;
  request = quiet;
})

-- `start`: `id` is what `crypto.randomUUID()` returns, `today` what `today()` does. The reset of
-- the form announces a change of its values.
unfoldable pub start : Kind → Option Entry → String → String → History → History
start kind entry id today h = if h.busy || h.loading || h.load_error then h else record h {
  kind = some kind;
  reversal = entry;
  preview = none;
  payload = none;
  error = "";
  operation_id = id;
  form = record {
    amount = elim entry [ none ↦ pos 0 | some e ↦ abs (get_or e.amount (pos 0)) ];
    direction = "increase";
    date = today;
    reason = "";
    reference = "";
  };
}

-- `cancel`
unfoldable pub cancel : History → History
cancel h = if h.busy then h else record h { kind = none; preview = none; payload = none }

is_decrease : Kind → String → Bool
is_decrease adjustment direction = str_eq direction "decrease"
is_decrease refund direction = false

-- The payload that the form makes, without its version.
unfoldable pub payload_of : Kind → History → Payload
unfolding is_decrease
payload_of kind h = record {
  id = h.operation_id;
  kind = kind;
  amount = if is_decrease kind h.form.direction then pos 0 -ℤ h.form.amount else h.form.amount;
  date = h.form.date;
  reason = trim h.form.reason;
  reference = trim h.form.reference;
  reverses_id = elim h.reversal [ none ↦ none | some e ↦ e.id ];
  version = none;
}

abbrev pub empty_reason : String
empty_reason = "Indique le motif de cette opération."

-- The request of `review` for a kind, on a valid form.
unfoldable pub ask : Kind → History → History
ask kind h =
    let payload = payload_of kind h in
    if str_eq payload.reason ""
    then record h { error = empty_reason }
    else record h { busy = true; enabled = false; error = ""; request = previewing payload }

-- `review`; `valid` is the verdict of the form's validators.
unfoldable pub review : (Form → Bool) → History → History
unfolding ask
review valid h = elim h.kind [
  | none ↦ h
  | some kind ↦ if h.busy || not (valid h.form) then h else ask kind h
]

abbrev pub version_of : Option Preview → Option ℕ
version_of none = none
version_of (some p) = p.version

-- The answer to the preview: `p` may be null.
unfoldable pub previewed : Option Preview → History → History
previewed p h = elim h.request [
  | previewing payload ↦
      if h.alive
      then record h {
        busy = false;
        enabled = true;
        preview = p;
        payload = some (record payload { version = version_of p });
        request = quiet;
      }
      else h
  | _ ↦ h
]

-- It fails, with the message to show.
unfoldable pub preview_failed : String → History → History
preview_failed message h = elim h.request [
  | previewing payload ↦
      if h.alive
      then record h { busy = false; enabled = true; error = message; request = quiet }
      else h
  | _ ↦ h
]

-- `confirm`
unfoldable pub confirm : History → History
confirm h = elim h.preview [
  | none ↦ h
  | some p ↦ elim h.payload [
    | none ↦ h
    | some payload ↦
        if h.busy
        then h
        else record h { busy = true; enabled = false; error = ""; request = creating payload }
  ]
]

-- The operation is recorded: `cancel`, then `load`.
unfoldable pub created : History → History
unfolding load cancel
created h = elim h.request [
  | creating payload ↦
      if h.alive
      then load (cancel (record h { busy = false; enabled = true; request = quiet }))
      else h
  | _ ↦ h
]

-- It fails, with the message to show: the history is read again.
unfoldable pub create_failed : String → History → History
unfolding load
create_failed message h = elim h.request [
  | creating payload ↦
      if h.alive
      then load (record h {
        busy = false;
        enabled = true;
        preview = none;
        payload = none;
        error = message;
        request = quiet;
      })
      else h
  | _ ↦ h
]

-- `ngOnDestroy`
unfoldable pub destroy : History → History
destroy h = record h { alive = false }

-- `reversed`: an entry that another one reverses.
unfoldable pub reversed : Entry → List Entry → Bool
reversed entry entries = elim entry.id [
  | none ↦ any (λ e. not (is_some e.reverses_id)) entries
  | some id ↦ any (λ e. id_is id e.reverses_id) entries
]
