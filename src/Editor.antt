-- ===== src/Editor.antt =====
-- frontend/src/app/shared/components/template-data-editor/template-data-editor.component.ts: the
-- editor of the values of an e-mail template, a JSON object that is edited row by row or as text.
-- The calls of Angular's callbacks are recorded: `reported` is the last text given to `change`. The
-- focus and the detection of changes are left out.
pub mod Values
pub mod Rows
pub mod Laws
pub mod Modes
pub mod RoundTrip
mod Tests
use asl_bissieux.Prelude.{
  ℕ, zero, suc, Bool, true, false, ◌&&◌, ◌||◌, not, List, [], ◌∷◌, ◌++◌, map, Option, none, some,
  if◌then◌else◌, any, find?, filter, is_some, get_or, get_elem?,
}
use asl_bissieux.Prelude.Strings.{String, str_eq}
use asl_bissieux.Prelude.Text.{trim}
use Values.{
  Value, null, boolean, number, text, nested, JsonText, Problem, missing, Suggestion,
  validate_template_values, Parsed, object, fails, parse_members,
}
use Rows.{Row, FieldType, text_type, make_field, Emission, emit_rows, row_of, ensure_suggestions}

pub data Notice : Type 0 where
  -- "Ce paramétrage nécessite le mode avancé…"
  needs_advanced : Notice
  -- "Corrige ou supprime la valeur incomplète…"
  incomplete : Notice

-- `isSuggested`
pub is_suggested : List Suggestion → String → Bool
is_suggested [] name = false
is_suggested (s ∷ rest) name =
    (elim s.name [ none ↦ false | some n ↦ str_eq n name ]) || is_suggested rest name

abbrev pub includes : List String → String → Bool
includes names name = any (λ other. str_eq other name) names

-- `@Input() suggestedFields`, `@Input() preserveRoots`
pub record Inputs : Type 0 where
  pub suggested : List Suggestion
  pub preserve_roots : List String

-- `splice`
unfoldable pub remove_at {ℓ} : {A : Type ℓ} → ℕ → List A → List A
remove_at n [] = []
remove_at zero (x ∷ xs) = xs
remove_at (suc n) (x ∷ xs) = x ∷ remove_at n xs

unfoldable pub replace_at {ℓ} : {A : Type ℓ} → ℕ → A → List A → List A
replace_at n y [] = []
replace_at zero y (x ∷ xs) = y ∷ xs
replace_at (suc n) y (x ∷ xs) = x ∷ replace_at n y xs

module _ (J : JsonText) where
  open J use {Number, Nested, write_members}

  pub record Editor : Type 0 where
    pub preserved : List (String × Value Number Nested)
    pub rows : List Row
    pub missing_only : Bool
    pub advanced : Bool
    pub disabled : Bool
    pub raw : String
    pub error : Option Problem
    pub notice : Option Notice
    pub reported : Option String

  -- `checkMissing`
  unfoldable pub check_missing : Editor → Editor
  check_missing s = elim (find? (λ row. row.suggested && row.pending) s.rows) [
    | some row ↦
        if not (is_some s.error) || s.missing_only
        then record s { error = some (missing row.name); missing_only = true }
        else s
    | none ↦ if s.missing_only then record s { error = none; missing_only = false } else s
  ]

  is_object : Value Number Nested → Bool
  is_object (nested j) = true
  is_object _ = false

  -- An entry that only the advanced mode can show.
  unfoldable pub needs_text : Inputs → String × Value Number Nested → Bool
  unfolding is_object is_suggested
  needs_text i (name, value) =
      not (includes i.preserve_roots name)
      && (str_eq (trim name) ""
          || not (str_eq name (trim name))
          || (is_object value && not (is_suggested i.suggested name)))

  unfoldable pub rows_of : Inputs → List (String × Value Number Nested) → List Row
  rows_of i [] = []
  rows_of i ((name, value) ∷ entries) =
      if includes i.preserve_roots name
      then rows_of i entries
      else row_of J name value ∷ rows_of i entries

  -- `loadFields`: the new state, or `none` for `false`.
  unfoldable pub load_fields : Inputs → List (String × Value Number Nested) → Editor → Option Editor
  unfolding needs_text rows_of ensure_suggestions
  load_fields i entries s =
      if any (needs_text i) entries
      then none
      else some (record s {
        preserved = filter (λ (name, _). includes i.preserve_roots name) entries;
        rows = ensure_suggestions i.suggested (rows_of i entries);
      })

  -- `emitFields`, up to the test for missing values.
  unfoldable pub emitted : Editor → Editor
  unfolding emit_rows
  emitted s =
      let out = emit_rows J s.rows (map (λ (name, _). name) s.preserved) s.preserved in
      record s {
        error = out.problem;
        missing_only = false;
        notice = none;
        raw = elim out.problem [ none ↦ write_members out.entries | some p ↦ s.raw ];
      }

  -- `emitFields`
  unfoldable pub emit_fields : Editor → Editor
  unfolding emitted check_missing
  emit_fields s = let t = check_missing (emitted s) in record t { reported = some t.raw }

  -- `parse`: the entries of the text, and the error.
  unfoldable pub parse : Editor → Editor × Option (List (String × Value Number Nested))
  unfolding parse_members
  parse s = elim (parse_members J s.raw) [
    | object entries ↦ (record s { missing_only = false; error = none }, some entries)
    | fails p ↦ (record s { missing_only = false; error = some p }, none)
  ]

  -- `writeValue`
  unfoldable pub write_value : Inputs → Option String → Editor → Editor
  unfolding parse load_fields check_missing validate_template_values
  write_value i value s =
      let (t, parsed) = parse (record s { raw = get_or value "{}" }) in
      elim parsed [
        | none ↦ record t { advanced = true }
        | some entries ↦ elim (load_fields i entries t) [
          | none ↦ record t {
            advanced = true;
            error = validate_template_values J t.raw i.suggested;
          }
          | some u ↦ check_missing (record u { advanced = false })
        ]
      ]

  -- `validate`, which the form asks for.
  unfoldable pub validate : Inputs → Editor → Option Problem
  unfolding validate_template_values
  validate i s = elim s.error [
    | some p ↦ some p
    | none ↦ validate_template_values J s.raw i.suggested
  ]

  -- `ngOnChanges`
  unfoldable pub on_changes : Inputs → Editor → Editor
  unfolding ensure_suggestions check_missing
  on_changes i s =
      if s.advanced
      then s
      else check_missing (record s { rows = ensure_suggestions i.suggested s.rows })

  -- `addField`
  unfoldable pub add_field : Editor → Editor
  unfolding emit_fields
  add_field s =
      if s.disabled || s.advanced
      then s
      else emit_fields (record s { rows = s.rows ++ make_field "" text_type "" ∷ [] })

  -- `removeField`, at an index that is not negative.
  unfoldable pub remove_field : ℕ → Editor → Editor
  unfolding emit_fields remove_at
  remove_field n s = elim (get_elem? s.rows n) [
    | none ↦ s
    | some row ↦
        if s.disabled || row.suggested
        then s
        else emit_fields (record s { rows = remove_at n s.rows })
  ]

  -- A control of a row changes: the row is pending no longer, then the rows are read.
  unfoldable pub edit_field : ℕ → String → FieldType → String → Editor → Editor
  unfolding emit_fields replace_at
  edit_field n name type value s = elim (get_elem? s.rows n) [
    | none ↦ s
    | some row ↦
        if s.disabled
        then s
        else emit_fields (record s {
          rows =
              replace_at n (record row { name = name; type = type; value = value; pending = false })
                s.rows;
        })
  ]

  -- `toggleMode`
  unfoldable pub toggle_mode : Inputs → Editor → Editor
  unfolding parse load_fields check_missing validate_template_values
  toggle_mode i s =
      if s.disabled
      then s
      else if s.advanced
      then (let (t, parsed) = parse (record s { notice = none }) in
          elim parsed [
            | none ↦ t
            | some entries ↦ elim (load_fields i entries t) [
              | none ↦ record t { notice = some needs_advanced }
              | some u ↦ check_missing (record u { advanced = false })
            ]
          ])
      else if is_some s.error && not s.missing_only
      then record s { notice = some incomplete }
      else record s {
        notice = none;
        advanced = true;
        error = validate_template_values J s.raw i.suggested;
        missing_only = is_some (validate_template_values J s.raw i.suggested);
      }

  -- `updateRaw`
  unfoldable pub update_raw : Inputs → String → Editor → Editor
  unfolding parse validate_template_values
  update_raw i raw s =
      let (t, parsed) = parse (record s { raw = raw }) in
      elim t.error [
        | none ↦ record t {
          error = validate_template_values J raw i.suggested;
          reported = some raw;
        }
        | some p ↦ record t { reported = some raw }
      ]
