-- ===== src/Editor/Rows.antt =====
-- frontend/src/app/shared/components/template-data-editor/template-data-editor.component.ts: the
-- rows of the editor, made from the values (`loadFields`, `ensureSuggestions`) and read back
-- (`emitFields`). The sets `pending` and `suggestedRows` are marks of the rows.
use Prim.Native.String
use Prim.Native.Char.{code}
use asl_bissieux.Prelude.{
  Bool, true, false, List, [], ◌∷◌, ◌++◌, map, Option, none, some, if◌then◌else◌, any, ◌==◌,
}
use asl_bissieux.Prelude.Strings.{String, str_eq}
use asl_bissieux.Prelude.Text.{trim}
use asl_bissieux.Editor.Values.{
  Value, null, boolean, number, text, nested, JsonText, Problem, unnamed, repeated, bad_json,
  bad_boolean, bad_number, bad_type, Suggestion, named,
}

pub data FieldType : Type 0 where
  json_type text_type null_type boolean_type number_type unknown_type : FieldType

pub record Row : Type 0 where
  pub name : String
  pub type : FieldType
  pub value : String
  pub pending : Bool
  pub suggested : Bool

-- `replace(',', '.')`: the first comma.
unfoldable pub replace_comma : String → String
replace_comma String.[] = ""
replace_comma (String.◌∷◌ c s) =
    if code c == 44 then String.◌++◌ "." s else String.◌∷◌ c (replace_comma s)

-- `makeField`
abbrev pub make_field : String → FieldType → String → Row
make_field name type value = record {
  name = name;
  type = type;
  value = value;
  pending = false;
  suggested = false;
}

abbrev pub has_name : String → Row → Bool
has_name name row = str_eq row.name name

unfoldable pub clear_suggested : Row → Row
clear_suggested row = record row { suggested = false }

-- The first row of the name is a suggested one.
unfoldable pub mark_first : String → List Row → List Row
mark_first name [] = []
mark_first name (row ∷ rows) =
    if has_name name row then record row { suggested = true } ∷ rows else row ∷ mark_first name rows

-- One round of `ensureSuggestions`.
unfoldable pub add_suggestion : Suggestion → List Row → List Row
unfolding named mark_first
add_suggestion s rows = elim (named s) [
  | none ↦ rows
  | some name ↦
      if any (has_name name) rows
      then mark_first name rows
      else rows
        ++ record {
          name = name;
          type = if s.complex then json_type else text_type;
          value = "";
          pending = true;
          suggested = true;
        }
          ∷ []
]

unfoldable pub add_suggestions : List Suggestion → List Row → List Row
add_suggestions [] rows = rows
add_suggestions (s ∷ rest) rows = add_suggestions rest (add_suggestion s rows)

-- `ensureSuggestions`
unfoldable pub ensure_suggestions : List Suggestion → List Row → List Row
unfolding add_suggestions add_suggestion clear_suggested
ensure_suggestions fields rows = add_suggestions fields (map clear_suggested rows)

-- An object keyed by names: `data[name] = value`.
unfoldable pub assign {ℓ} : {V : Type ℓ} → String → V → List (String × V) → List (String × V)
assign k v [] = (k, v) ∷ []
assign k v ((j, w) ∷ m) = if str_eq j k then (j, v) ∷ m else (j, w) ∷ assign k v m

module _ (J : JsonText) where
  open J use {Number, Nested, parse, write, read_number, write_number}

  -- The row of an entry, in `loadFields`.
  unfoldable pub row_of : String → Value Number Nested → Row
  row_of name null = make_field name null_type ""
  row_of name (nested j) = make_field name json_type (write j)
  row_of name (text s) = make_field name text_type s
  row_of name (boolean b) = make_field name boolean_type (if b then "true" else "false")
  row_of name (number n) = make_field name number_type (write_number n)

  -- The `switch` of `emitFields`: the value that a row holds, or the problem.
  pub data Reading : Type 0 where
    reads : Value Number Nested → Reading
    fails : Problem → Reading

  or_fail : Problem → Option (Value Number Nested) → Reading
  or_fail p none = fails p
  or_fail p (some v) = reads v

  as_number : Option Number → Option (Value Number Nested)
  as_number none = none
  as_number (some n) = some (number n)

  unfoldable pub read_row : String → FieldType → String → Reading
  unfolding or_fail as_number replace_comma
  read_row name json_type s = or_fail (bad_json name) (parse s)
  read_row name text_type s = reads (text s)
  read_row name null_type s = reads null
  read_row name boolean_type s =
      if str_eq s "true"
      then reads (boolean true)
      else if str_eq s "false"
      then reads (boolean false)
      else fails (bad_boolean name)
  read_row name number_type s =
      or_fail (bad_number name) (as_number (read_number (replace_comma (trim s))))
  read_row name unknown_type s = fails (bad_type name)

  -- The object so far, and the problem that ended the loop.
  pub record Emission : Type 0 where
    pub entries : List (String × Value Number Nested)
    pub problem : Option Problem

  -- One round of the loop of `emitFields`, before the others; `names` are the names used so far.
  unfoldable pub emit_row :
      Row
      → (List String → List (String × Value Number Nested) → Emission)
      → List String
      → List (String × Value Number Nested)
      → Emission
  emit_row row rest names entries =
      let name = trim row.name in
      if str_eq name ""
      then record { entries = entries; problem = some unnamed }
      else if any (λ used. str_eq used name) names
      then record { entries = entries; problem = some (repeated name) }
      else if row.pending
      then rest (name ∷ names) entries
      else elim (read_row name row.type row.value) [
        | fails p ↦ record { entries = entries; problem = some p }
        | reads v ↦ rest (name ∷ names) (assign name v entries)
      ]

  unfoldable pub emit_rows : List Row → List String → List (String × Value Number Nested) → Emission
  emit_rows [] names entries = record { entries = entries; problem = none }
  emit_rows (row ∷ rows) names entries = emit_row row (emit_rows rows) names entries
