-- ===== src/Editor/Values.antt =====
-- frontend/src/app/shared/components/template-data-editor/template-data-validation.ts, and the JSON
-- values that the editor reads.
-- `JSON.parse`, `JSON.stringify`, `Number` and `String` on numbers are the fields of `JsonText`:
-- their texts are not modelled, and a theorem says which of their round trips it needs.
use asl_bissieux.Prelude.{Bool, List, [], ◌∷◌, Option, none, some, if◌then◌else◌, any}
use asl_bissieux.Prelude.Strings.{String, str_eq}

-- A value of JSON: `nested` is an array or an object.
pub data Value (N J : Type 0) : Type 0 where
  null : Value N J
  boolean : Bool → Value N J
  number : N → Value N J
  text : String → Value N J
  nested : J → Value N J

pub record JsonText : Type 1 where
  pub Number : Type 0
  pub Nested : Type 0
  -- `JSON.parse`; `none` is the exception.
  pub parse : String → Option (Value Number Nested)
  -- The entries of an object; `none` is an array.
  pub members : Nested → Option (List (String × Value Number Nested))
  -- `JSON.stringify(value, null, 2)`, of a nested value and of an object with these entries.
  pub write : Nested → String
  pub write_members : List (String × Value Number Nested) → String
  -- `Number`, where the pattern of the editor accepts the text and the number is finite.
  pub read_number : String → Option Number
  -- `String`
  pub write_number : Number → String

-- The messages of the editor, by what they say.
pub data Problem : Type 0 where
  missing : String → Problem
  not_object not_json : Problem
  unnamed : Problem
  repeated : String → Problem
  bad_json bad_boolean bad_number bad_type : String → Problem

-- `suggestedFields`
pub record Suggestion : Type 0 where
  pub name : Option String
  pub complex : Bool

-- `field.name` where it counts as true.
unfoldable pub named : Suggestion → Option String
named s = elim s.name [ none ↦ none | some n ↦ if str_eq n "" then none else some n ]

unfoldable pub has_key {ℓ} : {V : Type ℓ} → String → List (String × V) → Bool
has_key k m = any (λ (j, _). str_eq j k) m

module _ (J : JsonText) where
  open J use {Number, Nested, parse, members}

  -- `JSON.parse` and the test that the result is an object: the entries, or the problem.
  pub data Parsed : Type 0 where
    object : List (String × Value Number Nested) → Parsed
    fails : Problem → Parsed

  of_nested : Option (List (String × Value Number Nested)) → Parsed
  of_nested none = fails not_object
  of_nested (some entries) = object entries

  of_value : Option (Value Number Nested) → Parsed
  of_value none = fails not_json
  of_value (some (nested j)) = of_nested (members j)
  of_value (some other) = fails not_object

  unfoldable pub parse_members : String → Parsed
  unfolding of_value of_nested
  parse_members raw = of_value (parse raw)

  -- The first suggested field that the object does not have.
  first_missing : List Suggestion → List (String × Value Number Nested) → Option String
  first_missing [] entries = none
  first_missing (s ∷ rest) entries = elim (named s) [
    | none ↦ first_missing rest entries
    | some n ↦ if has_key n entries then first_missing rest entries else some n
  ]

  check_members : List Suggestion → Parsed → Option Problem
  check_members fields (fails p) = some p
  check_members fields (object entries) = elim (first_missing fields entries) [
    | none ↦ none
    | some n ↦ some (missing n)
  ]

  -- `validateTemplateValues`: `none` is the valid outcome.
  unfoldable pub validate_template_values : String → List Suggestion → Option Problem
  unfolding parse_members check_members first_missing named has_key
  validate_template_values raw fields = check_members fields (parse_members raw)
