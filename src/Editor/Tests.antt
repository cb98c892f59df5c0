-- ===== src/Editor/Tests.antt =====
-- The laws of the editor on an object of two entries.
use asl_bissieux.Prelude.{ℕ, ◌≡◌, refl, ◌≢◌, true, false, List, [], ◌∷◌, any, none, some, arith}
use asl_bissieux.Prelude.Strings.{String, eq_iff}
use asl_bissieux.Prelude.Text.{trim}
use asl_bissieux.Editor.Values.{Value, text, null, JsonText, named}
use asl_bissieux.Editor.Rows.{Row, text_type, row_of}
use asl_bissieux.Editor.{Inputs, Editor, rows_of, load_fields, emit_fields, validate}
use asl_bissieux.Editor.Laws.{IsPlain, AllPresent}
use asl_bissieux.Editor.RoundTrip.{shown, emit_fields-load_fields}
use asl_bissieux.Editor.Modes.{waits, validate-emit_fields}

-- No text is valid, and every object is written alike.
abbrev no_json : JsonText
no_json = record {
  Number = ℕ;
  Nested = ℕ;
  parse = λ s. none;
  members = λ j. none;
  write = λ j. "[]";
  write_members = λ entries. "{…}";
  read_number = λ s. some 0;
  write_number = λ n. "0";
}

abbrev inputs : Inputs
inputs = record {
  suggested = record { name = some "titre"; complex = false } ∷ [];
  preserve_roots = "_k" ∷ [];
}

abbrev blank : Editor no_json
blank = record {
  preserved = [];
  rows = [];
  missing_only = false;
  advanced = false;
  disabled = false;
  raw = "{}";
  error = none;
  notice = none;
  reported = none;
}

abbrev entries : List (String × Value ℕ ℕ)
entries = ("titre", text "Bonjour") ∷ ("_k", null) ∷ []

abbrev title : Row
title = record {
  name = "titre";
  type = text_type;
  value = "Bonjour";
  pending = false;
  suggested = true;
}

abbrev loaded : Editor no_json
loaded = record blank { preserved = ("_k", null) ∷ []; rows = title ∷ [] }

entries_loaded : load_fields no_json inputs entries blank ≡ some loaded
unfolding load_fields row_of trim
entries_loaded = refl

entries-IsPlain : IsPlain no_json (shown no_json inputs entries)
unfolding trim
entries-IsPlain = (refl, ground (arith, eq_iff "titre" ""), refl, tt, tt)

entries_present : AllPresent no_json (rows_of no_json inputs entries) inputs.suggested
unfolding rows_of row_of named
entries_present = (refl, tt)

emit_fields-load_fields_example :
    ((emit_fields no_json loaded).raw ≡ "{…}")
    × ((emit_fields no_json loaded).error ≡ none)
    × ((emit_fields no_json loaded).reported ≡ some "{…}")
emit_fields-load_fields_example =
    emit_fields-load_fields no_json inputs entries blank loaded entries_loaded entries-IsPlain
      entries_present

-- The suggested title is not filled in yet.
abbrev unfilled : Editor no_json
unfilled = record blank { rows = record title { value = ""; pending = true } ∷ [] }

unfilled_waits : any (waits no_json) unfilled.rows ≡ true
unfilled_waits = refl

validate-emit_fields_example : validate no_json inputs (emit_fields no_json unfilled) ≢ none
validate-emit_fields_example = validate-emit_fields no_json inputs unfilled unfilled_waits
