-- ===== src/Editor/Laws.antt =====
-- The values that the rows are read back as
-- (frontend/src/app/shared/components/template-data-editor/template-data-editor.component.ts).
use mathlib.Core.List.{append-nil, append_assoc}
use mathlib.Core.Path.{fun_ext}
use asl_bissieux.Prelude.{
  ◌≡◌, refl, ap, ◌∙◌, ◌≢◌, Bool, true, false, ◌||◌, List, [], ◌∷◌, ◌++◌, map, Option, none, some,
  arith, any,
}
use asl_bissieux.Prelude.Strings.{String, str_eq, eq_iff}
use asl_bissieux.Prelude.Text.{trim}
use asl_bissieux.Editor.Values.{
  Value, null, boolean, number, text, nested, JsonText, Suggestion, named,
}
use asl_bissieux.Editor.Rows.{
  Row, has_name, clear_suggested, mark_first, add_suggestion, add_suggestions, assign, row_of,
  reads, read_row, emit_row, emit_rows, replace_comma,
}

module _ (J : JsonText) where
  open J use {Number, Nested, parse, write, read_number, write_number, write_members}

  -- The round trip that an entry needs of the texts of JSON: none for null, a Boolean or a text.
  abbrev pub IsReadable : Value Number Nested → Type 0
  IsReadable null = Unit
  IsReadable (boolean b) = Unit
  IsReadable (text s) = Unit
  IsReadable (number n) = read_number (replace_comma (trim (write_number n))) ≡ some n
  IsReadable (nested j) = parse (write j) ≡ some (nested j)

  read_row-row_of :
      (name : String) (v : Value Number Nested)
      → IsReadable v
      → (read_row J name (row_of J name v).type (row_of J name v).value ≡ reads v)
        × ((row_of J name v).name ≡ name)
        × ((row_of J name v).pending ≡ false)
  unfolding read_row row_of
  read_row-row_of name null h = (refl, refl, refl)
  read_row-row_of name (boolean true) h = (refl, refl, refl)
  read_row-row_of name (boolean false) h = (refl, refl, refl)
  read_row-row_of name (text s) h = (refl, refl, refl)
  read_row-row_of name (number n) h = (rw h, refl, refl)
  read_row-row_of name (nested j) h = (rw h, refl, refl)

  abbrev pub key_in : String → List (String × Value Number Nested) → Bool
  key_in k = any (λ (j, _). str_eq j k)

  -- An object that the rows can show: each name is written without space around, and stands once.
  abbrev pub IsPlain : List (String × Value Number Nested) → Type 0
  IsPlain [] = Unit
  IsPlain ((name, v) ∷ entries) =
      (trim name ≡ name)
      × (name ≢ "")
      × (key_in name entries ≡ false)
      × IsReadable v
      × IsPlain entries

  assign-fresh :
      (k : String) (v : Value Number Nested) (m : List (String × Value Number Nested))
      → key_in k m ≡ false
      → assign k v m ≡ m ++ (k, v) ∷ []
  unfolding assign
  assign-fresh k v [] h = refl
  assign-fresh k v ((j, w) ∷ m) h = ground (arith, assign-fresh k v m)

  names_in : String → List String → Bool
  names_in name = any (λ used. str_eq used name)

  abbrev pub IsFresh :
      List String
      → List (String × Value Number Nested)
      → List (String × Value Number Nested)
      → Type 0
  IsFresh names acc [] = Unit
  IsFresh names acc ((name, v) ∷ entries) =
      (any (λ used. str_eq used name) names ≡ false)
      × (key_in name acc ≡ false)
      × IsFresh names acc entries

  key_in-append :
      (k : String) (xs ys : List (String × Value Number Nested))
      → key_in k (xs ++ ys) ≡ key_in k xs || key_in k ys
  key_in-append k [] ys = refl
  key_in-append k ((j, w) ∷ xs) ys = ground (arith, key_in-append k xs ys)

  IsFresh-step :
      (names : List String) (acc entries : List (String × Value Number Nested)) (name : String)
      (v : Value Number Nested)
      → key_in name entries ≡ false
      → IsFresh names acc entries
      → IsFresh (name ∷ names) (acc ++ (name, v) ∷ []) entries
  IsFresh-step names acc [] name v h f = tt
  IsFresh-step names acc ((j, w) ∷ entries) name v h f = ground (
    arith,
    IsFresh-step names acc entries name v,
    key_in-append j acc ((name, v) ∷ []),
    eq_iff j name,
    eq_iff name j,
  )

  unfoldable pub rows_for : List (String × Value Number Nested) → List Row
  rows_for [] = []
  rows_for ((name, v) ∷ entries) = row_of J name v ∷ rows_for entries

  emit_rows-step :
      (row : Row) (rows : List Row) (names : List String)
      (acc : List (String × Value Number Nested)) (name : String) (v : Value Number Nested)
      → trim row.name ≡ name
      → name ≢ ""
      → any (λ used. str_eq used name) names ≡ false
      → row.pending ≡ false
      → read_row J name row.type row.value ≡ reads v
      → emit_rows J (row ∷ rows) names acc ≡ emit_rows J rows (name ∷ names) (assign name v acc)
  unfolding emit_rows emit_row
  emit_rows-step row rows names acc name v trimmed full fresh kept rd =
      let tested : str_eq name "" ≡ false = ground (arith, eq_iff name "") in
      rw (trimmed, tested, fresh, kept) (rw rd (rw trimmed))

  pub emit_rows-rows_for :
      (entries acc : List (String × Value Number Nested)) (names : List String)
      → IsPlain entries
      → IsFresh names acc entries
      → emit_rows J (rows_for entries) names acc
        ≡ record { entries = acc ++ entries; problem = none }
  unfolding rows_for emit_rows
  emit_rows-rows_for [] acc names p f = rw (append-nil acc)
  emit_rows-rows_for ((name, v) ∷ entries) acc names p f =
      let (rd, same, kept) = read_row-row_of name v p.3 in
      emit_rows-step (row_of J name v) (rows_for entries) names acc name v (ap trim same ∙ p.0) p.1
        f.0 kept rd
      ∙ (rw (assign-fresh name v acc f.1) (
            emit_rows-rows_for entries (acc ++ (name, v) ∷ []) (name ∷ names) p.4
              (IsFresh-step names acc entries name v p.2 f.2))
          ∙ ap (λ l. record { entries = l; problem = none })
              (append_assoc acc ((name, v) ∷ []) entries))

  -- The marks of the suggested rows.
  unfoldable pub unmark : List Row → List Row
  unmark rows = map clear_suggested rows

  unmark-mark_first :
      (name : String) (rows : List Row) → unmark (mark_first name rows) ≡ unmark rows
  unfolding unmark mark_first clear_suggested
  unmark-mark_first name [] = refl
  unmark-mark_first name (row ∷ rows) = ground (arith, unmark-mark_first name rows)

  any-has_name-unmark :
      (name : String) (rows : List Row)
      → any (has_name name) (unmark rows) ≡ any (has_name name) rows
  unfolding unmark clear_suggested
  any-has_name-unmark name [] = refl
  any-has_name-unmark name (row ∷ rows) = ground (arith, any-has_name-unmark name rows)

  pub unmark-unmark : (rows : List Row) → unmark (unmark rows) ≡ unmark rows
  unfolding unmark clear_suggested
  unmark-unmark [] = refl
  unmark-unmark (row ∷ rows) = ground (arith, unmark-unmark rows)

  pub any-pending-unmark :
      (rows : List Row) → any (λ r. r.pending) (unmark rows) ≡ any (λ r. r.pending) rows
  unfolding unmark clear_suggested
  any-pending-unmark [] = refl
  any-pending-unmark (row ∷ rows) = ground (arith, any-pending-unmark rows)

  pub emit_rows-unmark :
      (rows : List Row) (names : List String) (acc : List (String × Value Number Nested))
      → emit_rows J (unmark rows) names acc ≡ emit_rows J rows names acc
  unfolding unmark clear_suggested emit_rows emit_row
  emit_rows-unmark [] names acc = refl
  emit_rows-unmark (row ∷ rows) names acc =
      ap (λ rest. emit_row J row rest names acc)
        (fun_ext (λ used. fun_ext (λ entries. emit_rows-unmark rows used entries)))

  -- Every suggested field that has a name is that of a row.
  abbrev pub is_present : List Row → Option String → Bool
  is_present rows none = true
  is_present rows (some n) = any (has_name n) rows

  abbrev pub AllPresent : List Row → List Suggestion → Type 0
  AllPresent rows [] = Unit
  AllPresent rows (s ∷ rest) = (is_present rows (named s) ≡ true) × AllPresent rows rest

  unmark-add_suggestion :
      (s : Suggestion) (rows rows' : List Row) (name : Option String)
      → named s ≡ name
      → unmark rows' ≡ unmark rows
      → is_present rows name ≡ true
      → unmark (add_suggestion s rows') ≡ unmark rows
  unfolding add_suggestion
  unmark-add_suggestion s rows rows' none en e a = rw (en, add_suggestion) e
  unmark-add_suggestion s rows rows' (some n) en e a =
      let there : any (has_name n) rows' ≡ true =
        ground (arith, any-has_name-unmark n rows', any-has_name-unmark n rows) in
      rw (en, add_suggestion) (rw there (unmark-mark_first n rows' ∙ e))

  pub unmark-add_suggestions :
      (fields : List Suggestion) (rows rows' : List Row)
      → unmark rows' ≡ unmark rows
      → AllPresent rows fields
      → unmark (add_suggestions fields rows') ≡ unmark rows
  unfolding add_suggestions
  unmark-add_suggestions [] rows rows' e a = e
  unmark-add_suggestions (s ∷ fields) rows rows' e a =
      unmark-add_suggestions fields rows (add_suggestion s rows')
        (unmark-add_suggestion s rows rows' (named s) refl e a.0) a.1
