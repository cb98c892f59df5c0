-- ===== src/Editor/RoundTrip.antt =====
-- Values that are shown as rows and read back are the same values
-- (frontend/src/app/shared/components/template-data-editor/template-data-editor.component.ts).
use asl_bissieux.Prelude.{
  ◌≡◌, refl, ap, sym, ◌∙◌, false, ◌&&◌, not, List, [], ◌∷◌, ◌++◌, map, none, some, arith, any,
  filter, find?, Bool-cases, inl, inr,
}
use asl_bissieux.Prelude.Strings.{String, str_eq, eq_iff}
use asl_bissieux.Editor.Values.{Value, JsonText}
use asl_bissieux.Editor.Rows.{Row, emit_rows, ensure_suggestions, row_of}
use asl_bissieux.Editor.{
  Inputs, Editor, includes, rows_of, load_fields, emitted, emit_fields, check_missing,
}
use asl_bissieux.Editor.Laws.{
  key_in, IsPlain, IsFresh, rows_for, emit_rows-rows_for, unmark, any-pending-unmark,
  emit_rows-unmark, unmark-unmark, unmark-add_suggestions, AllPresent,
}

module _ (J : JsonText) where
  open J use {Number, Nested, write_members}

  -- The entries that the editor keeps without showing them, and those that it shows.
  abbrev pub kept :
      Inputs → List (String × Value Number Nested) → List (String × Value Number Nested)
  kept i = filter (λ (name, _). includes i.preserve_roots name)

  abbrev pub shown :
      Inputs → List (String × Value Number Nested) → List (String × Value Number Nested)
  shown i = filter (λ (name, _). not (includes i.preserve_roots name))

  rows_of-shown :
      (i : Inputs) (entries : List (String × Value Number Nested))
      → rows_of J i entries ≡ rows_for J (shown i entries)
  unfolding rows_of rows_for
  rows_of-shown i [] = refl
  rows_of-shown i ((name, v) ∷ entries) = ground (arith, rows_of-shown i entries)

  key_in-kept :
      (i : Inputs) (name : String) (entries : List (String × Value Number Nested))
      → includes i.preserve_roots name ≡ false
      → (key_in J name (kept i entries) ≡ false)
        × (any (λ used. str_eq used name) (map (λ (n, _). n) (kept i entries)) ≡ false)
  key_in-kept i name [] h = (refl, refl)
  key_in-kept i name ((j, w) ∷ entries) h =
      ground (arith, key_in-kept i name entries h, eq_iff j name)

  shown-IsFresh :
      (i : Inputs) (all entries : List (String × Value Number Nested))
      → IsFresh J (map (λ (n, _). n) (kept i all)) (kept i all) (shown i entries)
  shown-IsFresh i all [] = tt
  shown-IsFresh i all ((name, v) ∷ entries) = elim (Bool-cases (includes i.preserve_roots name)) [
    | inl e ↦ rw e (shown-IsFresh i all entries)
    | inr e ↦
        let (other, fresh) = key_in-kept i name all e in
        rw e (fresh, other, shown-IsFresh i all entries)
  ]

  not-pending :
      (entries : List (String × Value Number Nested))
      → any (λ r. r.pending) (rows_for J entries) ≡ false
  unfolding rows_for row_of
  not-pending [] = refl
  not-pending ((name, v) ∷ entries) = ground (arith, not-pending entries)

  waits-pending :
      (rows : List Row)
      → any (λ r. r.pending) rows ≡ false
      → find? (λ r. r.suggested && r.pending) rows ≡ none
  waits-pending [] h = refl
  waits-pending (row ∷ rows) h = ground (arith, waits-pending rows)

  load_fields-some :
      (i : Inputs) (entries : List (String × Value Number Nested)) (s t : Editor J)
      → load_fields J i entries s ≡ some t
      → (t.rows ≡ ensure_suggestions i.suggested (rows_of J i entries))
        × (t.preserved ≡ kept i entries)
  unfolding load_fields
  load_fields-some i entries s t e = ground arith

  unmark-ensure :
      (i : Inputs) (rows : List Row)
      → AllPresent J rows i.suggested
      → unmark J (ensure_suggestions i.suggested rows) ≡ unmark J rows
  unfolding ensure_suggestions unmark
  unmark-ensure i rows a =
      unmark-add_suggestions J i.suggested rows (unmark J rows) (unmark-unmark J rows) a

  emit_of :
      (t : Editor J) (entries : List (String × Value Number Nested))
      → emit_rows J t.rows (map (λ (n, _). n) t.preserved) t.preserved
        ≡ record { entries = entries; problem = none }
      → any (λ r. r.pending) t.rows ≡ false
      → ((emit_fields J t).raw ≡ write_members entries)
        × ((emit_fields J t).error ≡ none)
        × ((emit_fields J t).reported ≡ some (write_members entries))
  unfolding emit_fields emitted check_missing
  emit_of t entries e p = ground (arith, waits-pending t.rows p)

  -- An object whose shown entries are plain, and that has every suggested field, is read back from
  -- its rows as it was: the text that is reported is that of the same entries, the kept ones
  -- first, and no error is shown.
  pub emit_fields-load_fields :
      (i : Inputs) (entries : List (String × Value Number Nested)) (s t : Editor J)
      → load_fields J i entries s ≡ some t
      → IsPlain J (shown i entries)
      → AllPresent J (rows_of J i entries) i.suggested
      → ((emit_fields J t).raw ≡ write_members (kept i entries ++ shown i entries))
        × ((emit_fields J t).error ≡ none)
        × ((emit_fields J t).reported ≡ some (write_members (kept i entries ++ shown i entries)))
  emit_fields-load_fields i entries s t e plain present =
      let (rows, preserved) = load_fields-some i entries s t e in
      let first = rows_of J i entries in
      let bare : unmark J t.rows ≡ unmark J first =
        ap (unmark J) rows ∙ unmark-ensure i first present in
      let names = map (λ ((n, _) : String × Value Number Nested). n) (kept i entries) in
      let read : emit_rows J t.rows names (kept i entries)
          ≡ record { entries = kept i entries ++ shown i entries; problem = none } =
        sym (emit_rows-unmark J t.rows names (kept i entries))
        ∙ (ap (λ r. emit_rows J r names (kept i entries)) bare
            ∙ (emit_rows-unmark J first names (kept i entries)
                ∙ (ap (λ r. emit_rows J r names (kept i entries)) (rows_of-shown i entries)
                    ∙ emit_rows-rows_for J (shown i entries) (kept i entries) names plain
                        (shown-IsFresh i entries entries)))) in
      let still : any (λ (r : Row). r.pending) t.rows ≡ false =
        sym (any-pending-unmark J t.rows)
        ∙ (ap (any (λ (r : Row). r.pending)) bare
            ∙ (any-pending-unmark J first
                ∙ (ap (any (λ (r : Row). r.pending)) (rows_of-shown i entries)
                    ∙ not-pending (shown i entries)))) in
      emit_of t (kept i entries ++ shown i entries) (rw preserved read) still
