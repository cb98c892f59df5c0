-- ===== src/Editor/Modes.antt =====
-- What changing the mode, and adding and removing rows, keep of the editor
-- (frontend/src/app/shared/components/template-data-editor/template-data-editor.component.ts).
use asl_bissieux.Prelude.{
  ℕ, zero, suc, ◌≡◌, refl, ◌≢◌, ◌↔◌, Bool, true, false, ◌&&◌, List, [], ◌∷◌, Option, none, some,
  arith, any, filter, is_some, get_elem?, find?,
}
use asl_bissieux.Prelude.Strings.{String}
use asl_bissieux.Editor.Values.{JsonText, validate_template_values}
use asl_bissieux.Editor.Rows.{Row}
use asl_bissieux.Editor.{
  Inputs, Editor, check_missing, emitted, emit_fields, write_value, validate, remove_field,
  toggle_mode, update_raw, remove_at,
}

module _ (J : JsonText) where
  check_missing-raw :
      (s : Editor J)
      → ((check_missing J s).raw ≡ s.raw)
        × ((check_missing J s).reported ≡ s.reported)
        × ((check_missing J s).rows ≡ s.rows)
  unfolding check_missing
  check_missing-raw s = ground arith

  -- Changing the mode never changes the value: neither the text nor what was reported to the form,
  -- whether the change is made, refused with a notice, or stopped by an invalid text.
  pub toggle_mode-raw :
      (i : Inputs) (s : Editor J)
      → ((toggle_mode J i s).raw ≡ s.raw) × ((toggle_mode J i s).reported ≡ s.reported)
  unfolding toggle_mode
  toggle_mode-raw i s = ground arith

  -- A value that the form writes is kept as it is written, whatever it holds, and is not reported
  -- back.
  pub write_value-raw :
      (i : Inputs) (value : String) (s : Editor J)
      → ((write_value J i (some value) s).raw ≡ value)
        × ((write_value J i (some value) s).reported ≡ s.reported)
  unfolding write_value
  write_value-raw i value s = ground arith

  -- A text that is typed is kept and reported as it is typed, valid or not, and the editor then
  -- shows an error exactly when the validation of the form refuses the text.
  pub update_raw_lem :
      (i : Inputs) (raw : String) (s : Editor J)
      → ((update_raw J i raw s).raw ≡ raw)
        × ((update_raw J i raw s).reported ≡ some raw)
        × (((update_raw J i raw s).error ≡ none)
            ↔ (validate_template_values J raw i.suggested ≡ none))
  unfolding update_raw
  update_raw_lem i raw s = ground arith

  is_some-find? {ℓ} : {A : Type ℓ} (p : A → Bool) (xs : List A) → is_some (find? p xs) ≡ any p xs
  is_some-find? p [] = refl
  is_some-find? p (x ∷ xs) = ground (arith, is_some-find? p xs)

  -- A suggested value that still waits.
  abbrev pub waits : Row → Bool
  waits row = row.suggested && row.pending

  check_missing-error : (s : Editor J) → any waits s.rows ≡ true → (check_missing J s).error ≢ none
  unfolding check_missing
  check_missing-error s h = ground (arith, is_some-find? waits s.rows)

  emit_fields-error : (s : Editor J) → any waits s.rows ≡ true → (emit_fields J s).error ≢ none
  unfolding emit_fields
  emit_fields-error s h = check_missing-error (emitted J s) h

  validate_of_error : (i : Inputs) (s : Editor J) → s.error ≢ none → validate J i s ≢ none
  unfolding validate
  validate_of_error i s h = ground arith

  -- As long as a suggested value has not been filled in, the form refuses the editor's value,
  -- after every change of the rows.
  pub validate-emit_fields :
      (i : Inputs) (s : Editor J) → any waits s.rows ≡ true → validate J i (emit_fields J s) ≢ none
  validate-emit_fields i s h = validate_of_error i (emit_fields J s) (emit_fields-error s h)

  filter-remove_at :
      (n : ℕ) (rows : List Row) (row : Row)
      → get_elem? rows n ≡ some row
      → row.suggested ≡ false
      → filter (λ r. r.suggested) (remove_at n rows) ≡ filter (λ r. r.suggested) rows
  unfolding remove_at
  filter-remove_at n [] row e h = cc
  filter-remove_at zero (r ∷ rows) row e h = ground arith
  filter-remove_at (suc n) (r ∷ rows) row e h = ground (arith, filter-remove_at n rows row)

  emit_fields-rows : (s : Editor J) → (emit_fields J s).rows ≡ s.rows
  unfolding emit_fields
  emit_fields-rows s = ground arith

  remove_field_at :
      (n : ℕ) (s : Editor J) (found : Option Row)
      → get_elem? s.rows n ≡ found
      → filter (λ r. r.suggested) (remove_field J n s).rows ≡ filter (λ r. r.suggested) s.rows
  unfolding remove_field
  remove_field_at n s none e = rw (e, remove_field)
  remove_field_at n s (some row) e =
      rw (e, remove_field)
        (ground (
          arith,
          filter-remove_at n s.rows row e,
          emit_fields-rows (record s { rows = remove_at n s.rows }),
        ))

  -- The rows of the suggested values cannot be removed, at any index.
  pub suggested-remove_field :
      (n : ℕ) (s : Editor J)
      → filter (λ r. r.suggested) (remove_field J n s).rows ≡ filter (λ r. r.suggested) s.rows
  suggested-remove_field n s = remove_field_at n s (get_elem? s.rows n) refl
