-- ===== src/MultiSelect/Laws.antt =====
-- What can be chosen after a choice and after a removal
-- (frontend/src/app/shared/components/multi-select/multi-select.component.ts).
use mathlib.Core.List.{append-nil}
use asl_bissieux.Prelude.{
  ◌≡◌, refl, sym, ap, ◌∙◌, Bool, true, false, ◌&&◌, ◌||◌, not, List, [], ◌∷◌, ◌++◌, Option, none,
  some, arith, any, filter, find?, Bool-cases, inl, inr,
}
use asl_bissieux.Prelude.Strings.{String, str_eq, eq_iff, eq_refl}
use asl_bissieux.MultiSelect.{MultiSelect, has_value, unselected, add, remove}

module _ {ℓ} {T : Type ℓ} (attribute : T → String → String) where
  -- The value is that of an option of the list.
  abbrev pub holds : String → String → List T → Bool
  holds name v = any (has_value attribute name v)

  -- No value stands twice.
  abbrev pub IsDistinct : String → List T → Type 0
  IsDistinct name [] = Unit
  IsDistinct name (o ∷ os) = (holds name (attribute o name) os ≡ false) × IsDistinct name os

  holds-append :
      (name v : String) (xs ys : List T)
      → holds name v (xs ++ ys) ≡ holds name v xs || holds name v ys
  holds-append name v [] ys = refl
  holds-append name v (x ∷ xs) ys = ground (arith, holds-append name v xs ys)

  holds-remove :
      (name v w : String) (xs : List T)
      → holds name w (filter (λ o. not (has_value attribute name v o)) xs)
        ≡ not (str_eq v w) && holds name w xs
  holds-remove name v w [] = ground arith
  holds-remove name v w (x ∷ xs) = ground (
    arith,
    holds-remove name v w xs,
    eq_iff v w,
    eq_iff (attribute x name) v,
    eq_iff (attribute x name) w,
  )

  holds-unselected_of :
      (name w : String) (selected options : List T)
      → holds name w (filter (λ o. not (holds name (attribute o name) selected)) options)
        ≡ holds name w options && not (holds name w selected)
  holds-unselected_of name w selected [] = refl
  holds-unselected_of name w selected (x ∷ options) =
      elim (Bool-cases (str_eq (attribute x name) w)) [
        | inl e ↦
            let same : attribute x name ≡ w = (eq_iff (attribute x name) w).0 e in
            ground (
              arith,
              holds-unselected_of name w selected options,
              ap (λ t. holds name t selected) same,
            )
        | inr e ↦ ground (arith, holds-unselected_of name w selected options)
      ]

  -- A value may be chosen exactly when an option has it and no chosen one has.
  pub holds-unselected :
      (w : String) (s : MultiSelect T)
      → holds s.value w (unselected attribute s)
        ≡ holds s.value w s.options && not (holds s.value w s.selected)
  unfolding unselected
  holds-unselected w s = holds-unselected_of s.value w s.selected s.options

  find?-none :
      (name v : String) (xs : List T)
      → find? (has_value attribute name v) xs ≡ none
      → holds name v xs ≡ false
  find?-none name v [] e = refl
  find?-none name v (y ∷ xs) e = ground (arith, find?-none name v xs)

  find?-some :
      (name v : String) (xs : List T) (x : T)
      → find? (has_value attribute name v) xs ≡ some x
      → (holds name v xs ≡ true) × (attribute x name ≡ v)
  find?-some name v [] x e = cc
  find?-some name v (y ∷ xs) x e = elim (Bool-cases (has_value attribute name v y)) [
    | inl hit ↦
        let same : y ≡ x = ground arith in
        let own = (eq_iff (attribute y name) v).0 hit in
        (ground arith, ap (λ o. attribute o name) (sym same) ∙ own)
    | inr miss ↦ let (there, own) = find?-some name v xs x (ground arith) in (ground arith, own)
  ]

  add_at :
      (v : String) (s : MultiSelect T) (found : Option T)
      → find? (has_value attribute s.value v) s.options ≡ found
      → (w : String)
      → holds s.value w (add attribute v s).selected
        ≡ holds s.value w s.selected || (str_eq v w && holds s.value v s.options)
  unfolding add
  add_at v s none e w = rw (e, add) (ground (arith, find?-none s.value v s.options e))
  add_at v s (some o) e w =
      let (there, own) = find?-some s.value v s.options o e in
      rw (e, add) (holds-append s.value w s.selected (o ∷ []) ∙ rw (own, there) (ground arith))

  -- `add` chooses the value that was picked if an option has it, and no other.
  pub holds-add :
      (v w : String) (s : MultiSelect T)
      → holds s.value w (add attribute v s).selected
        ≡ holds s.value w s.selected || (str_eq v w && holds s.value v s.options)
  holds-add v w s = add_at v s (find? (has_value attribute s.value v) s.options) refl w

  add-fields :
      (v : String) (s : MultiSelect T)
      → ((add attribute v s).value ≡ s.value) × ((add attribute v s).options ≡ s.options)
  unfolding add
  add-fields v s = ground arith

  -- The values that may be chosen, of a state with the attribute and the options of another.
  holds-unselected_at :
      (w : String) (s t : MultiSelect T)
      → t.value ≡ s.value
      → t.options ≡ s.options
      → holds s.value w (unselected attribute t)
        ≡ holds s.value w s.options && not (holds s.value w t.selected)
  unfolding unselected
  holds-unselected_at w s t own same =
      rw (own, same) (holds-unselected_of s.value w t.selected s.options)

  -- A value that is picked among those that may be chosen can no longer be, and the others still
  -- can.
  pub holds-unselected-add :
      (v w : String) (s : MultiSelect T)
      → holds s.value v (unselected attribute s) ≡ true
      → holds s.value w (unselected attribute (add attribute v s))
        ≡ not (str_eq v w) && holds s.value w (unselected attribute s)
  holds-unselected-add v w s h =
      let (own, same) = add-fields v s in
      let before = holds-unselected w s in
      let picked = holds-unselected v s in
      let after = holds-unselected_at w s (add attribute v s) own same in
      elim (Bool-cases (str_eq v w)) [
        | inl e ↦ let equal : v ≡ w = (eq_iff v w).0 e in ground (arith, holds-add v w s)
        | inr e ↦ ground (arith, holds-add v w s)
      ]

  filter-absent :
      (name v : String) (xs : List T)
      → holds name v xs ≡ false
      → filter (λ o. not (has_value attribute name v o)) xs ≡ xs
  filter-absent name v [] h = refl
  filter-absent name v (x ∷ xs) h = ground (arith, filter-absent name v xs)

  filter-append : (p : T → Bool) (xs ys : List T) → filter p (xs ++ ys) ≡ filter p xs ++ filter p ys
  filter-append p [] ys = refl
  filter-append p (x ∷ xs) ys = ground (arith, filter-append p xs ys)

  remove-add_at :
      (v : String) (s : MultiSelect T) (found : Option T)
      → find? (has_value attribute s.value v) s.options ≡ found
      → holds s.value v s.selected ≡ false
      → (remove attribute v (add attribute v s)).selected ≡ s.selected
  unfolding add remove
  remove-add_at v s none e h = rw (e, add) (filter-absent s.value v s.selected h)
  remove-add_at v s (some o) e h =
      let (there, own) = find?-some s.value v s.options o e in
      rw (e, add)
        (filter-append (λ x. not (has_value attribute s.value v x)) s.selected (o ∷ [])
          ∙ rw (own, eq_refl v, filter-absent s.value v s.selected h) (append-nil s.selected))

  -- Removing what was just chosen gives the choice back as it was, in its order.
  pub remove-add :
      (v : String) (s : MultiSelect T)
      → holds s.value v s.selected ≡ false
      → (remove attribute v (add attribute v s)).selected ≡ s.selected
  remove-add v s h = remove-add_at v s (find? (has_value attribute s.value v) s.options) refl h

  -- A value that is removed is no longer chosen, whichever were, and the others still are.
  pub holds-remove_lem :
      (v w : String) (s : MultiSelect T)
      → holds s.value w (remove attribute v s).selected
        ≡ not (str_eq v w) && holds s.value w s.selected
  unfolding remove
  holds-remove_lem v w s = holds-remove s.value v w s.selected
