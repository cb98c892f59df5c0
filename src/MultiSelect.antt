-- ===== src/MultiSelect.antt =====
-- frontend/src/app/shared/components/multi-select/multi-select.component.ts: options are moved
-- between a list of what may be chosen and a list of what is chosen.
-- `value` is the attribute that tells options apart, read as a text; a test of an attribute is an
-- equality of texts. The displays are functions, which the setters have resolved.
pub mod Laws
mod Tests
use asl_bissieux.Prelude.{
  Bool, true, false, ◌&&◌, not, List, [], ◌∷◌, ◌++◌, map, Option, none, some, if◌then◌else◌, any,
  filter, find?, is_some,
}
use asl_bissieux.Prelude.Strings.{String, str_eq}

pub record MultiSelect {ℓ} (T : Type ℓ) : Type ℓ where
  -- `_value$`: the name of the attribute
  pub value : String
  pub display : Option (T → String)
  pub selected_display : Option (T → String)
  pub filter_function : String → T → Bool
  pub selected : List T
  pub options : List T
  -- the text of `filterInputCtrl`; `none` is null, before the first change
  pub filter_input : Option String

-- `{ value, display }`
pub record Shown : Type 0 where
  pub value : String
  pub display : String

-- `attribute` reads an attribute of an option by its name.
module _ {ℓ} {T : Type ℓ} (attribute : T → String → String) where
  -- `selectedDisplay ?? display`
  abbrev pub chosen_display : MultiSelect T → Option (T → String)
  chosen_display s = elim s.selected_display [ some f ↦ some f | none ↦ s.display ]

  -- `selected$`
  unfoldable pub shown_selected : MultiSelect T → List Shown
  shown_selected s = elim (chosen_display s) [
    | none ↦ []
    | some display ↦
        if str_eq s.value ""
        then []
        else map (λ o. record { value = attribute o s.value; display = display o }) s.selected
  ]

  abbrev pub has_value : String → String → T → Bool
  has_value name v option = str_eq (attribute option name) v

  -- The options that are not selected.
  unfoldable pub unselected : MultiSelect T → List T
  unselected s =
      filter (λ o. not (any (has_value s.value (attribute o s.value)) s.selected)) s.options

  pub passes : MultiSelect T → T → Bool
  passes s o = elim s.filter_input [ none ↦ true | some pattern ↦ s.filter_function pattern o ]

  -- `options$`
  unfoldable pub shown_options : MultiSelect T → List Shown
  unfolding unselected passes
  shown_options s = elim s.display [
    | none ↦ []
    | some display ↦
        if str_eq s.value ""
        then []
        else map (λ o. record { value = attribute o s.value; display = display o })
            (filter (passes s) (unselected s))
  ]

  -- `add`, of the value that was picked
  unfoldable pub add : String → MultiSelect T → MultiSelect T
  add v s = elim (find? (has_value s.value v) s.options) [
    | none ↦ record s { filter_input = some "" }
    | some option ↦ record s { selected = s.selected ++ option ∷ []; filter_input = some "" }
  ]

  -- `remove`
  unfoldable pub remove : String → MultiSelect T → MultiSelect T
  remove v s = record s { selected = filter (λ o. not (has_value s.value v o)) s.selected }
