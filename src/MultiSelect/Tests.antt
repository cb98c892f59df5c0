-- ===== src/MultiSelect/Tests.antt =====
-- The laws of the choice at three texts.
use asl_bissieux.Prelude.{◌≡◌, refl, true, ◌&&◌, not, [], ◌∷◌, none}
use asl_bissieux.Prelude.Strings.{String, str_eq}
use asl_bissieux.MultiSelect.{MultiSelect, unselected, add}
use asl_bissieux.MultiSelect.Laws.{holds, holds-unselected-add}

-- A text is its own attribute.
abbrev own : String → String → String
own option name = option

abbrev lots : MultiSelect String
lots = record {
  value = "id";
  display = none;
  selected_display = none;
  filter_function = λ pattern o. true;
  selected = "1" ∷ [];
  options = "1" ∷ "2" ∷ "3" ∷ [];
  filter_input = none;
}

lots_free : holds own "id" "2" (unselected own lots) ≡ true
unfolding unselected
lots_free = refl

holds-unselected-add_example :
    holds own "id" "3" (unselected own (add own "2" lots))
    ≡ not (str_eq "2" "3") && holds own "id" "3" (unselected own lots)
holds-unselected-add_example = holds-unselected-add own "2" "3" lots lots_free
