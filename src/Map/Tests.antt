-- ===== src/Map/Tests.antt =====
-- A map of three lots, and the classes of one.
use asl_bissieux.Prelude.{
  ℕ, ◌≡◌, refl, ◌<◌, true, false, ◌&&◌, ◌||◌, not, arith, List, [], ◌∷◌, none, some, get_or,
}
use asl_bissieux.Prelude.Strings.{String}
use asl_bissieux.Map.{Tile, Map, new, arrow_right, end_key, find_index, next_index, key_down}
use asl_bissieux.Map.Classes.{Styled, holds, tokens, set_classes, holds-set_classes}
use asl_bissieux.Map.Laws.{IsAccessible}
use asl_bissieux.Map.Laws.Events.{
  inits, sets_selected, presses, sets_interactive, run, run-new-IsAccessible,
}
use asl_bissieux.Map.Laws.Keyboard.{next_index-bounded, key_down-arrow_right}

run-new-IsAccessible_example : IsAccessible (
    run
      (sets_selected (some 5)
        ∷ inits (7 ∷ 2 ∷ 5 ∷ [])
        ∷ presses 5 arrow_right false
        ∷ sets_interactive false
        ∷ [])
      new)
run-new-IsAccessible_example = run-new-IsAccessible (
    sets_selected (some 5)
    ∷ inits (7 ∷ 2 ∷ 5 ∷ [])
    ∷ presses 5 arrow_right false
    ∷ sets_interactive false
    ∷ [])

-- The tiles of the lots 2 and 5, of which the first is active.
abbrev tile : ℕ → String → Tile
tile n label = record {
  number = n;
  is_button = true;
  unfocusable = false;
  is_bound = true;
  label = label;
  tab_stop = some false;
  is_highlighted = false;
  is_selected = false;
  is_current = false;
}

abbrev two : List Tile
two =
    record (tile 2 "Consulter le lot 2") { tab_stop = some true } ∷ tile 5 "Consulter le lot 5" ∷ []

abbrev map_of_two : Map
map_of_two = record {
  interactive = true;
  highlighted_units = [];
  selected_unit = none;
  active_unit = some 2;
  has_view = true;
  tiles = two;
  emitted = [];
}

map_of_two-IsAccessible : IsAccessible map_of_two
map_of_two-IsAccessible = ground arith

two_found : find_index 2 two ≡ some 0
unfolding find_index
two_found = refl

two_end : next_index end_key (some 0) two ≡ some 1
unfolding next_index
two_end = refl

next_index-bounded_example : 1 < 2
next_index-bounded_example = next_index-bounded end_key 2 0 1 two two_found two_end

key_down-arrow_right_example : (key_down 2 arrow_right false map_of_two).active_unit ≡ some 5
key_down-arrow_right_example =
    key_down-arrow_right map_of_two 0
      (record (tile 2 "Consulter le lot 2") { tab_stop = some true }) (tile 5 "Consulter le lot 5")
      false map_of_two-IsAccessible refl refl two_found refl

abbrev styled : Styled
styled = record { number = 2; classes = "unit" ∷ "old" ∷ []; applied = "old" ∷ [] }

holds-set_classes_example :
    holds "old" (set_classes (some "fresh big") styled).classes
    ≡ (holds "old" styled.classes && not (holds "old" styled.applied))
      || holds "old" (tokens (get_or (some "fresh big") ""))
holds-set_classes_example = holds-set_classes "old" (some "fresh big") styled
