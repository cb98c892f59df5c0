-- ===== src/Map.antt =====
-- frontend/src/app/shared/components/interactive-map/interactive-map.component.ts: the lots of the
-- map, of which one can be reached by the tabulation, and the keyboard that goes from one to the next.
-- A tile is an element of the drawing with the attributes that the code sets; no two have the same
-- number. `tiles` is empty until the view is there (`container`), then sorted as `unitElements`.
-- `emitted` is what `unitClick` has emitted, the latest first.
pub mod Classes
pub mod Laws
mod Tests
use Prim.Native.String
use asl_bissieux.Prelude.{
  ℕ, ◌+◌, ◌-◌, Bool, true, false, ◌&&◌, ◌||◌, not, List, [], ◌∷◌, map, Option, none, some,
  if◌then◌else◌, ◌==◌, leb, any, length, get_elem?, is_some,
}
use asl_bissieux.Prelude.Int.{ℤ, pos, ◌-ℤ◌}
use asl_bissieux.Prelude.Strings.{String}
use asl_bissieux.Query.Decimal.{decimal}
use asl_bissieux.Sorting.{sort_by}

-- `tab_stop` is the attribute `tabindex`: 0 is `some true`, -1 `some false`.
pub record Tile : Type 0 where
  pub number : ℕ
  pub is_button : Bool
  pub unfocusable : Bool
  pub is_bound : Bool
  pub label : String
  pub tab_stop : Option Bool
  pub is_highlighted : Bool
  pub is_selected : Bool
  pub is_current : Bool

pub record Map : Type 0 where
  pub interactive : Bool
  pub highlighted_units : List ℕ
  pub selected_unit : Option ℕ
  pub active_unit : Option ℕ
  pub has_view : Bool
  pub tiles : List Tile
  pub emitted : List ℕ

unfoldable pub new : Map
new = record {
  interactive = true;
  highlighted_units = [];
  selected_unit = none;
  active_unit = none;
  has_view = false;
  tiles = [];
  emitted = [];
}

abbrev pub is_number : Option ℕ → ℕ → Bool
is_number none n = false
is_number (some m) n = m == n

abbrev pub first_number : List Tile → Option ℕ
first_number [] = none
first_number (t ∷ ts) = some t.number

-- One element in `setSelection`.
abbrev pub select_tile : Bool → List ℕ → Option ℕ → Tile → Tile
select_tile interactive highlighted selected t = record t {
  is_highlighted = interactive && any (λ m. m == t.number) highlighted;
  is_selected = interactive && is_number selected t.number;
  is_current = interactive && is_number selected t.number;
}

-- `setSelection`
unfoldable pub set_selection : Map → Map
set_selection s = record s {
  tiles = map (select_tile s.interactive s.highlighted_units s.selected_unit) s.tiles;
}

abbrev pub with_stop : Option Bool → Tile → Tile
with_stop stop t = record t { tab_stop = stop }

-- `activeUnit` in `setTabStops`.
abbrev pub active_of : Option ℕ → List Tile → Option ℕ
active_of active ts = if any (λ t. is_number active t.number) ts then active else first_number ts

-- `setTabStops`
unfoldable pub set_tab_stops : Map → Map
set_tab_stops s =
    if not s.interactive
    then record s { tiles = map (with_stop none) s.tiles }
    else (let active = active_of s.active_unit s.tiles in
        record s {
          active_unit = active;
          tiles = map (λ t. with_stop (some (is_number active t.number)) t) s.tiles;
        })

-- One element in `updateInteraction`, less the class of the pointer.
abbrev pub interact : Bool → Tile → Tile
interact interactive t = record t {
  is_button = interactive;
  unfocusable = not interactive;
  is_bound = interactive;
  label =
      if interactive
      then String.◌++◌ "Consulter le lot " (decimal t.number)
      else String.◌++◌ "Lot " (decimal t.number);
}

-- `updateInteraction`
unfoldable pub update_interaction : Map → Map
unfolding set_selection set_tab_stops
update_interaction s =
    set_tab_stops (set_selection (record s { tiles = map (interact s.interactive) s.tiles }))

-- `set interactive`
unfoldable pub set_interactive : Bool → Map → Map
unfolding update_interaction
set_interactive value s =
    let t = record s { interactive = value } in if s.has_view then update_interaction t else t

-- `set highlightedUnits`
unfoldable pub set_highlighted_units : List ℕ → Map → Map
unfolding set_selection
set_highlighted_units units s =
    let t = record s { highlighted_units = units } in if s.has_view then set_selection t else t

-- `set selectedUnit`
unfoldable pub set_selected_unit : Option ℕ → Map → Map
unfolding set_selection set_tab_stops
set_selected_unit number s =
    let t = record s {
      selected_unit = number;
      active_unit = if is_some number then number else s.active_unit;
    } in
    if s.has_view then set_tab_stops (set_selection t) else t

-- An element of the drawing as it is before.
unfoldable pub plain : ℕ → Tile
plain n = record {
  number = n;
  is_button = false;
  unfocusable = false;
  is_bound = false;
  label = "";
  tab_stop = none;
  is_highlighted = false;
  is_selected = false;
  is_current = false;
}

-- `ngAfterViewInit`, for the elements with these numbers.
unfoldable pub init_view : List ℕ → Map → Map
unfolding plain update_interaction
init_view numbers s =
    if s.has_view
    then s
    else update_interaction
        (record s { has_view = true; tiles = map plain (sort_by (λ a b. pos a -ℤ pos b) numbers) })

-- Whether the element has its handlers, and they do something.
abbrev pub reacts : ℕ → Map → Bool
reacts n s = s.interactive && any (λ t. (t.number == n) && t.is_bound) s.tiles

-- `onclick`
unfoldable pub click : ℕ → Map → Map
click n s = if reacts n s then record s { emitted = n ∷ s.emitted } else s

-- `onfocus`. The browser gives the event where the element had not the focus yet.
unfoldable pub focus : ℕ → Map → Map
unfolding set_tab_stops
focus n s = if reacts n s then set_tab_stops (record s { active_unit = some n }) else s

-- `event.key`
pub data Key : Type 0 where
  enter space arrow_right arrow_down arrow_left arrow_up home end_key other : Key

-- `findIndex`
unfoldable pub find_index : ℕ → List Tile → Option ℕ
find_index n [] = none
find_index n (t ∷ ts) =
    let rest = find_index n ts in
    if t.number == n then some 0 else elim rest [ none ↦ none | some i ↦ some (i + 1) ]

abbrev pub at_most : ℕ → ℕ → ℕ
at_most a b = if leb a b then a else b

-- Where there is no such element the index is -1.
abbrev pub after_index : Option ℕ → ℕ
after_index none = 0
after_index (some i) = i + 1

abbrev pub before_index : Option ℕ → ℕ
before_index none = 0
before_index (some i) = i - 1

-- `next`
unfoldable pub next_index : Key → Option ℕ → List Tile → Option ℕ
next_index arrow_right i ts = some (at_most (after_index i) (length ts - 1))
next_index arrow_down i ts = some (at_most (after_index i) (length ts - 1))
next_index arrow_left i ts = some (before_index i)
next_index arrow_up i ts = some (before_index i)
next_index home i ts = some 0
next_index end_key i ts = some (length ts - 1)
next_index _ i ts = none

-- The element that receives the focus.
abbrev pub target : Option ℕ → List Tile → Option ℕ
target none ts = none
target (some i) ts = elim (get_elem? ts i) [ none ↦ none | some t ↦ some t.number ]

abbrev pub is_press : Key → Bool
is_press enter = true
is_press space = true
is_press _ = false

-- `onkeydown`
unfoldable pub key_down : ℕ → Key → (is_repeated : Bool) → Map → Map
unfolding find_index next_index focus
key_down n key is_repeated s =
    if not (reacts n s)
    then s
    else if is_press key
    then (if is_repeated then s else record s { emitted = n ∷ s.emitted })
    else elim (target (next_index key (find_index n s.tiles) s.tiles) s.tiles) [
      | none ↦ s
      | some m ↦ focus m s
    ]
