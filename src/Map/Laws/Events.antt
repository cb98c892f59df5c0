-- ===== src/Map/Laws/Events.antt =====
-- Every input, click and key keeps the map accessible
-- (frontend/src/app/shared/components/interactive-map/interactive-map.component.ts).
use asl_bissieux.Prelude.Int.{pos, ◌-ℤ◌}
use asl_bissieux.Sorting.{sort_by}
use asl_bissieux.Prelude.{
  ℕ, ◌≡◌, refl, ◌∙◌, Bool, true, false, not, List, [], ◌∷◌, map, Option, none, some, arith,
  if◌then◌else◌, is_some, All,
}
use asl_bissieux.Map.{
  Map, new, select_tile, set_selection, interact, update_interaction, set_interactive,
  set_highlighted_units, set_selected_unit, plain, init_view, reacts, click, focus, Key, find_index,
  next_index, target, is_press, key_down,
}
use asl_bissieux.Map.Laws.{
  All-map, All-image, any-map, map_nonempty, map_empty, IsMarked, IsLive, IsStopped, IsAccessible,
  IsReady, set_tab_stops-IsAccessible,
}

set_selection-IsReady :
    (s : Map)
    → All (IsLive s.interactive) s.tiles
    → (s.has_view ≡ false → s.tiles ≡ [])
    → IsReady (set_selection s)
unfolding set_selection
set_selection-IsReady s l v =
    let f = select_tile s.interactive s.highlighted_units s.selected_unit in
    record {
      marks =
          All-image (IsMarked s.interactive s.highlighted_units s.selected_unit) f
            (λ t. record { highlighted_exact = refl; selected_exact = refl; current_exact = refl })
            s.tiles;
      handlers =
          All-map (IsLive s.interactive) (IsLive s.interactive) f
            (λ t m. record { button_exact = m.button_exact; bound_exact = m.bound_exact }) s.tiles
            l;
      empty_before = λ h. map_empty f s.tiles (v h);
    }

update_interaction-IsAccessible :
    (s : Map) → (s.has_view ≡ false → s.tiles ≡ []) → IsAccessible (update_interaction s)
unfolding update_interaction
update_interaction-IsAccessible s v =
    let t = record s { tiles = map (interact s.interactive) s.tiles } in
    set_tab_stops-IsAccessible (set_selection t) (
      set_selection-IsReady t
        (All-image (IsLive s.interactive) (interact s.interactive)
          (λ t. record { button_exact = refl; bound_exact = refl }) s.tiles)
        (λ h. map_empty (interact s.interactive) s.tiles (v h)))

if-IsAccessible :
    (b : Bool) {s t : Map}
    → (b ≡ true → IsAccessible s)
    → (b ≡ false → IsAccessible t)
    → IsAccessible (if b then s else t)
if-IsAccessible true f g = f refl
if-IsAccessible false f g = g refl

-- Without a view there is no tile to be right.
bare : (s : Map) → s.tiles ≡ [] → IsAccessible s
bare s e = record {
  marks = rw e tt;
  handlers = rw e tt;
  stops = rw e tt;
  active_there = λ i h. ground arith;
  empty_before = λ h. e;
}

set_interactive-IsAccessible :
    (b : Bool) (s : Map) → IsAccessible s → IsAccessible (set_interactive b s)
unfolding set_interactive
set_interactive-IsAccessible b s a =
    if-IsAccessible s.has_view
      (λ v. update_interaction-IsAccessible (record s { interactive = b }) a.empty_before)
      (λ v. bare (record s { interactive = b }) (a.empty_before v))

set_highlighted_units-IsAccessible :
    (units : List ℕ) (s : Map) → IsAccessible s → IsAccessible (set_highlighted_units units s)
unfolding set_highlighted_units set_selection
set_highlighted_units-IsAccessible units s a =
    let f = select_tile s.interactive units s.selected_unit in
    let t = record s { highlighted_units = units } in
    if-IsAccessible s.has_view
      (λ v.
        let r = set_selection-IsReady t a.handlers a.empty_before in
        record {
          marks = r.marks;
          handlers = r.handlers;
          stops =
              All-map (IsStopped s.interactive s.active_unit)
                (IsStopped s.interactive s.active_unit) f (λ u h. h) s.tiles a.stops;
          active_there = λ i h.
              any-map s.active_unit f (λ u. refl) s.tiles
              ∙ a.active_there i (map_nonempty f s.tiles h);
          empty_before = r.empty_before;
        })
      (λ v. bare t (a.empty_before v))

set_selected_unit-IsAccessible :
    (n : Option ℕ) (s : Map) → IsAccessible s → IsAccessible (set_selected_unit n s)
unfolding set_selected_unit
set_selected_unit-IsAccessible n s a =
    let t = record s { selected_unit = n; active_unit = if is_some n then n else s.active_unit } in
    if-IsAccessible s.has_view
      (λ v.
        set_tab_stops-IsAccessible (set_selection t)
          (set_selection-IsReady t a.handlers a.empty_before))
      (λ v. bare t (a.empty_before v))

init_view-IsAccessible : (ns : List ℕ) (s : Map) → IsAccessible s → IsAccessible (init_view ns s)
unfolding init_view
init_view-IsAccessible ns s a =
    if-IsAccessible s.has_view (λ v. a)
      (λ v.
        update_interaction-IsAccessible
          (record s { has_view = true; tiles = map plain (sort_by (λ a b. pos a -ℤ pos b) ns) })
          (λ h. ground arith))

focus-IsAccessible : (n : ℕ) (s : Map) → IsAccessible s → IsAccessible (focus n s)
unfolding focus
focus-IsAccessible n s a =
    if-IsAccessible (reacts n s)
      (λ _.
        set_tab_stops-IsAccessible (record s { active_unit = some n })
          record { marks = a.marks; handlers = a.handlers; empty_before = a.empty_before })
      (λ _. a)

emit-IsAccessible :
    (ns : List ℕ) (s : Map) → IsAccessible s → IsAccessible (record s { emitted = ns })
emit-IsAccessible ns s a = record {
  marks = a.marks;
  handlers = a.handlers;
  stops = a.stops;
  active_there = a.active_there;
  empty_before = a.empty_before;
}

focus_target-IsAccessible :
    (m : Option ℕ) (s : Map)
    → IsAccessible s
    → IsAccessible (elim m [ none ↦ s | some k ↦ focus k s ])
focus_target-IsAccessible none s a = a
focus_target-IsAccessible (some k) s a = focus-IsAccessible k s a

key_down-IsAccessible :
    (n : ℕ) (key : Key) (b : Bool) (s : Map) → IsAccessible s → IsAccessible (key_down n key b s)
unfolding key_down
key_down-IsAccessible n key b s a =
    if-IsAccessible (not (reacts n s)) (λ _. a)
      (λ _.
        if-IsAccessible (is_press key)
          (λ _. if-IsAccessible b (λ _. a) (λ _. emit-IsAccessible (n ∷ s.emitted) s a))
          (λ _.
            focus_target-IsAccessible
              (target (next_index key (find_index n s.tiles) s.tiles) s.tiles) s a))

pub data Event : Type 0 where
  sets_interactive : Bool → Event
  sets_highlighted : List ℕ → Event
  sets_selected : Option ℕ → Event
  inits : List ℕ → Event
  clicks focuses : ℕ → Event
  presses : ℕ → Key → Bool → Event

unfoldable pub handle : Event → Map → Map
handle (sets_interactive b) s = set_interactive b s
handle (sets_highlighted ns) s = set_highlighted_units ns s
handle (sets_selected n) s = set_selected_unit n s
handle (inits ns) s = init_view ns s
handle (clicks n) s = click n s
handle (focuses n) s = focus n s
handle (presses n key b) s = key_down n key b s

handle-IsAccessible : (e : Event) (s : Map) → IsAccessible s → IsAccessible (handle e s)
unfolding handle click
handle-IsAccessible (sets_interactive b) s a = set_interactive-IsAccessible b s a
handle-IsAccessible (sets_highlighted ns) s a = set_highlighted_units-IsAccessible ns s a
handle-IsAccessible (sets_selected n) s a = set_selected_unit-IsAccessible n s a
handle-IsAccessible (inits ns) s a = init_view-IsAccessible ns s a
handle-IsAccessible (clicks n) s a =
    if-IsAccessible (reacts n s) (λ _. emit-IsAccessible (n ∷ s.emitted) s a) (λ _. a)
handle-IsAccessible (focuses n) s a = focus-IsAccessible n s a
handle-IsAccessible (presses n key b) s a = key_down-IsAccessible n key b s a

unfoldable pub run : List Event → Map → Map
run [] s = s
run (e ∷ es) s = run es (handle e s)

run-IsAccessible : (es : List Event) (s : Map) → IsAccessible s → IsAccessible (run es s)
unfolding run
run-IsAccessible [] s a = a
run-IsAccessible (e ∷ es) s a = run-IsAccessible es (handle e s) (handle-IsAccessible e s a)

-- After any inputs, clicks and keys: on an interactive map that has lots one of them is the active
-- one, and a lot is reached by the tabulation exactly if it is that one; on a map that is not no lot
-- is reached, none has handlers, and none is marked; the lots that are highlighted and selected are
-- those that the inputs name.
pub run-new-IsAccessible : (es : List Event) → IsAccessible (run es new)
unfolding new
run-new-IsAccessible es = run-IsAccessible es new (bare new refl)
