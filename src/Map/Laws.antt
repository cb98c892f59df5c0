-- ===== src/Map/Laws.antt =====
-- Which lot of the map the tabulation reaches, and which ones are marked
-- (frontend/src/app/shared/components/interactive-map/interactive-map.component.ts).
pub mod Events
pub mod Keyboard
use asl_bissieux.Prelude.{
  ℕ, zero, suc, ◌+◌, ◌-◌, ◌≡◌, refl, ◌∙◌, ◌≢◌, ◌<◌, Bool, true, false, ◌&&◌, ◌||◌, not, List, [],
  ◌∷◌, map, Option, none, some, arith, if◌then◌else◌, ◌==◌, leb, any, length, get_elem?, is_some,
  All, Bool-cases, inl, inr,
}
use asl_bissieux.Map.{
  Tile, Map, new, is_number, first_number, select_tile, set_selection, with_stop, active_of,
  set_tab_stops, interact, update_interaction, set_interactive, set_highlighted_units,
  set_selected_unit, plain, init_view, reacts, click, focus, Key, find_index, next_index, target,
  is_press, key_down,
}

module _ (P Q : Tile → Type 0) (f : Tile → Tile) where
  pub All-map : ((t : Tile) → P t → Q (f t)) → (ts : List Tile) → All P ts → All Q (map f ts)
  All-map h [] a = tt
  All-map h (t ∷ ts) a = (h t a.0, All-map h ts a.1)

module _ (Q : Tile → Type 0) (f : Tile → Tile) where
  pub All-image : ((t : Tile) → Q (f t)) → (ts : List Tile) → All Q (map f ts)
  All-image h [] = tt
  All-image h (t ∷ ts) = (h t, All-image h ts)

-- A change of the attributes leaves the numbers.
pub any-map :
    (active : Option ℕ) (f : Tile → Tile)
    → ((t : Tile) → (f t).number ≡ t.number)
    → (ts : List Tile)
    → any (λ t. is_number active t.number) (map f ts) ≡ any (λ t. is_number active t.number) ts
any-map active f h [] = refl
any-map active f h (t ∷ ts) = rw (h t) (rw (any-map active f h ts) refl)

pub record IsMarked (interactive : Bool) (highlighted : List ℕ) (selected : Option ℕ) (t : Tile)
    : Type 0 where
  pub highlighted_exact : t.is_highlighted ≡ (interactive && any (λ m. m == t.number) highlighted)
  pub selected_exact : t.is_selected ≡ (interactive && is_number selected t.number)
  pub current_exact : t.is_current ≡ t.is_selected

pub record IsLive (interactive : Bool) (t : Tile) : Type 0 where
  pub button_exact : t.is_button ≡ interactive
  pub bound_exact : t.is_bound ≡ interactive

abbrev pub stop_of : Bool → Option ℕ → ℕ → Option Bool
stop_of interactive active n = if interactive then some (is_number active n) else none

abbrev pub IsStopped : Bool → Option ℕ → Tile → Type 0
IsStopped interactive active t = t.tab_stop ≡ stop_of interactive active t.number

pub record IsAccessible (s : Map) : Type 0 where
  pub marks : All (IsMarked s.interactive s.highlighted_units s.selected_unit) s.tiles
  pub handlers : All (IsLive s.interactive) s.tiles
  pub stops : All (IsStopped s.interactive s.active_unit) s.tiles
  pub active_there :
      s.interactive ≡ true
      → s.tiles ≢ []
      → any (λ t. is_number s.active_unit t.number) s.tiles ≡ true
  pub empty_before : s.has_view ≡ false → s.tiles ≡ []

any_first :
    (active : Option ℕ) (b : Bool) (t : Tile) (ts : List Tile)
    → b ≡ any (λ u. is_number active u.number) (t ∷ ts)
    → any (λ u. is_number (if b then active else some t.number) u.number) (t ∷ ts) ≡ true
any_first active true t ts e = ground arith
any_first active false t ts e = ground arith

any-active_of :
    (active : Option ℕ) (ts : List Tile)
    → ts ≢ []
    → any (λ u. is_number (active_of active ts) u.number) ts ≡ true
any-active_of active [] h = ground arith
any-active_of active (t ∷ ts) h = any_first active _ t ts refl

pub map_nonempty : (f : Tile → Tile) (ts : List Tile) → map f ts ≢ [] → ts ≢ []
map_nonempty f [] h = h
map_nonempty f (t ∷ ts) h = ground arith

pub map_empty : (f : Tile → Tile) (ts : List Tile) → ts ≡ [] → map f ts ≡ []
map_empty f [] h = refl
map_empty f (t ∷ ts) h = ground arith

-- The conditions that the tabulation does not decide.
pub record IsReady (s : Map) : Type 0 where
  pub marks : All (IsMarked s.interactive s.highlighted_units s.selected_unit) s.tiles
  pub handlers : All (IsLive s.interactive) s.tiles
  pub empty_before : s.has_view ≡ false → s.tiles ≡ []

stopped :
    (b : Bool) (s : Map)
    → s.interactive ≡ b
    → IsReady s
    → IsAccessible (
        if not b then record s { tiles = map (with_stop none) s.tiles } else record s {
          active_unit = active_of s.active_unit s.tiles;
          tiles =
              map
                (λ t. with_stop (some (is_number (active_of s.active_unit s.tiles) t.number)) t)
                s.tiles;
        })
stopped false s e r = record {
  marks =
      All-map (IsMarked s.interactive s.highlighted_units s.selected_unit)
        (IsMarked s.interactive s.highlighted_units s.selected_unit) (with_stop none)
        (λ t m. record {
          highlighted_exact = m.highlighted_exact;
          selected_exact = m.selected_exact;
          current_exact = m.current_exact;
        })
        s.tiles r.marks;
  handlers =
      All-map (IsLive s.interactive) (IsLive s.interactive) (with_stop none)
        (λ t l. record { button_exact = l.button_exact; bound_exact = l.bound_exact }) s.tiles
        r.handlers;
  stops =
      All-image (IsStopped s.interactive s.active_unit) (with_stop none) (λ t. ground arith)
        s.tiles;
  active_there = λ i. ground arith;
  empty_before = λ v. map_empty (with_stop none) s.tiles (r.empty_before v);
}
stopped true s e r =
    let active = active_of s.active_unit s.tiles in
    let f = λ (t : Tile). with_stop (some (is_number active t.number)) t in
    record {
      marks =
          All-map (IsMarked s.interactive s.highlighted_units s.selected_unit)
            (IsMarked s.interactive s.highlighted_units s.selected_unit) f
            (λ t m. record {
              highlighted_exact = m.highlighted_exact;
              selected_exact = m.selected_exact;
              current_exact = m.current_exact;
            })
            s.tiles r.marks;
      handlers =
          All-map (IsLive s.interactive) (IsLive s.interactive) f
            (λ t l. record { button_exact = l.button_exact; bound_exact = l.bound_exact }) s.tiles
            r.handlers;
      stops = All-image (IsStopped s.interactive active) f (λ t. ground arith) s.tiles;
      active_there = λ i h.
          any-map active f (λ t. refl) s.tiles
          ∙ any-active_of s.active_unit s.tiles (map_nonempty f s.tiles h);
      empty_before = λ v. map_empty f s.tiles (r.empty_before v);
    }

pub set_tab_stops-IsAccessible : (s : Map) → IsReady s → IsAccessible (set_tab_stops s)
unfolding set_tab_stops
set_tab_stops-IsAccessible s r = stopped s.interactive s refl r
