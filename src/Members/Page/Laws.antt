-- ===== src/Members/Page/Laws.antt =====
-- The selection of the page of the members, its dialog and its address
-- (frontend/src/app/members/components/member-list/member-list.component.ts).
use asl_bissieux.Prelude.{
  ℕ, ◌≡◌, refl, ap, ◌≤◌, Bool, true, false, ◌&&◌, not, List, [], ◌∷◌, Option, none, some, arith,
  if◌then◌else◌, leb, is_some, Bool-cases, inl, inr,
}
use asl_bissieux.Prelude.Strings.{String}
use asl_bissieux.Prelude.Text.{has_text}
use asl_bissieux.Query.{read_digits, read_lot, safe, max_safe}
use asl_bissieux.Query.Decimal.{read_lot-decimal}
use asl_bissieux.Members.Page.{
  View, list_view, map_view, Route, Page, new, read_view, view_text, lot_text, is_map,
  has_selection, sync_dialog, route_of, sync_route, change_query, read_unit, is_invalid, read_route,
  set_view, select_member, select_unit, clear_selection, close, destroy,
}

pub data Event : Type 0 where
  changes_query : String → Event
  changes_route : Route → Event
  sets_view : String → Event
  selects_member : Option String → Event
  selects_unit : Option ℕ → Event
  clears closes destroys : Event

abbrev pub react : Event → Page → Page
react (changes_query query) s = change_query query s
react (changes_route r) s = read_route r s
react (sets_view view) s = set_view view s
react (selects_member id) s = select_member id s
react (selects_unit n) s = select_unit n s
react clears s = clear_selection s
react closes s = close s
react destroys s = destroy s

-- Once it is destroyed, nothing reaches the page.
abbrev pub handle : Event → Page → Page
handle e s = if s.alive then react e s else s

unfoldable pub run : List Event → Page → Page
run [] s = s
run (e ∷ es) s = run es (handle e s)

abbrev pub IsSafe : Option ℕ → Type 0
IsSafe none = Unit
IsSafe (some n) = n ≤ max_safe

pub record IsConsistent (s : Page) : Type 0 where
  pub dialog_exact : s.dialog ≡ s.alive && is_map s.view && has_selection s
  pub one_selected : is_some s.unit ≡ true → s.member ≡ none
  pub invalid_alone : s.invalid ≡ true → (s.unit ≡ none) × (s.member ≡ none)
  pub unit_safe : IsSafe s.unit

new-IsConsistent : IsConsistent new
unfolding new has_selection
new-IsConsistent = ground arith

-- A selection that respects the other conditions does so with its dialog.
record IsExclusive (s : Page) : Type 0 where
  one_selected : is_some s.unit ≡ true → s.member ≡ none
  invalid_alone : s.invalid ≡ true → (s.unit ≡ none) × (s.member ≡ none)
  unit_safe : IsSafe s.unit
  here : s.alive ≡ true

sync_dialog-IsConsistent : (s : Page) → IsExclusive s → IsConsistent (sync_dialog s)
unfolding sync_dialog has_selection
sync_dialog-IsConsistent s x = record {
  dialog_exact = rw (x.here) refl;
  one_selected = x.one_selected;
  invalid_alone = x.invalid_alone;
  unit_safe = x.unit_safe;
}

sync_route-IsConsistent : (b : Bool) (s : Page) → IsConsistent s → IsConsistent (sync_route b s)
unfolding sync_route has_selection
sync_route-IsConsistent b s c = record {
  dialog_exact = c.dialog_exact;
  one_selected = c.one_selected;
  invalid_alone = c.invalid_alone;
  unit_safe = c.unit_safe;
}

safe-IsSafe : (n : Option ℕ) → IsSafe (safe n)
safe-IsSafe none = tt
safe-IsSafe (some n) = elim (Bool-cases (leb n max_safe)) [
  | inl e ↦ rw e (let below : n ≤ max_safe = ground arith in below)
  | inr e ↦ rw e tt
]

read_unit-IsSafe : (lot : Option String) → IsSafe (read_unit lot)
unfolding read_lot
read_unit-IsSafe none = tt
read_unit-IsSafe (some lot) = safe-IsSafe (read_digits lot)

if-IsConsistent :
    (b : Bool) {s t : Page}
    → (b ≡ true → IsConsistent s)
    → (b ≡ false → IsConsistent t)
    → IsConsistent (if b then s else t)
if-IsConsistent true f g = f refl
if-IsConsistent false f g = g refl

read_route-IsConsistent : (r : Route) (s : Page) → s.alive ≡ true → IsConsistent (read_route r s)
unfolding read_route
read_route-IsConsistent r s a =
    sync_dialog-IsConsistent
      (record s {
        view = read_view r.view;
        invalid = is_invalid r.lot;
        unit = read_unit r.lot;
        member = if is_some r.lot then none else r.member;
      })
      record {
        one_selected = ground arith;
        invalid_alone = ground arith;
        unit_safe = read_unit-IsSafe r.lot;
        here = a;
      }

clear_selection-IsConsistent : (s : Page) → s.alive ≡ true → IsConsistent (clear_selection s)
unfolding clear_selection sync_route
clear_selection-IsConsistent s a =
    sync_dialog-IsConsistent
      (sync_route false (record s { member = none; unit = none; invalid = false }))
      record {
        one_selected = λ _. refl;
        invalid_alone = λ _. (refl, refl);
        unit_safe = tt;
        here = a;
      }

select_unit-IsConsistent :
    (n : Option ℕ) (s : Page) → s.alive ≡ true → IsConsistent s → IsConsistent (select_unit n s)
unfolding select_unit sync_route
select_unit-IsConsistent none s a c = c
select_unit-IsConsistent (some n) s a c =
    if-IsConsistent (not (leb n max_safe)) (λ _. c)
      (λ e.
        sync_dialog-IsConsistent
          (sync_route false
            (record s { view = map_view; unit = some n; member = none; invalid = false }))
          record {
            one_selected = λ _. refl;
            invalid_alone = λ h. ground arith;
            unit_safe = (let below : n ≤ max_safe = ground arith in below);
            here = a;
          })

react-IsConsistent :
    (e : Event) (s : Page) → s.alive ≡ true → IsConsistent s → IsConsistent (react e s)
unfolding change_query set_view select_member sync_route close destroy has_selection
react-IsConsistent (changes_query query) s a c =
    sync_route-IsConsistent true
      (sync_dialog (record s { query = query; member = none; unit = none; invalid = false }))
      (sync_dialog-IsConsistent
        (record s { query = query; member = none; unit = none; invalid = false })
        record {
          one_selected = λ _. refl;
          invalid_alone = λ _. (refl, refl);
          unit_safe = tt;
          here = a;
        })
react-IsConsistent (changes_route r) s a c = read_route-IsConsistent r s a
react-IsConsistent (sets_view view) s a c =
    sync_route-IsConsistent false (sync_dialog (record s { view = read_view (some view) })) (
      sync_dialog-IsConsistent (record s { view = read_view (some view) })
        record {
          one_selected = c.one_selected;
          invalid_alone = c.invalid_alone;
          unit_safe = c.unit_safe;
          here = a;
        })
react-IsConsistent (selects_member id) s a c =
    if-IsConsistent (not (has_text id)) (λ _. c)
      (λ _.
        sync_dialog-IsConsistent
          (sync_route false
            (record s { view = map_view; member = id; unit = none; invalid = false }))
          record {
            one_selected = λ n. ground arith;
            invalid_alone = λ n. ground arith;
            unit_safe = tt;
            here = a;
          })
react-IsConsistent (selects_unit n) s a c = select_unit-IsConsistent n s a c
react-IsConsistent clears s a c = clear_selection-IsConsistent s a
react-IsConsistent closes s a c =
    if-IsConsistent s.dialog (λ _. clear_selection-IsConsistent (record s { dialog = false }) a)
      (λ _. c)
react-IsConsistent destroys s a c = record {
  dialog_exact = refl;
  one_selected = c.one_selected;
  invalid_alone = c.invalid_alone;
  unit_safe = c.unit_safe;
}

run-IsConsistent : (es : List Event) (s : Page) → IsConsistent s → IsConsistent (run es s)
unfolding run
run-IsConsistent [] s c = c
run-IsConsistent (e ∷ es) s c =
    run-IsConsistent es (handle e s)
      (if-IsConsistent s.alive (λ a. react-IsConsistent e s a c) (λ _. c))

-- Whatever the order of queries, addresses, choices and closings: the dialog is open exactly on the
-- map with something selected (an invalid address included) while the page lives, never are a
-- member and a lot both selected, an invalid address selects neither, and a lot that is selected has
-- a number that is safe.
pub run-new-IsConsistent : (es : List Event) → IsConsistent (run es new)
run-new-IsConsistent es = run-IsConsistent es new new-IsConsistent

read_view_text : (v : View) → read_view (view_text v) ≡ v
read_view_text list_view = refl
read_view_text map_view = refl

read_lot_text : (u : Option ℕ) → IsSafe u → read_unit (lot_text u) ≡ u
read_lot_text none h = refl
read_lot_text (some n) h = read_lot-decimal n h

valid_lot_text : (u : Option ℕ) → IsSafe u → is_invalid (lot_text u) ≡ false
valid_lot_text none h = refl
valid_lot_text (some n) h = ap (λ r. not (is_some r)) (read_lot-decimal n h)

kept_member :
    (u : Option ℕ) (m : Option String)
    → (is_some u ≡ true → m ≡ none)
    → (if is_some (lot_text u) then none else m) ≡ m
kept_member none m h = refl
kept_member (some n) m h = rw (h refl) refl

-- The address that the page asks for selects what is selected: when the router comes back with it,
-- nothing changes, for a page that lives and whose selection is valid.
pub read_route-route_of :
    (s : Page) → IsConsistent s → s.alive ≡ true → s.invalid ≡ false → read_route (route_of s) s ≡ s
unfolding read_route route_of sync_dialog has_selection
read_route-route_of s c a i =
    let v = read_view_text s.view in
    let u = read_lot_text s.unit c.unit_safe in
    let w = valid_lot_text s.unit c.unit_safe in
    let m = kept_member s.unit s.member c.one_selected in ground (arith, c.dialog_exact)
