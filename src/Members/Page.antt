-- ===== src/Members/Page.antt =====
-- frontend/src/app/members/components/member-list/member-list.component.ts: what the page selects,
-- the address that keeps it, and the dialog that shows it.
-- A route is the three parameters that the page reads and writes; the router merges those that a
-- navigation names, and none of them is left out. `dialog` is whether `selectionDialog` is set. The
-- number of a lot is not negative.
pub mod Laws
use asl_bissieux.Prelude.{
  ℕ, Bool, true, false, ◌&&◌, ◌||◌, not, List, [], ◌∷◌, Option, none, some, if◌then◌else◌, leb,
  is_some,
}
use asl_bissieux.Prelude.Strings.{String, str_eq}
use asl_bissieux.Prelude.Text.{has_text}
use asl_bissieux.Query.{read_lot, max_safe}
use asl_bissieux.Query.Decimal.{decimal}

pub data View : Type 0 where
  list_view map_view : View

pub record Route : Type 0 where
  pub view : Option String
  pub member : Option String
  pub lot : Option String

-- What the router is asked for.
pub record Navigation : Type 0 where
  pub route : Route
  pub replace_url : Bool

pub record Page : Type 0 where
  pub view : View
  pub member : Option String
  pub unit : Option ℕ
  pub invalid : Bool
  pub dialog : Bool
  pub query : String
  pub asked : Option Navigation
  pub alive : Bool

-- Before the first address.
unfoldable pub new : Page
new = record {
  view = list_view;
  member = none;
  unit = none;
  invalid = false;
  dialog = false;
  query = "";
  asked = none;
  alive = true;
}

abbrev pub read_view : Option String → View
read_view none = list_view
read_view (some v) = if str_eq v "map" then map_view else list_view

abbrev pub view_text : View → Option String
view_text list_view = none
view_text map_view = some "map"

abbrev pub lot_text : Option ℕ → Option String
lot_text none = none
lot_text (some n) = some (decimal n)

abbrev pub is_map : View → Bool
is_map list_view = false
is_map map_view = true

-- `hasSelection`
unfoldable pub has_selection : Page → Bool
has_selection s = is_some s.unit || has_text s.member || s.invalid

-- `syncDialog`, less the focus: `closeDialog` closes it, and it is opened once.
unfoldable pub sync_dialog : Page → Page
unfolding has_selection
sync_dialog s = record s { dialog = is_map s.view && has_selection s }

-- The parameters of `syncRoute`.
unfoldable pub route_of : Page → Route
route_of s = record { view = view_text s.view; member = s.member; lot = lot_text s.unit }

-- `syncRoute`
unfoldable pub sync_route : (replace_url : Bool) → Page → Page
unfolding route_of
sync_route replace_url s = record s {
  asked = some record { route = route_of s; replace_url = replace_url };
}

-- `query.valueChanges`
unfoldable pub change_query : String → Page → Page
unfolding sync_dialog sync_route
change_query query s =
    sync_route true
      (sync_dialog (record s { query = query; member = none; unit = none; invalid = false }))

abbrev pub read_unit : Option String → Option ℕ
read_unit none = none
read_unit (some lot) = read_lot lot

abbrev pub is_invalid : Option String → Bool
is_invalid none = false
is_invalid (some lot) = not (is_some (read_lot lot))

-- `queryParamMap` emits.
unfoldable pub read_route : Route → Page → Page
unfolding sync_dialog
read_route r s = sync_dialog (record s {
  view = read_view r.view;
  invalid = is_invalid r.lot;
  unit = read_unit r.lot;
  member = if is_some r.lot then none else r.member;
})

-- `setView`
unfoldable pub set_view : String → Page → Page
unfolding sync_dialog sync_route
set_view view s = sync_route false (sync_dialog (record s { view = read_view (some view) }))

-- `selectMember`, for the identifier of the member.
unfoldable pub select_member : Option String → Page → Page
unfolding sync_dialog sync_route
select_member id s =
    if not (has_text id)
    then s
    else sync_dialog
        (sync_route false (record s { view = map_view; member = id; unit = none; invalid = false }))

-- `selectUnit`
unfoldable pub select_unit : Option ℕ → Page → Page
unfolding sync_dialog sync_route
select_unit none s = s
select_unit (some n) s =
    if not (leb n max_safe)
    then s
    else sync_dialog (
        sync_route false
          (record s { view = map_view; unit = some n; member = none; invalid = false }))

-- `clearSelection`
unfoldable pub clear_selection : Page → Page
unfolding sync_dialog sync_route
clear_selection s =
    sync_dialog (sync_route false (record s { member = none; unit = none; invalid = false }))

-- The user closes the dialog: `beforeClosed` of the one that is open.
unfoldable pub close : Page → Page
unfolding clear_selection
close s = if s.dialog then clear_selection (record s { dialog = false }) else s

-- `ngOnDestroy`
unfoldable pub destroy : Page → Page
destroy s = record s { dialog = false; alive = false }
