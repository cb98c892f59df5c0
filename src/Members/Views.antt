-- ===== src/Members/Views.antt =====
-- frontend/src/app/members/components/member-list/member-list.component.ts: what the page of the
-- members shows of its selection.
-- The `Map` of the lots is the list of its entries in the order of insertion; a message is named by
-- what it says.
pub mod Laws
pub mod Selecting
use asl_bissieux.Prelude.{
  ℕ, ◌≡◌, refl, ◌≢◌, Bool, true, false, ◌&&◌, ◌||◌, not, List, [], ◌∷◌, ◌++◌, map, Option, none,
  some, arith, if◌then◌else◌, ◌==◌, find?, filter, any, get_or, is_some, Bool-cases, inl, inr,
}
use asl_bissieux.Prelude.Int.{ℤ, pos, ◌-ℤ◌}
use asl_bissieux.Prelude.Strings.{String, str_eq}
use asl_bissieux.Prelude.Text.{has_text}
use asl_bissieux.Directory.{Member, Lot}
use asl_bissieux.Sorting.{sort_by}
use asl_bissieux.Members.Matching.{has_number, member_owns_unit}
use asl_bissieux.Members.Page.{Page}

-- What the data source has published.
pub record Loaded (M : Type 0) : Type 0 where
  pub members : List (Member (Lot M))
  pub all_units : List (Lot M)
  pub loading : Bool
  pub loaded : Bool
  pub error : Bool
  pub units_error : Bool
  pub units_loading : Bool

-- The keys of the `Map`.
pub data Key : Type 0 where
  by_id : String → Key
  by_number : ℕ → Key

abbrev pub same_key : Key → Key → Bool
same_key (by_id a) (by_id b) = str_eq a b
same_key (by_id a) (by_number n) = false
same_key (by_number n) (by_id a) = false
same_key (by_number n) (by_number m) = n == m

module _ {M : Type 0} where
  -- A lot without an identifier and without a number is left out.
  unfoldable pub key_of : Lot M → Option Key
  key_of u = elim u.id [
    | some id ↦ if str_eq id "" && not (is_some u.number) then none else some (by_id id)
    | none ↦ elim u.number [ none ↦ none | some n ↦ some (by_number n) ]
  ]

  -- `units.set(key, unit)`
  unfoldable pub set_key : Key → Lot M → List (Key × Lot M) → List (Key × Lot M)
  set_key k u [] = (k, u) ∷ []
  set_key k u (e ∷ es) =
      let rest = set_key k u es in if same_key e.0 k then (k, u) ∷ es else e ∷ rest

  unfoldable pub set_units : List (Lot M) → List (Key × Lot M) → List (Key × Lot M)
  unfolding key_of set_key
  set_units [] es = es
  set_units (u ∷ us) es = set_units us (elim (key_of u) [ none ↦ es | some k ↦ set_key k u es ])

  unfoldable pub set_members : List (Member (Lot M)) → List (Key × Lot M) → List (Key × Lot M)
  unfolding set_units
  set_members [] es = es
  set_members (m ∷ ms) es = set_members ms (set_units (get_or m.units []) es)

  -- `directoryUnits`
  unfoldable pub directory_units : Loaded M → List (Lot M)
  unfolding set_members
  directory_units d =
      if not d.units_error
      then d.all_units
      else sort_by (λ a b. pos (get_or a.number 0) -ℤ pos (get_or b.number 0))
          (map (λ e. e.1) (set_members d.members []))

  abbrev pub has_id : Option String → Member (Lot M) → Bool
  has_id none m = false
  has_id (some id) m = elim m.id [ none ↦ false | some own ↦ str_eq own id ]

  abbrev pub is_unit : Option ℕ → Lot M → Bool
  is_unit none u = false
  is_unit (some n) u = has_number n u

  -- `selectedMember`
  unfoldable pub selected_member : Loaded M → Page → Option (Member (Lot M))
  selected_member d s = find? (has_id s.member) d.members

  -- `selectedUnit`
  unfoldable pub selected_unit : Loaded M → Page → Option (Lot M)
  unfolding directory_units
  selected_unit d s = find? (is_unit s.unit) (directory_units d)

  -- `selectionMembers`
  unfoldable pub selection_members : Loaded M → Page → List (Member (Lot M))
  unfolding selected_member selected_unit
  selection_members d s = elim (selected_unit d s) [
    | some unit ↦ filter (λ m. member_owns_unit m unit) d.members
    | none ↦ elim (selected_member d s) [ none ↦ [] | some m ↦ m ∷ [] ]
  ]

  unfoldable pub numbers_of : List (Lot M) → List ℕ
  numbers_of [] = []
  numbers_of (u ∷ us) = elim u.number [ none ↦ numbers_of us | some n ↦ n ∷ numbers_of us ]

  abbrev pub selected_units : Option (Member (Lot M)) → Option (Lot M) → List (Lot M)
  selected_units (some m) unit = get_or m.units []
  selected_units none none = []
  selected_units none (some unit) = unit ∷ []

-- `[...new Set(…)]`, after the numbers that were seen.
unfoldable pub distinct_after : List ℕ → List ℕ → List ℕ
distinct_after seen [] = []
distinct_after seen (n ∷ ns) =
    let old = distinct_after seen ns in
    let fresh = distinct_after (n ∷ seen) ns in if any (λ m. m == n) seen then old else n ∷ fresh

-- The messages of `selectionError`.
pub data SelectionError : Type 0 where
  no_error invalid_link member_gone unit_loading unit_failed unit_gone : SelectionError

module _ {M : Type 0} where
  -- `highlightedUnits`
  unfoldable pub highlighted_units : Loaded M → Page → List ℕ
  unfolding distinct_after numbers_of
  highlighted_units d s =
      distinct_after [] (numbers_of (selected_units (selected_member d s) (selected_unit d s)))

  -- `selectionError`
  unfoldable pub selection_error : Loaded M → Page → SelectionError
  selection_error d s =
      if not d.loaded || d.loading || d.error
      then no_error
      else if s.invalid
      then invalid_link
      else if has_text s.member && not (is_some (selected_member d s))
      then member_gone
      else if is_some s.unit && not (is_some (selected_unit d s))
      then (if d.units_loading
          then unit_loading
          else if d.units_error
          then unit_failed
          else unit_gone)
      else no_error
