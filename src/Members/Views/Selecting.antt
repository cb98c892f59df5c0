-- ===== src/Members/Views/Selecting.antt =====
-- What the page of the members shows of a member or of a lot that is chosen
-- (frontend/src/app/members/components/member-list/member-list.component.ts).
use mathlib.Core.Path.{subst}
use asl_bissieux.Prelude.{
  ℕ, ◌≤◌, ◌≡◌, refl, ap, ◌≢◌, ◌⊎◌, inl, inr, Bool, true, false, List, [], ◌∷◌, Option, none, some,
  arith, find?, filter, get_or, Bool-cases, leb,
}
use asl_bissieux.Prelude.Strings.{String, str_eq, eq_iff}
use asl_bissieux.Query.{max_safe}
use asl_bissieux.Directory.{Member, Lot}
use asl_bissieux.Members.Matching.{has_number, member_owns_unit}
use asl_bissieux.Members.Page.{Page, map_view, has_selection, select_member, select_unit}
use asl_bissieux.Members.Views.{
  Loaded, has_id, is_unit, numbers_of, directory_units, distinct_after, highlighted_units,
  selected_member, selected_unit, selection_members, selected_units, selection_error, no_error,
}
use asl_bissieux.Members.Views.Laws.{holds, IsUnique, highlighted_units_lem}

abbrev pub Among : {A : Type 0} → A → List A → Type 0
Among a [] = ⊥
Among a (x ∷ xs) = (x ≡ a) ⊎ Among a xs

-- A search finds an element that the test lets through, if the list has one.
find-Among :
    {A : Type 0} (p : A → Bool) (xs : List A) (a : A)
    → Among a xs
    → p a ≡ true
    → (b : A) × (find? p xs ≡ some b) × (p b ≡ true) × Among b xs
find-Among p [] a m h = elim m [ ]
find-Among p (x ∷ xs) a (inl e) h = (x, ground arith, ground arith, inl refl)
find-Among p (x ∷ xs) a (inr m) h =
    let (b, at, passes, among) = find-Among p xs a m h in
    elim (Bool-cases (p x)) [
      | inl found ↦ (x, rw found refl, found, inl refl)
      | inr other ↦ (b, rw other at, passes, inr among)
    ]

has_id-eq :
    {M : Type 0} (id : String) (m : Member (Lot M)) → has_id (some id) m ≡ true → m.id ≡ some id
has_id-eq id m h = id_at m.id h
  where
    id_at :
        (own : Option String)
        → elim own [ none ↦ false | some o ↦ str_eq o id ] ≡ true
        → own ≡ some id
    id_at none h = cc
    id_at (some o) h = ap some ((eq_iff o id).0 h)

has_id_of :
    {M : Type 0} (id : String) (m : Member (Lot M)) → m.id ≡ some id → has_id (some id) m ≡ true
has_id_of id m e = rw e ((eq_iff id id).1 refl)

has_number-eq : {M : Type 0} (n : ℕ) (u : Lot M) → has_number n u ≡ true → u.number ≡ some n
has_number-eq n u h = ground arith

has_number_of : {M : Type 0} (n : ℕ) (u : Lot M) → u.number ≡ some n → has_number n u ≡ true
has_number_of n u e = rw e (ground arith)

module _ {M : Type 0} (d : Loaded M) (s : Page) where
  -- The page shows this member of the directory, on the map.
  pub record ShowsMember (m : Member (Lot M)) (t : Page) : Type 0 where
    pub on_map : t.view ≡ map_view
    pub opened : t.dialog ≡ true
    pub listed : Among m d.members
    pub found : selected_member d t ≡ some m
    pub alone : selection_members d t ≡ m ∷ []
    pub no_message : selection_error d t ≡ no_error
    pub lots_once : IsUnique (highlighted_units d t)
    pub lots : (n : ℕ) → holds n (highlighted_units d t) ≡ holds n (numbers_of (get_or m.units []))

  -- The page shows this lot, on the map.
  pub record ShowsUnit (n : ℕ) (u : Lot M) (t : Page) : Type 0 where
    pub on_map : t.view ≡ map_view
    pub opened : t.dialog ≡ true
    pub listed : Among u (directory_units d)
    pub found : selected_unit d t ≡ some u
    pub owners : selection_members d t ≡ filter (λ m. member_owns_unit m u) d.members
    pub no_message : selection_error d t ≡ no_error
    pub highlighted : highlighted_units d t ≡ n ∷ []

  no_unit : (us : List (Lot M)) → find? (is_unit none) us ≡ none
  no_unit [] = refl
  no_unit (u ∷ us) = no_unit us

  no_member : (ms : List (Member (Lot M))) → find? (has_id none) ms ≡ none
  no_member [] = refl
  no_member (m ∷ ms) = no_member ms

  member_alone :
      (t : Page) (m : Member (Lot M))
      → selected_unit d t ≡ none
      → selected_member d t ≡ some m
      → selection_members d t ≡ m ∷ []
  unfolding selection_members
  member_alone t m hu hm = ground arith

  unit_owners :
      (t : Page) (u : Lot M)
      → selected_unit d t ≡ some u
      → selection_members d t ≡ filter (λ m. member_owns_unit m u) d.members
  unfolding selection_members
  unit_owners t u hu = ground arith

  unit_highlighted :
      (n : ℕ) (u : Lot M) (t : Page)
      → selected_member d t ≡ none
      → selected_unit d t ≡ some u
      → u.number ≡ some n
      → highlighted_units d t ≡ n ∷ []
  unfolding highlighted_units numbers_of distinct_after
  unit_highlighted n u t hm hu e = rw (hm, hu, numbers_of, e, distinct_after) refl

  found-ShowsMember :
      (id : String) (m : Member (Lot M)) (t : Page)
      → t.view ≡ map_view
      → t.dialog ≡ true
      → t.member ≡ some id
      → t.unit ≡ none
      → t.invalid ≡ false
      → find? (has_id (some id)) d.members ≡ some m
      → Among m d.members
      → ShowsMember m t
  unfolding selected_member selected_unit selection_error
  found-ShowsMember id m t v o em eu ei at among =
      let chosen : selected_member d t ≡ some m = rw em at in
      let none_chosen : selected_unit d t ≡ none = rw eu (no_unit (directory_units d)) in
      let (once, same) = highlighted_units_lem d t in
      record {
        on_map = v;
        opened = o;
        listed = among;
        found = chosen;
        alone = member_alone t m none_chosen chosen;
        no_message = ground (arith, chosen, none_chosen);
        lots_once = once;
        lots = λ n.
            subst
              (λ c.
                holds n (highlighted_units d t)
                ≡ holds n (numbers_of (selected_units c (selected_unit d t))))
              chosen (same n);
      }

  found-ShowsUnit :
      (n : ℕ) (u : Lot M) (t : Page)
      → t.view ≡ map_view
      → t.dialog ≡ true
      → t.member ≡ none
      → t.unit ≡ some n
      → t.invalid ≡ false
      → find? (is_unit (some n)) (directory_units d) ≡ some u
      → u.number ≡ some n
      → Among u (directory_units d)
      → ShowsUnit n u t
  unfolding selected_member selected_unit selection_error
  found-ShowsUnit n u t v o em eu ei at number among =
      let chosen : selected_unit d t ≡ some u = rw eu at in
      let none_chosen : selected_member d t ≡ none = rw em (no_member d.members) in
      record {
        on_map = v;
        opened = o;
        listed = among;
        found = chosen;
        owners = unit_owners t u chosen;
        no_message = ground (arith, chosen, none_chosen);
        highlighted = unit_highlighted n u t none_chosen chosen number;
      }

  -- A member of the directory that is chosen by its identifier, which is not empty, is shown on the
  -- map, in the dialog, without a message: the page then shows a member of the directory with that
  -- identifier and no other, and the map highlights its lots that have a number, each once, and no
  -- other lot.
  pub select_member-ShowsMember :
      (id : String) (own : Member (Lot M))
      → id ≢ ""
      → own.id ≡ some id
      → Among own d.members
      → (m : Member (Lot M)) × (m.id ≡ some id) × ShowsMember m (select_member (some id) s)
  unfolding select_member has_selection
  select_member-ShowsMember id own filled e among =
      let (m, at, passes, there) =
        find-Among (has_id (some id)) d.members own among (has_id_of id own e) in
      let text : str_eq id "" ≡ false = ground (arith, eq_iff id "") in
      (
        m,
        has_id-eq id m passes,
        rw text (found-ShowsMember id m _ refl refl refl refl refl at there),
      )

  -- A lot of the directory that is chosen by its number, which is a safe integer, is shown on the
  -- map, in the dialog, without a message: the page shows a lot of the directory with that number
  -- and the members that own it, and the map highlights that number alone.
  pub select_unit-ShowsUnit :
      (n : ℕ) (own : Lot M)
      → n ≤ max_safe
      → own.number ≡ some n
      → Among own (directory_units d)
      → (u : Lot M) × (u.number ≡ some n) × ShowsUnit n u (select_unit (some n) s)
  unfolding select_unit has_selection
  select_unit-ShowsUnit n own safe_n e among =
      let (u, at, passes, there) =
        find-Among (is_unit (some n)) (directory_units d) own among (has_number_of n own e) in
      let number = has_number-eq n u passes in
      let allowed : leb n max_safe ≡ true = ground arith in
      (u, number, rw allowed (found-ShowsUnit n u _ refl refl refl refl refl at number there))
