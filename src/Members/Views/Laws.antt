-- ===== src/Members/Views/Laws.antt =====
-- The lots that the map of the members highlights, and the message on a selection
-- (frontend/src/app/members/components/member-list/member-list.component.ts).
use asl_bissieux.Prelude.{
  ℕ, ◌≡◌, refl, Bool, true, false, List, [], ◌∷◌, arith, ◌==◌, any, Bool-cases, inl, inr,
}
use asl_bissieux.Members.Page.{Page}
use asl_bissieux.Members.Views.{
  Loaded, numbers_of, selected_units, distinct_after, highlighted_units, selected_member,
  selected_unit,
}

abbrev pub holds : ℕ → List ℕ → Bool
holds n ns = any (λ m. m == n) ns

abbrev pub IsUnique : List ℕ → Type 0
IsUnique [] = Unit
IsUnique (n ∷ ns) = (holds n ns ≡ false) × IsUnique ns

distinct_after-fresh :
    (k : ℕ) (seen ns : List ℕ) → holds k seen ≡ true → holds k (distinct_after seen ns) ≡ false
unfolding distinct_after
distinct_after-fresh k seen [] h = refl
distinct_after-fresh k seen (n ∷ ns) h =
    ground (arith, distinct_after-fresh k seen ns h, distinct_after-fresh k (n ∷ seen) ns)

distinct_after-IsUnique : (seen ns : List ℕ) → IsUnique (distinct_after seen ns)
unfolding distinct_after
distinct_after-IsUnique seen [] = tt
distinct_after-IsUnique seen (n ∷ ns) = elim (Bool-cases (holds n seen)) [
  | inl e ↦ rw e (distinct_after-IsUnique seen ns)
  | inr e ↦
      rw e
        (distinct_after-fresh n (n ∷ seen) ns (ground arith), distinct_after-IsUnique (n ∷ seen) ns)
]

holds-distinct_after :
    (k : ℕ) (seen ns : List ℕ)
    → holds k seen ≡ false
    → holds k (distinct_after seen ns) ≡ holds k ns
unfolding distinct_after
holds-distinct_after k seen [] h = refl
holds-distinct_after k seen (n ∷ ns) h = ground (
  arith,
  holds-distinct_after k seen ns h,
  holds-distinct_after k (n ∷ seen) ns,
  distinct_after-fresh k (n ∷ seen) ns,
)

-- The map highlights the lots of the member that is selected, or else the lot that is selected, each
-- once: those with a number, and no other.
pub highlighted_units_lem :
    {M : Type 0} (d : Loaded M) (s : Page)
    → IsUnique (highlighted_units d s)
      × ((n : ℕ)
          → holds n (highlighted_units d s)
            ≡ holds n (numbers_of (selected_units (selected_member d s) (selected_unit d s))))
unfolding highlighted_units
highlighted_units_lem d s =
    let ns = numbers_of (selected_units (selected_member d s) (selected_unit d s)) in
    (distinct_after-IsUnique [] ns, λ n. holds-distinct_after n [] ns refl)
