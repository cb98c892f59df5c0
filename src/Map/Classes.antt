-- ===== src/Map/Classes.antt =====
-- The classes of the lots of the map: `setUnitClasses` of
-- frontend/src/app/shared/components/interactive-map/interactive-map.component.ts.
-- `classes` is the `classList` of the element, `applied` what `appliedClasses` holds under its number.
use Prim.Native.Char.{Char, code}
use mathlib.Core.Path.{subst}
use asl_bissieux.Prelude.{
  ℕ, ◌≡◌, refl, Bool, true, ◌&&◌, ◌||◌, not, List, [], ◌∷◌, ◌++◌, map, Option, arith, if◌then◌else◌,
  filter, any, get_or, Bool-cases, inl, inr,
}
use asl_bissieux.Prelude.Strings.{String, str_eq, eq_iff}
use asl_bissieux.Prelude.Text.{is_space}

pub record Styled : Type 0 where
  pub number : ℕ
  pub classes : List String
  pub applied : List String

abbrev onto_first : Char → List String → List String
onto_first c [] = String.◌∷◌ c String.[] ∷ []
onto_first c (w ∷ ws) = String.◌∷◌ c w ∷ ws

-- `split(/\s+/)`, with an empty text between two white spaces, which the filter removes.
unfoldable pub split_spaces : String → List String
split_spaces String.[] = String.[] ∷ []
split_spaces (String.◌∷◌ c s) =
    let rest = split_spaces s in if is_space (code c) then String.[] ∷ rest else onto_first c rest

-- `split(/\s+/).filter(Boolean)`
unfoldable pub tokens : String → List String
unfolding split_spaces
tokens s = filter (λ w. not (str_eq w "")) (split_spaces s)

abbrev pub holds : String → List String → Bool
holds c cs = any (λ d. str_eq d c) cs

-- `classList.remove`, `classList.add`
abbrev pub remove_class : String → List String → List String
remove_class c cs = filter (λ d. not (str_eq d c)) cs

abbrev pub add_class : String → List String → List String
add_class c cs = if holds c cs then cs else cs ++ c ∷ []

unfoldable pub remove_classes : List String → List String → List String
remove_classes [] cs = cs
remove_classes (c ∷ rest) cs = remove_classes rest (remove_class c cs)

unfoldable pub add_classes : List String → List String → List String
add_classes [] cs = cs
add_classes (c ∷ rest) cs = add_classes rest (add_class c cs)

-- One element in `setUnitClasses`.
unfoldable pub set_classes : Option String → Styled → Styled
unfolding tokens remove_classes add_classes
set_classes cls e =
    let next = tokens (get_or cls "") in
    record e { classes = add_classes next (remove_classes e.applied e.classes); applied = next }

-- `setUnitClasses`
unfoldable pub set_unit_classes : (ℕ → Option String) → List Styled → List Styled
unfolding set_classes
set_unit_classes classes es = map (λ e. set_classes (classes e.number) e) es

holds-remove_class :
    (k c : String) (cs : List String) → holds k (remove_class c cs) ≡ holds k cs && not (str_eq c k)
holds-remove_class k c [] = refl
holds-remove_class k c (d ∷ cs) =
    ground (arith, holds-remove_class k c cs, eq_iff d c, eq_iff d k, eq_iff c k)

holds-append : (k c : String) (cs : List String) → holds k (cs ++ c ∷ []) ≡ holds k cs || str_eq c k
holds-append k c [] = ground arith
holds-append k c (d ∷ cs) = ground (arith, holds-append k c cs)

holds_same :
    (k c : String) (cs : List String) → holds c cs ≡ true → str_eq c k ≡ true → holds k cs ≡ true
holds_same k c cs h e = subst (λ d. holds d cs ≡ true) ((eq_iff c k).0 e) h

holds-add_class :
    (k c : String) (cs : List String) → holds k (add_class c cs) ≡ holds k cs || str_eq c k
holds-add_class k c cs = elim (Bool-cases (holds c cs)) [
  | inl e ↦ rw e (ground (arith, holds_same k c cs e))
  | inr e ↦ rw e (holds-append k c cs)
]

holds-remove_classes :
    (k : String) (rs cs : List String)
    → holds k (remove_classes rs cs) ≡ holds k cs && not (holds k rs)
unfolding remove_classes
holds-remove_classes k [] cs = ground arith
holds-remove_classes k (r ∷ rs) cs =
    ground (arith, holds-remove_classes k rs (remove_class r cs), holds-remove_class k r cs)

holds-add_classes :
    (k : String) (ns cs : List String) → holds k (add_classes ns cs) ≡ holds k cs || holds k ns
unfolding add_classes
holds-add_classes k [] cs = ground arith
holds-add_classes k (n ∷ ns) cs =
    ground (arith, holds-add_classes k ns (add_class n cs), holds-add_class k n cs)

-- After new classes a lot bears those of its own text and those it had that the map had not put
-- there, and no other.
pub holds-set_classes :
    (k : String) (cls : Option String) (e : Styled)
    → holds k (set_classes cls e).classes
      ≡ (holds k e.classes && not (holds k e.applied)) || holds k (tokens (get_or cls ""))
unfolding set_classes
holds-set_classes k cls e = ground (
  arith,
  holds-add_classes k (tokens (get_or cls "")) (remove_classes e.applied e.classes),
  holds-remove_classes k e.applied e.classes,
)
