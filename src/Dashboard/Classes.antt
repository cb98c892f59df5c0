-- ===== src/Dashboard/Classes.antt =====
-- Which class the map of the dashboard gives to a lot
-- (frontend/src/app/dashboard/dashboard.component.ts).
use asl_bissieux.Prelude.{
  ℕ, ◌≡◌, refl, ap, ◌∙◌, Bool, false, List, [], ◌∷◌, Option, none, some, arith, if◌then◌else◌, ◌==◌,
  any,
}
use asl_bissieux.Directory.{Member, Lot}
use asl_bissieux.Budgets.Payments.{payment_state}
use asl_bissieux.Budgets.Recipients.{Due, number_of}
use asl_bissieux.Dashboard.Views.{
  MapClass, no_call, class_at, put, put_units, put_cotisations, classes_of,
}

abbrev pub is_at : ℕ → Option ℕ → Bool
is_at k none = false
is_at k (some n) = n == k

put_at :
    (number : Option ℕ) (v : MapClass) (m : ℕ → Option MapClass) (k : ℕ)
    → put number v m k ≡ (if is_at k number then some v else m k)
put_at none v m k = refl
put_at (some n) v m k = refl

module _ {U : Type 0} where
  abbrev pub class_of_due : Due U → MapClass
  class_of_due c = class_at (payment_state c.cotisation) c.cotisation

  -- The class of the last cotisation of the lot, or what is given.
  abbrev pub last_class : ℕ → List (Due U) → Option MapClass → Option MapClass
  last_class k [] v = v
  last_class k (c ∷ cs) v =
      last_class k cs (if is_at k (number_of c) then some (class_of_due c) else v)

  put_cotisations-last_class :
      (cs : List (Due U)) (m : ℕ → Option MapClass) (k : ℕ)
      → put_cotisations cs m k ≡ last_class k cs (m k)
  unfolding put_cotisations
  put_cotisations-last_class [] m k = refl
  put_cotisations-last_class (c ∷ cs) m k =
      put_cotisations-last_class cs (put (number_of c) (class_of_due c) m) k
      ∙ ap (last_class k cs) (put_at (number_of c) (class_of_due c) m k)

  put_units-any :
      (us : List (Lot (Member U))) (m : ℕ → Option MapClass) (k : ℕ)
      → put_units us m k ≡ (if any (λ u. is_at k u.number) us then some no_call else m k)
  unfolding put_units
  put_units-any [] m k = refl
  put_units-any (u ∷ us) m k =
      ground (arith, put_units-any us (put u.number no_call m) k, put_at u.number no_call m k)

  -- A lot has the class of the last cotisation that is for it; a lot that the list of lots has and
  -- no cotisation is for has the class of lots without a call, and any other has none.
  pub classes_of_lem :
      (us : List (Lot (Member U))) (cs : List (Due U)) (k : ℕ)
      → classes_of us cs k
        ≡ last_class k cs (if any (λ u. is_at k u.number) us then some no_call else none)
  unfolding classes_of
  classes_of_lem us cs k =
      put_cotisations-last_class cs (put_units us (λ j. none)) k
      ∙ ap (last_class k cs) (put_units-any us (λ j. none) k)
