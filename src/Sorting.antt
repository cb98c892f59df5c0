-- ===== src/Sorting.antt =====
-- `Array.prototype.sort` with a comparison function: stable, and by the sign of the comparison.
-- The tables, the recipients of a budget and the members are sorted by it.
use mathlib.Core.List.{Perm}
use mathlib.Core.List.Perm
use asl_bissieux.Prelude.{
  Bool, any, ◌||◌, ◌≡◌, refl, ◌⊎◌, inl, inr, List, [], ◌∷◌, arith, if◌then◌else◌, All, Bool-cases,
}
use asl_bissieux.Prelude.Int.{ℤ, pos, leb_ℤ, ◌≤ℤ◌}

module _ {ℓ} {A : Type ℓ} (compare : A → A → ℤ) where
  -- An element goes before the first that it is not above, so that equal ones keep their order.
  unfoldable pub insert_by : A → List A → List A
  insert_by x [] = x ∷ []
  insert_by x (y ∷ ys) = if leb_ℤ (compare x y) (pos 0) then x ∷ y ∷ ys else y ∷ insert_by x ys

  unfoldable pub sort_by : List A → List A
  unfolding insert_by
  sort_by [] = []
  sort_by (x ∷ xs) = insert_by x (sort_by xs)

  insert_by-perm : (x : A) (xs : List A) → Perm (insert_by x xs) (x ∷ xs)
  unfolding insert_by
  insert_by-perm x [] = Perm.refl (x ∷ [])
  insert_by-perm x (y ∷ ys) = elim (Bool-cases (leb_ℤ (compare x y) (pos 0))) [
    | inl e ↦ rw e (Perm.refl (x ∷ y ∷ ys))
    | inr e ↦ rw e (Perm.trans (Perm.cons y (insert_by-perm x ys)) (Perm.swap x y ys))
  ]

  pub sort_by-perm : (xs : List A) → Perm (sort_by xs) xs
  unfolding sort_by
  sort_by-perm [] = Perm.refl []
  sort_by-perm (x ∷ xs) = Perm.trans (insert_by-perm x (sort_by xs)) (Perm.cons x (sort_by-perm xs))

  -- Each element stands before those that it is not above.
  abbrev pub IsSorted : List A → Type 0
  IsSorted [] = Unit
  IsSorted (x ∷ xs) = All (λ y. compare x y ≤ℤ pos 0) xs × IsSorted xs

  pub record IsOrder : Type ℓ where
    pub total : (x y : A) → (compare x y ≤ℤ pos 0) ⊎ (compare y x ≤ℤ pos 0)
    pub trans : (x y z : A) → compare x y ≤ℤ pos 0 → compare y z ≤ℤ pos 0 → compare x z ≤ℤ pos 0

  module _ (o : IsOrder) where
    All-below :
        (x y : A) (ys : List A)
        → compare x y ≤ℤ pos 0
        → All (λ z. compare y z ≤ℤ pos 0) ys
        → All (λ z. compare x z ≤ℤ pos 0) ys
    All-below x y [] h a = tt
    All-below x y (z ∷ ys) h a = (o.trans x y z h a.0, All-below x y ys h a.1)

    All-insert_by :
        (x y : A) (ys : List A)
        → compare y x ≤ℤ pos 0
        → All (λ z. compare y z ≤ℤ pos 0) ys
        → All (λ z. compare y z ≤ℤ pos 0) (insert_by x ys)
    unfolding insert_by
    All-insert_by x y [] h a = (h, tt)
    All-insert_by x y (z ∷ ys) h a = elim (Bool-cases (leb_ℤ (compare x z) (pos 0))) [
      | inl e ↦ rw e (h, a)
      | inr e ↦ rw e (a.0, All-insert_by x y ys h a.1)
    ]

    insert_by-IsSorted : (x : A) (xs : List A) → IsSorted xs → IsSorted (insert_by x xs)
    unfolding insert_by
    insert_by-IsSorted x [] s = (tt, tt)
    insert_by-IsSorted x (y ∷ ys) s = elim (Bool-cases (leb_ℤ (compare x y) (pos 0))) [
      | inl e ↦
          let below : compare x y ≤ℤ pos 0 = ground arith in
          rw e ((below, All-below x y ys below s.0), s)
      | inr e ↦
          let above : compare y x ≤ℤ pos 0 = ground (arith, o.total x y) in
          rw e (All-insert_by x y ys above s.0, insert_by-IsSorted x ys s.1)
    ]

    pub sort_by-IsSorted : (xs : List A) → IsSorted (sort_by xs)
    unfolding sort_by
    sort_by-IsSorted [] = tt
    sort_by-IsSorted (x ∷ xs) = insert_by-IsSorted x (sort_by xs) (sort_by-IsSorted xs)

  any-insert_by : (p : A → Bool) (x : A) (xs : List A) → any p (insert_by x xs) ≡ p x || any p xs
  unfolding insert_by
  any-insert_by p x [] = refl
  any-insert_by p x (y ∷ ys) = ground (arith, any-insert_by p x ys)

  -- Sorting loses nothing and adds nothing.
  pub any-sort_by : (p : A → Bool) (xs : List A) → any p (sort_by xs) ≡ any p xs
  unfolding sort_by
  any-sort_by p [] = refl
  any-sort_by p (x ∷ xs) = ground (arith, any-insert_by p x (sort_by xs), any-sort_by p xs)

  -- What is in order already stays as it is.
  pub sort_by_of_IsSorted : (xs : List A) → IsSorted xs → sort_by xs ≡ xs
  unfolding sort_by insert_by
  sort_by_of_IsSorted [] s = refl
  sort_by_of_IsSorted (x ∷ []) s = refl
  sort_by_of_IsSorted (x ∷ y ∷ ys) s =
      let below : compare x y ≤ℤ pos 0 = s.0.0 in
      rw (sort_by_of_IsSorted (y ∷ ys) s.1) (ground arith)
