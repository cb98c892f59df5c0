-- ===== src/Budgets/Recipients/Laws.antt =====
-- Who the recipients of a budget are, and for which lots
-- (frontend/src/app/budgets/components/budget-email-form/budget-email-form.component.ts).
use asl_bissieux.Prelude.{
  ℕ, ◌≡◌, refl, ap, ◌∙◌, ◌≢◌, Bool, true, false, ◌&&◌, ◌||◌, List, [], ◌∷◌, ◌++◌, map, Option, none,
  some, arith, ◌==◌, filter, any, Bool-cases, inl, inr,
}
use asl_bissieux.Prelude.Int.{ℤ, pos, ◌-ℤ◌}
use asl_bissieux.Prelude.Strings.{String, str_eq, eq_iff}
use asl_bissieux.Prelude.Text.{has_text}
use asl_bissieux.Directory.{Member}
use asl_bissieux.Sorting.{sort_by, any-sort_by}
use asl_bissieux.Budgets.Payments.{payment_state}
use asl_bissieux.Budgets.Recipients.{
  Due, Recipient, is_for, is_called, includes_lot, add_lot, new_recipient, update_recipient,
  put_member, add_member, add_members, members_of, number_of, collect, sort_lots, recipients_of,
}

abbrev pub number_is : ℕ → Option ℕ → Bool
number_is n none = false
number_is n (some m) = m == n

includes_lot-append :
    (n m : ℕ) (xs : List ℕ) → includes_lot n (xs ++ m ∷ []) ≡ includes_lot n xs || (m == n)
includes_lot-append n m [] = ground arith
includes_lot-append n m (x ∷ xs) = ground (arith, includes_lot-append n m xs)

-- The laws of the connectives that the list step needs.
head_received :
    (b n e rest : Bool) → (e && (b || n)) || rest ≡ ((e && b) || rest) || (e && n && true)
head_received b n e rest = ground arith

or_assoc_at : (a b c : Bool) → a || (b || c) ≡ (a || b) || c
or_assoc_at a b c = ground arith

-- A recipient has one identifier.
own_at :
    (own id : String) (found : Option String)
    → (elim found [ none ↦ false | some x ↦ str_eq x own ]) ≡ true
    → (elim found [ none ↦ false | some x ↦ str_eq x id ]) ≡ str_eq own id
own_at own id none e = cc
own_at own id (some x) e = ap (λ k. str_eq k id) ((eq_iff x own).0 e)

module _ {U : Type 0} where
  abbrev pub member_is : String → Member U → Bool
  member_is id m = elim m.id [ none ↦ false | some own ↦ str_eq own id ]

  -- The identifier receives an e-mail for the lot.
  abbrev pub receives : String → ℕ → List (Recipient U) → Bool
  receives id n = any (λ r. is_for id r && includes_lot n r.lots)

  includes_lot-add_lot :
      (n : ℕ) (number : Option ℕ) (r : Recipient U)
      → includes_lot n (add_lot number r).lots ≡ includes_lot n r.lots || number_is n number
  unfolding add_lot
  includes_lot-add_lot n none r = ground arith
  includes_lot-add_lot n (some m) r = elim (Bool-cases (m == n)) [
    | inl e ↦
        let same : m ≡ n = ground arith in
        ground (arith, includes_lot-append n m r.lots, ap (λ k. includes_lot k r.lots) same)
    | inr e ↦ ground (arith, includes_lot-append n m r.lots)
  ]

  is_for-add_lot :
      (id : String) (number : Option ℕ) (r : Recipient U)
      → is_for id (add_lot number r) ≡ is_for id r
  unfolding add_lot
  is_for-add_lot id number r = ground arith

  is_for-own :
      (own id : String) (r : Recipient U) → is_for own r ≡ true → is_for id r ≡ str_eq own id
  is_for-own own id r h = own_at own id r.member.id h

  receives-update :
      (id own : String) (n : ℕ) (number : Option ℕ) (rs : List (Recipient U))
      → receives id n (update_recipient own number rs)
        ≡ receives id n rs || (str_eq own id && number_is n number && any (is_for own) rs)
  unfolding update_recipient
  receives-update id own n number [] = ground arith
  receives-update id own n number (r ∷ rs) = elim (Bool-cases (is_for own r)) [
    | inl mine ↦
        rw
          (
            mine,
            includes_lot-add_lot n number r,
            is_for-add_lot id number r,
            is_for-own own id r mine,
          )
          (head_received (includes_lot n r.lots) (number_is n number) (str_eq own id)
            (receives id n rs))
    | inr other ↦
        rw (other, receives-update id own n number rs)
          (or_assoc_at (is_for id r && includes_lot n r.lots) (receives id n rs)
            (str_eq own id && number_is n number && any (is_for own) rs))
  ]

  holds-update :
      (id own : String) (number : Option ℕ) (rs : List (Recipient U))
      → any (is_for id) (update_recipient own number rs) ≡ any (is_for id) rs
  unfolding update_recipient
  holds-update id own number [] = refl
  holds-update id own number (r ∷ rs) =
      ground (arith, holds-update id own number rs, is_for-add_lot id number r)

  receives-append :
      (id : String) (n : ℕ) (m : Member U) (rs : List (Recipient U))
      → receives id n (rs ++ new_recipient m ∷ []) ≡ receives id n rs
  unfolding new_recipient
  receives-append id n m [] = ground arith
  receives-append id n m (r ∷ rs) = ground (arith, receives-append id n m rs)

  holds-append :
      (id : String) (m : Member U) (rs : List (Recipient U))
      → any (is_for id) (rs ++ new_recipient m ∷ []) ≡ any (is_for id) rs || member_is id m
  unfolding new_recipient
  holds-append id m [] = ground arith
  holds-append id m (r ∷ rs) = ground (arith, holds-append id m rs)

  receives-put_member :
      (id own : String) (n : ℕ) (number : Option ℕ) (m : Member U) (rs : List (Recipient U))
      → member_is own m ≡ true
      → receives id n (put_member own number m rs)
        ≡ receives id n rs || (str_eq own id && number_is n number)
  unfolding put_member
  receives-put_member id own n number m rs h = ground (
    arith,
    receives-update id own n number rs,
    receives-update id own n number (rs ++ new_recipient m ∷ []),
    receives-append id n m rs,
    holds-append own m rs,
  )

  receives-add_member_at :
      (id : String) (n : ℕ) (number : Option ℕ) (m : Member U) (rs : List (Recipient U))
      (own : Option String)
      → m.id ≡ own
      → id ≢ ""
      → receives id n (add_member number m rs)
        ≡ receives id n rs || (member_is id m && number_is n number)
  unfolding add_member
  receives-add_member_at id n number m rs none e h = rw (e, add_member) (ground arith)
  receives-add_member_at id n number m rs (some own) e h =
      let mine : member_is own m ≡ true = ground (arith, eq_iff own own) in
      rw (e, add_member)
        (ground
          (arith, receives-put_member id own n number m rs mine, eq_iff own "", eq_iff own id))

  receives-add_members :
      (id : String) (n : ℕ) (number : Option ℕ) (ms : List (Member U)) (rs : List (Recipient U))
      → id ≢ ""
      → receives id n (add_members number ms rs)
        ≡ receives id n rs || (any (member_is id) ms && number_is n number)
  unfolding add_members
  receives-add_members id n number [] rs h = ground arith
  receives-add_members id n number (m ∷ ms) rs h = ground (
    arith,
    receives-add_members id n number ms (add_member number m rs) h,
    receives-add_member_at id n number m rs m.id refl h,
  )

  -- A cotisation that is called lists the member, for the lot.
  abbrev pub calls : (to_doing to_paid : Bool) → String → ℕ → Due U → Bool
  calls to_doing to_paid id n c =
      is_called to_doing to_paid (payment_state c.cotisation)
      && (any (member_is id) (members_of c) && number_is n (number_of c))

  receives-collect_from :
      (to_doing to_paid : Bool) (id : String) (n : ℕ) (cs : List (Due U)) (rs : List (Recipient U))
      → id ≢ ""
      → receives id n (collect to_doing to_paid cs rs)
        ≡ receives id n rs || any (calls to_doing to_paid id n) cs
  unfolding collect
  receives-collect_from to_doing to_paid id n [] rs h = ground arith
  receives-collect_from to_doing to_paid id n (c ∷ cs) rs h =
      elim (Bool-cases (is_called to_doing to_paid (payment_state c.cotisation))) [
        | inl e ↦ ground (
          arith,
          receives-collect_from to_doing to_paid id n cs
              (add_members (number_of c) (members_of c) rs) h,
          receives-add_members id n (number_of c) (members_of c) rs h,
        )
        | inr e ↦ ground (arith, receives-collect_from to_doing to_paid id n cs rs h)
      ]

  -- A member is called for a lot exactly when a cotisation of that lot lists the member and has a
  -- state that the two choices let through.
  pub receives-collect :
      (to_doing to_paid : Bool) (id : String) (n : ℕ) (cs : List (Due U))
      → id ≢ ""
      → receives id n (collect to_doing to_paid cs []) ≡ any (calls to_doing to_paid id n) cs
  receives-collect to_doing to_paid id n cs h = receives-collect_from to_doing to_paid id n cs [] h

  receives-sort_lots :
      (id : String) (n : ℕ) (rs : List (Recipient U))
      → any (λ r. is_for id r && includes_lot n r.lots) (map sort_lots rs) ≡ receives id n rs
  unfolding sort_lots
  receives-sort_lots id n [] = refl
  receives-sort_lots id n (r ∷ rs) =
      ground (
        arith,
        receives-sort_lots id n rs,
        any-sort_by (λ a b. pos a -ℤ pos b) (λ m. m == n) r.lots,
      )

  receives-filter :
      (id : String) (n : ℕ) (rs : List (Recipient U))
      → receives id n (filter (λ r. has_text r.member.email) rs)
        ≡ any (λ r. has_text r.member.email && (is_for id r && includes_lot n r.lots)) rs
  receives-filter id n [] = refl
  receives-filter id n (r ∷ rs) = ground (arith, receives-filter id n rs)

  -- The list that is shown and sent to drops those without an address, and no other: whatever the
  -- order that it is put in, each stands in it with the same lots.
  pub receives-recipients_of :
      (locale : String → String → ℤ) (id : String) (n : ℕ) (rs : List (Recipient U))
      → receives id n (recipients_of locale rs)
        ≡ any (λ r. has_text r.member.email && (is_for id r && includes_lot n r.lots)) rs
  unfolding recipients_of
  receives-recipients_of locale id n rs =
      let kept = filter (λ (r : Recipient U). has_text r.member.email) rs in
      receives-sort_lots id n (sort_by (λ a b. locale a.name b.name) kept)
      ∙ (any-sort_by (λ (a b : Recipient U). locale a.name b.name)
            (λ r. is_for id r && includes_lot n r.lots) kept
          ∙ receives-filter id n rs)
