-- ===== src/Users/Laws/Groups.antt =====
-- Under which groups the form of an account shows the rights
-- (frontend/src/app/users/components/user-form/user-form.component.ts).
use asl_bissieux.Prelude.{
  ◌≡◌, refl, ap, ◌∙◌, Bool, ◌&&◌, ◌||◌, List, [], ◌∷◌, ◌++◌, map, Option, none, some, arith, any,
  get_or, ℕ, Bool-cases, inl, inr,
}
use asl_bissieux.Prelude.Int.{ℤ}
use asl_bissieux.Prelude.Strings.{String, str_eq, eq_iff}
use asl_bissieux.Sorting.{any-sort_by}
use asl_bissieux.Users.{User, permission_label, permission_group, distinct_from, distinct}
use asl_bissieux.Users.Form.{Group, put_action, put_actions, sort_actions, groups_of}

abbrev pub holds : String → List String → Bool
holds a = any (str_eq a)

-- The action stands under the label.
abbrev pub shows : (label action : String) → List Group → Bool
shows l a = any (λ g. str_eq g.label l && holds a g.actions)

holds-append : (a : String) (xs ys : List String) → holds a (xs ++ ys) ≡ holds a xs || holds a ys
holds-append a [] ys = refl
holds-append a (x ∷ xs) ys = ground (arith, holds-append a xs ys)

shows-put_action :
    (l a k b : String) (gs : List Group)
    → shows l a (put_action k b gs) ≡ shows l a gs || (str_eq k l && str_eq a b)
unfolding put_action
shows-put_action l a k b [] = ground arith
shows-put_action l a k b (g ∷ gs) = elim (Bool-cases (str_eq g.label k)) [
  | inl e ↦
      let same : g.label ≡ k = (eq_iff g.label k).0 e in
      ground (arith, holds-append a g.actions (b ∷ []), ap (λ x. str_eq x l) same)
  | inr e ↦ ground (arith, shows-put_action l a k b gs)
]

shows-put_actions :
    (l a : String) (xs : List String) (gs : List Group)
    → shows l a (put_actions xs gs) ≡ shows l a gs || (holds a xs && str_eq (permission_group a) l)
unfolding put_actions
shows-put_actions l a [] gs = ground arith
shows-put_actions l a (x ∷ xs) gs =
    let ih = shows-put_actions l a xs (put_action (permission_group x) x gs) in
    let here = shows-put_action l a (permission_group x) x gs in
    elim (Bool-cases (str_eq a x)) [
      | inl e ↦
          let same : a ≡ x = (eq_iff a x).0 e in
          ground (arith, ih, here, ap (λ y. str_eq (permission_group y) l) same)
      | inr e ↦ ground (arith, ih, here)
    ]

holds-distinct_from :
    (a : String) (seen xs : List String)
    → holds a seen || holds a (distinct_from seen xs) ≡ holds a seen || holds a xs
unfolding distinct_from
holds-distinct_from a seen [] = refl
holds-distinct_from a seen (x ∷ xs) = elim (Bool-cases (str_eq a x)) [
  | inl e ↦
      let same : a ≡ x = (eq_iff a x).0 e in
      ground (
        arith,
        holds-distinct_from a seen xs,
        holds-distinct_from a (x ∷ seen) xs,
        ap (λ y. holds y seen) same,
      )
  | inr e ↦ ground (arith, holds-distinct_from a seen xs, holds-distinct_from a (x ∷ seen) xs)
]

holds-distinct : (a : String) (xs : List String) → holds a (distinct xs) ≡ holds a xs
unfolding distinct
holds-distinct a xs = ground (arith, holds-distinct_from a [] xs)

module _ (units : String → ℕ) (locale : String → String → ℤ) (user : Option User) where
  shows-sort_actions :
      (l a : String) (gs : List Group)
      → shows l a (map (sort_actions units locale user) gs) ≡ shows l a gs
  unfolding sort_actions
  shows-sort_actions l a [] = refl
  shows-sort_actions l a (g ∷ gs) = ground (
    arith,
    shows-sort_actions l a gs,
    any-sort_by (λ x y. locale (permission_label x) (permission_label y)) (str_eq a) g.actions,
  )

  -- The rights that the account has.
  abbrev pub own_actions : List String
  own_actions = get_or (elim user [ none ↦ none | some u ↦ u.actions ]) []

  -- The form shows a right under a label exactly if the label is that of its group and the server
  -- lists the right or the account has it.
  pub shows-groups_of :
      (l a : String) (actions : List String)
      → shows l a (groups_of units locale user actions)
        ≡ (holds a actions || holds a own_actions) && str_eq (permission_group a) l
  unfolding groups_of
  shows-groups_of l a actions =
      let all : List String = actions ++ own_actions in
      shows-sort_actions l a (put_actions (distinct all) [])
      ∙ (shows-put_actions l a (distinct all) []
          ∙ ap (λ b. b && str_eq (permission_group a) l)
              (holds-distinct a all ∙ holds-append a actions own_actions))
