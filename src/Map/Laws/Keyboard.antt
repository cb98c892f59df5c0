-- ===== src/Map/Laws/Keyboard.antt =====
-- Where the keyboard leads on the map
-- (frontend/src/app/shared/components/interactive-map/interactive-map.component.ts).
use mathlib.Core.Path.{subst}
use asl_bissieux.Prelude.{
  ℕ, zero, suc, ◌+◌, ◌-◌, ◌≡◌, refl, ◌∙◌, ◌<◌, Bool, true, false, ◌&&◌, List, [], ◌∷◌, Option, none,
  some, arith, if◌then◌else◌, ◌==◌, any, length, get_elem?, All,
}
use asl_bissieux.Map.{
  Tile, Map, is_number, set_tab_stops, reacts, focus, Key, arrow_right, find_index, at_most,
  next_index, key_down,
}
use asl_bissieux.Map.Laws.{IsAccessible, IsLive}

-- The index of the first or one more than that in the rest.
placed :
    (here : Bool) (rest : Option ℕ) (i n : ℕ)
    → ((j : ℕ) → rest ≡ some j → j < n)
    → (if here then some 0 else elim rest [ none ↦ none | some j ↦ some (j + 1) ]) ≡ some i
    → i < suc n
placed true rest i n b h = ground arith
placed false none i n b h = ground arith
placed false (some j) i n b h =
    let below = b j refl in let same : j + 1 ≡ i = ground arith in omega arith

find_index-bounded : (n i : ℕ) (ts : List Tile) → find_index n ts ≡ some i → i < length ts
unfolding find_index
find_index-bounded n i [] h = ground arith
find_index-bounded n i (t ∷ ts) h =
    placed (t.number == n) (find_index n ts) i (length ts) (λ j. find_index-bounded n j ts) h

-- From a lot that is on the map every key leads to a place that is there, if it leads anywhere.
pub next_index-bounded :
    (key : Key) (n i j : ℕ) (ts : List Tile)
    → find_index n ts ≡ some i
    → next_index key (some i) ts ≡ some j
    → j < length ts
unfolding next_index
next_index-bounded key n i j ts f e = let b = find_index-bounded n i ts f in ground arith

module _ {A : Type 0} where
  get_elem?-below : (xs : List A) (i : ℕ) (x : A) → get_elem? xs i ≡ some x → i < length xs
  get_elem?-below [] i x h = ground arith
  get_elem?-below (y ∷ xs) zero x h = omega arith
  get_elem?-below (y ∷ xs) (suc i) x h = let b = get_elem?-below xs i x h in omega arith

  any-get_elem? :
      (p : A → Bool) (xs : List A) (i : ℕ) (x : A)
      → get_elem? xs i ≡ some x
      → p x ≡ true
      → any p xs ≡ true
  any-get_elem? p [] i x h e = ground arith
  any-get_elem? p (y ∷ xs) zero x h e = ground arith
  any-get_elem? p (y ∷ xs) (suc i) x h e = ground (arith, any-get_elem? p xs i x h e)

  All-get_elem? :
      (P : A → Type 0) (xs : List A) (i : ℕ) (x : A) → All P xs → get_elem? xs i ≡ some x → P x
  All-get_elem? P [] i x a h = ground arith
  All-get_elem? P (y ∷ xs) zero x a h = let same : y ≡ x = ground arith in subst P same a.0
  All-get_elem? P (y ∷ xs) (suc i) x a h = All-get_elem? P xs i x a.1 h

-- Its handlers react at every lot of a map that is interactive.
reacts-tile :
    (s : Map) (i : ℕ) (t : Tile)
    → IsAccessible s
    → s.interactive ≡ true
    → get_elem? s.tiles i ≡ some t
    → reacts t.number s ≡ true
reacts-tile s i t a e g =
    let l = All-get_elem? (IsLive s.interactive) s.tiles i t a.handlers g in
    let bound : t.is_bound ≡ true = l.bound_exact ∙ e in
    let test : (t.number == t.number) && t.is_bound ≡ true = ground arith in
    rw e (any-get_elem? (λ u. (u.number == t.number) && u.is_bound) s.tiles i t g test)

focus-active :
    (s : Map) (i : ℕ) (t : Tile)
    → IsAccessible s
    → s.interactive ≡ true
    → get_elem? s.tiles i ≡ some t
    → (focus t.number s).active_unit ≡ some t.number
unfolding focus set_tab_stops
focus-active s i t a e g =
    let r = reacts-tile s i t a e g in
    let there =
      any-get_elem? (λ u. is_number (some t.number) u.number) s.tiles i t g (ground arith) in
    ground arith

-- On an interactive map, an arrow to the right on a lot makes the next lot the active one.
pub key_down-arrow_right :
    (s : Map) (i : ℕ) (t u : Tile) (is_repeated : Bool)
    → IsAccessible s
    → s.interactive ≡ true
    → get_elem? s.tiles i ≡ some t
    → find_index t.number s.tiles ≡ some i
    → get_elem? s.tiles (i + 1) ≡ some u
    → (key_down t.number arrow_right is_repeated s).active_unit ≡ some u.number
unfolding key_down next_index
key_down-arrow_right s i t u is_repeated a e g f n =
    let r = reacts-tile s i t a e g in
    let below = get_elem?-below s.tiles (i + 1) u n in
    let next : at_most (i + 1) (length s.tiles - 1) ≡ i + 1 = ground arith in
    rw r (rw f (rw next (rw n (focus-active s (i + 1) u a e n))))
