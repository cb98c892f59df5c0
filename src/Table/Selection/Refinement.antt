-- ===== src/Table/Selection/Refinement.antt =====
-- The selection as a set of rows: what `SelectionModel` and the subscription to the results promise
-- (frontend/src/app/shared/components/crud-table/crud-table.component.ts), whatever list keeps it.
use asl_bissieux.Prelude.{
  ◌≡◌, refl, ◌∙◌, Bool, true, false, ◌&&◌, not, List, [], ◌∷◌, map, if◌then◌else◌,
}
use asl_bissieux.Prelude.Strings.{String, str_eq}
use asl_bissieux.Table.Selection.{
  Item, toggle, is_selected, is_present, prune_rows, prune, select_rows, differ,
}
use asl_bissieux.Table.Selection.Laws.{is_selected-toggle, is_selected-select_rows}
use asl_bissieux.Table.Selection.Pruning.{IsValid, toggle-IsValid, is_selected-prune}

-- A click on a row, the loop of `toggleAll` towards a value, and new results.
pub data Command {ℓ} (T : Type ℓ) : Type ℓ where
  flips : T → Command T
  sets : Bool → List T → Command T
  keeps : List T → Command T

module _ {ℓ} {T : Type ℓ} (stringify : T → String) where
  abbrev pub perform : Command T → List (Item T) → List (Item T)
  perform (flips row) items = toggle stringify row items
  perform (sets r rows) items = select_rows stringify r rows items
  perform (keeps results) items = prune stringify results items

  unfoldable pub perform_all : List (Command T) → List (Item T) → List (Item T)
  perform_all [] items = items
  perform_all (c ∷ cs) items = perform_all cs (perform c items)

  -- The same commands on a set of rows.
  abbrev pub follow : Command T → (T → Bool) → T → Bool
  follow (flips row) chosen other =
      if str_eq (stringify other) (stringify row) then not (chosen row) else chosen other
  follow (sets r rows) chosen other = if is_present stringify other rows then r else chosen other
  follow (keeps results) chosen other = chosen other && is_present stringify other results

  unfoldable pub follow_all : List (Command T) → (T → Bool) → T → Bool
  follow_all [] chosen = chosen
  follow_all (c ∷ cs) chosen = follow_all cs (follow c chosen)

  if-IsValid :
      (b : Bool) (xs ys : List (Item T))
      → IsValid stringify xs
      → IsValid stringify ys
      → IsValid stringify (if b then xs else ys)
  if-IsValid true xs ys u v = u
  if-IsValid false xs ys u v = v

  select_rows-IsValid :
      (r : Bool) (rows : List T) (items : List (Item T))
      → IsValid stringify items
      → IsValid stringify (select_rows stringify r rows items)
  unfolding select_rows
  select_rows-IsValid r [] items v = v
  select_rows-IsValid r (row ∷ rows) items v = select_rows-IsValid r rows _ (
      if-IsValid (differ (is_selected stringify row items) r) _ _
        (toggle-IsValid stringify row items v) v)

  prune_rows-IsValid :
      (results rows : List T) (items : List (Item T))
      → IsValid stringify items
      → IsValid stringify (prune_rows stringify results rows items)
  unfolding prune_rows
  prune_rows-IsValid results [] items v = v
  prune_rows-IsValid results (row ∷ rows) items v =
      prune_rows-IsValid results rows _
        (if-IsValid (is_present stringify row results) _ _ v (toggle-IsValid stringify row items v))

  perform-IsValid :
      (c : Command T) (items : List (Item T))
      → IsValid stringify items
      → IsValid stringify (perform c items)
  unfolding prune
  perform-IsValid (flips row) items v = toggle-IsValid stringify row items v
  perform-IsValid (sets r rows) items v = select_rows-IsValid r rows items v
  perform-IsValid (keeps results) items v =
      prune_rows-IsValid results (map (λ (item : Item T). item.row) items) items v

  perform-follow :
      (c : Command T) (items : List (Item T)) (chosen : T → Bool)
      → IsValid stringify items
      → ((row : T) → is_selected stringify row items ≡ chosen row)
      → (row : T) → is_selected stringify row (perform c items) ≡ follow c chosen row
  perform-follow (flips row) items chosen v h other =
      is_selected-toggle stringify row other items ∙ rw (h row, h other) refl
  perform-follow (sets r rows) items chosen v h other =
      is_selected-select_rows stringify r rows other items ∙ rw (h other) refl
  perform-follow (keeps results) items chosen v h other =
      is_selected-prune stringify results other items v ∙ rw (h other) refl

  follows :
      (cs : List (Command T)) (items : List (Item T)) (chosen : T → Bool)
      → IsValid stringify items
      → ((row : T) → is_selected stringify row items ≡ chosen row)
      → (row : T) → is_selected stringify row (perform_all cs items) ≡ follow_all cs chosen row
  unfolding perform_all follow_all
  follows [] items chosen v h row = h row
  follows (c ∷ cs) items chosen v h row =
      follows cs (perform c items) (follow c chosen) (perform-IsValid c items v)
        (perform-follow c items chosen v h) row

  -- From an empty selection, any clicks, selections of all rows and new results select the rows that
  -- the same commands select in a set of rows: the list of hashes is no more than that set.
  pub perform_all-follow_all :
      (cs : List (Command T)) (row : T)
      → is_selected stringify row (perform_all cs []) ≡ follow_all cs (λ other. false) row
  unfolding is_selected
  perform_all-follow_all cs row = follows cs [] (λ other. false) tt (λ other. refl) row
