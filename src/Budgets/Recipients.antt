-- ===== src/Budgets/Recipients.antt =====
-- frontend/src/app/budgets/components/budget-email-form/budget-email-form.component.ts: who
-- receives the e-mails of a budget (`updateRecipients`).
-- The `Map` keyed by identifiers is the list of its values in the order of insertion. `locale` is
-- `localeCompare` in French.
pub mod Laws
use asl_bissieux.Prelude.{
  ℕ, ◌+◌, Bool, true, false, ◌&&◌, ◌||◌, not, List, [], ◌∷◌, ◌++◌, map, Option, none, some,
  if◌then◌else◌, ◌==◌, filter, any, find?, get_or, length,
}
use asl_bissieux.Prelude.Int.{ℤ, pos, ◌-ℤ◌}
use asl_bissieux.Prelude.Strings.{String, str_eq}
use asl_bissieux.Prelude.Text.{present, join, or_else, has_text}
use asl_bissieux.Directory.{Member, Lot}
use asl_bissieux.Sorting.{sort_by}
use asl_bissieux.Budgets.Payments.{
  Cotisation, PaymentState, done, doing, waiting, overpaid, payment_state,
}

-- `ModelsCotisationResult` with the lot that it is for.
pub record Due (U : Type 0) : Type 0 where
  pub cotisation : Cotisation
  pub unit : Option (Lot (Member U))

pub record Recipient (U : Type 0) : Type 0 where
  pub member : Member U
  pub name : String
  pub lots : List ℕ

unfoldable pub name_of : {U : Type 0} → Member U → String
name_of m =
    or_else (join (present (m.first_name ∷ m.last_name ∷ [])))
      (or_else (get_or m.email "") "Membre")

abbrev pub is_for : {U : Type 0} → String → Recipient U → Bool
is_for id r = elim r.member.id [ none ↦ false | some own ↦ str_eq own id ]

-- The two tests that skip a cotisation, the other way round.
unfoldable pub is_called : (to_doing to_paid : Bool) → PaymentState → Bool
is_called to_doing to_paid doing = to_doing
is_called to_doing to_paid done = to_paid
is_called to_doing to_paid overpaid = to_paid
is_called to_doing to_paid waiting = true

abbrev pub includes_lot : ℕ → List ℕ → Bool
includes_lot n = any (λ m. m == n)

-- `recipient.lots.push(number)`, unless the lot is there.
unfoldable pub add_lot : {U : Type 0} → Option ℕ → Recipient U → Recipient U
add_lot none r = r
add_lot (some n) r = if includes_lot n r.lots then r else record r { lots = r.lots ++ n ∷ [] }

unfoldable pub new_recipient : {U : Type 0} → Member U → Recipient U
unfolding name_of
new_recipient m = record { member = m; name = name_of m; lots = [] }

unfoldable pub update_recipient :
    {U : Type 0} → String → Option ℕ → List (Recipient U) → List (Recipient U)
unfolding add_lot
update_recipient id number [] = []
update_recipient id number (r ∷ rs) =
    let rest = update_recipient id number rs in
    if is_for id r then add_lot number r ∷ rs else r ∷ rest

-- One round of the inner loop, for a member with this identifier.
unfoldable pub put_member :
    {U : Type 0} → String → Option ℕ → Member U → List (Recipient U) → List (Recipient U)
unfolding update_recipient new_recipient
put_member id number m rs =
    if any (is_for id) rs
    then update_recipient id number rs
    else update_recipient id number (rs ++ new_recipient m ∷ [])

-- One round of the inner loop.
unfoldable pub add_member :
    {U : Type 0} → Option ℕ → Member U → List (Recipient U) → List (Recipient U)
unfolding put_member
add_member number m rs = elim m.id [
  | none ↦ rs
  | some id ↦ if str_eq id "" then rs else put_member id number m rs
]

unfoldable pub add_members :
    {U : Type 0} → Option ℕ → List (Member U) → List (Recipient U) → List (Recipient U)
add_members number [] rs = rs
add_members number (m ∷ ms) rs = add_members number ms (add_member number m rs)

abbrev pub members_of : {U : Type 0} → Due U → List (Member U)
members_of c = elim c.unit [ none ↦ [] | some unit ↦ get_or unit.members [] ]

abbrev pub number_of : {U : Type 0} → Due U → Option ℕ
number_of c = elim c.unit [ none ↦ none | some unit ↦ unit.number ]

-- The outer loop.
unfoldable pub collect :
    {U : Type 0}
    → (to_doing to_paid : Bool) → List (Due U)
    → List (Recipient U)
    → List (Recipient U)
unfolding add_members is_called
collect to_doing to_paid [] rs = rs
collect to_doing to_paid (c ∷ cs) rs = collect to_doing to_paid cs (
    if is_called to_doing to_paid (payment_state c.cotisation)
    then add_members (number_of c) (members_of c) rs
    else rs)

-- `missingEmailCount`
unfoldable pub missing_of : {U : Type 0} → List (Recipient U) → ℕ
missing_of rs = length (filter (λ r. not (has_text r.member.email)) rs)

-- `recipient.lots.sort(…)`
unfoldable pub sort_lots : {U : Type 0} → Recipient U → Recipient U
sort_lots r = record r { lots = sort_by (λ a b. pos a -ℤ pos b) r.lots }

-- `recipients`
unfoldable pub recipients_of :
    {U : Type 0} → (locale : String → String → ℤ) → List (Recipient U) → List (Recipient U)
unfolding sort_lots
recipients_of locale rs =
    map sort_lots (sort_by (λ a b. locale a.name b.name) (filter (λ r. has_text r.member.email) rs))
