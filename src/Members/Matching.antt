-- ===== src/Members/Matching.antt =====
-- frontend/src/app/members/member-directory.ts: the search in the directory and the order of the
-- members.
-- `fold` is the three first steps of `directoryText`: the decomposition of Unicode, the removal of
-- the marks and the lower case of French. `base` and `locale` are `localeCompare` in French with the
-- sensitivity `base`, and without options.
use Prim.Native.Char.{Char, code}
use Prim.Native.String
use asl_bissieux.Prelude.{
  ℕ, Bool, true, false, ◌&&◌, ◌||◌, not, List, [], ◌∷◌, Option, none, some, if◌then◌else◌, ◌==◌,
  filter, any, get_or,
}
use asl_bissieux.Prelude.Int.{ℤ, pos, ◌-ℤ◌, eqb_ℤ}
use asl_bissieux.Prelude.Strings.{String, str_eq}
use asl_bissieux.Prelude.Text.{is_space, trim, trim_start, present, join, or_else}
use asl_bissieux.Directory.{Member, Lot}
use asl_bissieux.Sorting.{sort_by}
use asl_bissieux.Query.{is_digit, read_digits}
use asl_bissieux.Query.Decimal.{decimal}

-- The replacements of a character: the two ligatures, the quotes and the hyphen.
abbrev pub replaced : Char → String → String
replaced c s =
    if code c == 339
    then String.◌++◌ "oe" s
    else if code c == 230
    then String.◌++◌ "ae" s
    else if (code c == 8217) || (code c == 39) || (code c == 45)
    then String.◌∷◌ " " s
    else String.◌∷◌ c s

unfoldable pub replace_all : String → String
replace_all String.[] = String.[]
replace_all (String.◌∷◌ c s) = replaced c (replace_all s)

-- `replace(/\s+/g, ' ')`
unfoldable pub squeeze : (in_space : Bool) → String → String
squeeze in_space String.[] = String.[]
squeeze in_space (String.◌∷◌ c s) =
    let after = squeeze true s in
    let rest = squeeze false s in
    if is_space (code c)
    then (if in_space then after else String.◌∷◌ " " after)
    else String.◌∷◌ c rest

unfoldable pub starts_with : String → String → Bool
starts_with String.[] s = true
starts_with (String.◌∷◌ c p) String.[] = false
starts_with (String.◌∷◌ c p) (String.◌∷◌ d s) = (code c == code d) && starts_with p s

-- `text.includes(term)`
unfoldable pub includes : String → String → Bool
unfolding starts_with
includes p String.[] = starts_with p String.[]
includes p (String.◌∷◌ c s) = starts_with p (String.◌∷◌ c s) || includes p s

abbrev onto_first : Char → List String → List String
onto_first c [] = String.◌∷◌ c String.[] ∷ []
onto_first c (w ∷ ws) = String.◌∷◌ c w ∷ ws

-- `split(' ')`
unfoldable pub split : String → List String
split String.[] = String.[] ∷ []
split (String.◌∷◌ c s) =
    let rest = split s in if code c == 32 then String.[] ∷ rest else onto_first c rest

unfoldable pub all : {A : Type 0} → (A → Bool) → List A → Bool
all p [] = true
all p (x ∷ xs) = p x && all p xs

-- `/^lot\s*(\d+)$/`
unfoldable pub exact_lot : String → Option ℕ
exact_lot (String.◌∷◌ a (String.◌∷◌ b (String.◌∷◌ c s))) =
    let number = read_digits (trim_start s) in
    if (code a == 108) && (code b == 111) && (code c == 116) then number else none
exact_lot _ = none

-- `replace(/\D/g, '')`
unfoldable pub only_digits : String → String
only_digits String.[] = String.[]
only_digits (String.◌∷◌ c s) =
    let rest = only_digits s in if is_digit (code c) then String.◌∷◌ c rest else rest

unfoldable pub somes : List (Option String) → List String
somes [] = []
somes (none ∷ xs) = somes xs
somes (some x ∷ xs) = x ∷ somes xs

abbrev number_text : Option ℕ → Option String
number_text none = none
number_text (some n) = some (decimal n)

abbrev digits_text : Option String → Option String
digits_text none = none
digits_text (some s) = some (only_digits s)

abbrev pub has_number : {M : Type 0} → ℕ → Lot M → Bool
has_number n u = elim u.number [ none ↦ false | some m ↦ m == n ]

-- `memberName`
unfoldable pub member_name : {U : Type 0} → Member U → String
member_name m = or_else (join (present (m.first_name ∷ m.last_name ∷ []))) "Membre sans nom"

-- `sortedMemberUnits`
unfoldable pub sorted_member_units : {M : Type 0} → Member (Lot M) → List (Lot M)
sorted_member_units m =
    sort_by (λ a b. pos (get_or a.number 0) -ℤ pos (get_or b.number 0)) (get_or m.units [])

abbrev pub same_number : Option ℕ → Option ℕ → Bool
same_number none b = false
same_number (some n) none = false
same_number (some n) (some m) = n == m

-- The test of `memberOwnsUnit`: by the identifiers where both have one, else by the numbers.
unfoldable pub is_lot : {M N : Type 0} → Lot N → Lot M → Bool
is_lot unit owned =
    let by_number = same_number owned.number unit.number in
    elim owned.id [
      | none ↦ by_number
      | some a ↦ elim unit.id [
        | none ↦ by_number
        | some b ↦ if str_eq a "" || str_eq b "" then by_number else str_eq a b
      ]
    ]

-- `memberOwnsUnit`
unfoldable pub member_owns_unit : {M N : Type 0} → Member (Lot M) → Lot N → Bool
unfolding is_lot
member_owns_unit m unit = any (is_lot unit) (get_or m.units [])

unfoldable pub units_text : {M : Type 0} → List (Lot M) → List (Option String)
units_text [] = []
units_text (u ∷ us) = number_text u.number ∷ u.address ∷ units_text us

module _ (fold : String → String) where
  -- `directoryText`
  unfoldable pub directory_text : String → String
  unfolding replace_all squeeze
  directory_text value = trim (squeeze false (replace_all (fold value)))

  -- `termsMatch`
  unfoldable pub terms_match : (text query : String) → Bool
  unfolding split all includes directory_text
  terms_match text query =
      all (λ term. includes term text)
        (filter (λ term. not (str_eq term "")) (split (directory_text query)))

  -- The text of a member that is searched.
  unfoldable pub member_text : {M : Type 0} → Member (Lot M) → String
  unfolding directory_text units_text
  member_text m = directory_text (
      join (
        somes (
          m.first_name
          ∷ m.last_name
          ∷ m.email
          ∷ m.phone_number
          ∷ digits_text m.phone_number
          ∷ m.address
          ∷ units_text (get_or m.units []))))

  -- `memberMatches`
  unfoldable pub member_matches : {M : Type 0} → Member (Lot M) → String → Bool
  unfolding terms_match member_text
  member_matches m query = elim (exact_lot (directory_text query)) [
    | some n ↦ any (has_number n) (get_or m.units [])
    | none ↦ terms_match (member_text m) query
  ]

  -- `unitMatches`
  unfoldable pub unit_matches : {M : Type 0} → Lot M → String → Bool
  unfolding terms_match
  unit_matches u query = elim (exact_lot (directory_text query)) [
    | some n ↦ has_number n u
    | none ↦
        terms_match
          (directory_text (
            String.◌++◌ (get_or (number_text u.number) "") (String.◌++◌ " " (get_or u.address ""))))
          query
  ]

-- `a || b` of two comparisons.
abbrev pub or_compare : ℤ → ℤ → ℤ
or_compare a b = if eqb_ℤ a (pos 0) then b else a

-- `compareMembers`
unfoldable pub compare_members :
    {U : Type 0} → (base locale : String → String → ℤ) → Member U → Member U → ℤ
compare_members base locale a b =
    or_compare (base (get_or a.last_name "") (get_or b.last_name "")) (
      or_compare (base (get_or a.first_name "") (get_or b.first_name ""))
        (locale (get_or a.id "") (get_or b.id "")))
