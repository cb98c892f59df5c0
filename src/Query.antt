-- ===== src/Query.antt =====
-- The numbers that the parameters of an address carry: the tests `/^\d+$/` and
-- `Number.isSafeInteger` of the dashboard and of the list of members.
pub mod Decimal
use Prim.Native.Char.{Char, code}
use Prim.Native.String
use asl_bissieux.Prelude.{
  ℕ, ◌+◌, ◌-◌, ◌*◌, Bool, true, false, ◌&&◌, Option, none, some, if◌then◌else◌, leb, ltb,
}
use asl_bissieux.Prelude.Strings.{String}

abbrev pub is_digit : ℕ → Bool
is_digit c = leb 48 c && leb c 57

-- The value of the digits, after those that were read.
unfoldable pub digits_from : ℕ → String → Option ℕ
digits_from n String.[] = some n
digits_from n (String.◌∷◌ c s) =
    let rest = digits_from (10 * n + (code c - 48)) s in if is_digit (code c) then rest else none

-- `/^\d+$/`, and the number that is written.
unfoldable pub read_digits : String → Option ℕ
unfolding digits_from
read_digits String.[] = none
read_digits (String.◌∷◌ c s) = digits_from 0 (String.◌∷◌ c s)

abbrev pub max_safe : ℕ
max_safe = 9007199254740991

-- `Number.isSafeInteger`
abbrev pub safe : Option ℕ → Option ℕ
safe none = none
safe (some n) = if leb n max_safe then some n else none

-- A number of a lot.
unfoldable pub read_lot : String → Option ℕ
read_lot s = safe (read_digits s)

size_at_most : ℕ → String → Bool
size_at_most n String.[] = true
size_at_most n (String.◌∷◌ c s) = let rest = size_at_most (n - 1) s in ltb 0 n && rest

-- `/^\d{1,4}$/`, above 0.
unfoldable pub read_year : String → Option ℕ
unfolding size_at_most
read_year s = elim (read_digits s) [
  | none ↦ none
  | some n ↦ if size_at_most 4 s && ltb 0 n then some n else none
]
