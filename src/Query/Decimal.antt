-- ===== src/Query/Decimal.antt =====
-- The number that an address or a text carries, written in decimal (`String(number)`), and read back
-- by the tests of frontend/src/app/members/components/member-list/member-list.component.ts.
use Prim.Native.Char.{Char, char, code}
use Prim.Native.Nat.{◌/◌, ◌%◌}
use asl_bissieux.Prelude.{
  ℕ, zero, suc, ◌+◌, ◌-◌, ◌*◌, ◌≡◌, refl, ap, ◌∙◌, ◌≤◌, ◌<◌, true, some, arith, if◌then◌else◌, ◌==◌,
  leb, ltb, Bool-cases, inl, inr,
}
use asl_bissieux.Prelude.Strings.{String}
use asl_bissieux.Query.{is_digit, digits_from, read_digits, read_lot, safe, max_safe}

abbrev pub digit : ℕ → Char
digit d =
    if d == 0
    then char 48 tt
    else if d == 1
    then char 49 tt
    else if d == 2
    then char 50 tt
    else if d == 3
    then char 51 tt
    else if d == 4
    then char 52 tt
    else if d == 5
    then char 53 tt
    else if d == 6
    then char 54 tt
    else if d == 7
    then char 55 tt
    else if d == 8
    then char 56 tt
    else char 57 tt

-- The digits of the number, before a text. The fuel is above the number.
unfoldable pub digits_onto : (fuel : ℕ) → ℕ → String → String
digits_onto zero n s = s
digits_onto (suc fuel) n s =
    let t = String.◌∷◌ (digit (n % 10)) s in
    let rest = digits_onto fuel (n / 10) t in if ltb n 10 then t else rest

-- `String(n)`
unfoldable pub decimal : ℕ → String
unfolding digits_onto
decimal n = digits_onto (suc n) n ""

code-digit : (d : ℕ) → d < 10 → code (digit d) ≡ 48 + d
code-digit zero h = refl
code-digit (suc zero) h = refl
code-digit (suc (suc zero)) h = refl
code-digit (suc (suc (suc zero))) h = refl
code-digit (suc (suc (suc (suc zero)))) h = refl
code-digit (suc (suc (suc (suc (suc zero))))) h = refl
code-digit (suc (suc (suc (suc (suc (suc zero)))))) h = refl
code-digit (suc (suc (suc (suc (suc (suc (suc zero))))))) h = refl
code-digit (suc (suc (suc (suc (suc (suc (suc (suc zero)))))))) h = refl
code-digit (suc (suc (suc (suc (suc (suc (suc (suc (suc zero))))))))) h = refl
code-digit (suc (suc (suc (suc (suc (suc (suc (suc (suc (suc d)))))))))) h = omega arith

digits_from-digit :
    (m d : ℕ) (s : String)
    → d < 10
    → digits_from m (String.◌∷◌ (digit d) s) ≡ digits_from (10 * m + d) s
unfolding digits_from
digits_from-digit m d s h =
    let c : code (digit d) ≡ 48 + d = code-digit d h in
    let test : is_digit (code (digit d)) ≡ true = ground arith in
    let value : 10 * m + (code (digit d) - 48) ≡ 10 * m + d = omega arith in rw test (rw value refl)

digits_from-digits_onto :
    (fuel n : ℕ) (s : String) → n < fuel → digits_from 0 (digits_onto fuel n s) ≡ digits_from n s
unfolding digits_onto
digits_from-digits_onto zero n s h = ground arith
digits_from-digits_onto (suc fuel) n s h = elim (Bool-cases (ltb n 10)) [
  | inl e ↦
      let below : n < 10 = ground arith in
      let value : 10 * 0 + n % 10 ≡ n = omega arith in
      rw e (digits_from-digit 0 (n % 10) s (omega arith) ∙ ap (λ m. digits_from m s) value)
  | inr e ↦
      let t = String.◌∷◌ (digit (n % 10)) s in
      let above : 10 ≤ n = ground arith in
      let whole : 10 * (n / 10) + n % 10 ≡ n = omega arith in
      rw e (
        digits_from-digits_onto fuel (n / 10) t (omega arith)
        ∙ digits_from-digit (n / 10) (n % 10) s (omega arith)
        ∙ ap (λ m. digits_from m s) whole)
]

digits_onto-nonempty :
    (fuel n : ℕ) (c : Char) (s : String)
    → read_digits (digits_onto fuel n (String.◌∷◌ c s))
      ≡ digits_from 0 (digits_onto fuel n (String.◌∷◌ c s))
unfolding digits_onto read_digits
digits_onto-nonempty zero n c s = refl
digits_onto-nonempty (suc fuel) n c s = elim (Bool-cases (ltb n 10)) [
  | inl e ↦ rw e refl
  | inr e ↦ rw e (digits_onto-nonempty fuel (n / 10) (digit (n % 10)) (String.◌∷◌ c s))
]

read_digits-digits_onto :
    (fuel n : ℕ) (s : String)
    → read_digits (digits_onto (suc fuel) n s) ≡ digits_from 0 (digits_onto (suc fuel) n s)
unfolding digits_onto read_digits
read_digits-digits_onto fuel n s = elim (Bool-cases (ltb n 10)) [
  | inl e ↦ rw e refl
  | inr e ↦ rw e (digits_onto-nonempty fuel (n / 10) (digit (n % 10)) s)
]

pub read_digits-decimal : (n : ℕ) → read_digits (decimal n) ≡ some n
unfolding decimal digits_from
read_digits-decimal n =
    read_digits-digits_onto n n "" ∙ digits_from-digits_onto (suc n) n "" (omega arith)

-- A number that can be exact is read from its decimal writing as it was.
pub read_lot-decimal : (n : ℕ) → n ≤ max_safe → read_lot (decimal n) ≡ some n
unfolding read_lot
read_lot-decimal n h =
    ap safe (read_digits-decimal n) ∙ (let e : leb n max_safe ≡ true = ground arith in rw e refl)
