-- ===== src/Shared/Money/RoundTrip.antt =====
-- Printing an amount by toMajorUnitsString and reading it by fromDecimalString.
use kudi_ai.Common.{
  ◌≡◌, refl, ◌∙◌, inl, inr, true, false, ℕ, zero, suc, ◌+◌, ◌-◌, ◌*◌, ◌/◌, ◌%◌, ◌<◌, ◌≤◌, List, [],
  ◌∷◌, ◌++◌, arith, ltb, Bool-cases, length, All,
}
use kudi_ai.Common.Int.{ℤ, pos, negsuc, ◌≤ℤ◌}
use kudi_ai.Shared.Enums.{Currency}
use kudi_ai.Shared.Errors.{ok}
use kudi_ai.Shared.Money.{Money, from_decimal_string, to_major_units_string}
use kudi_ai.Shared.Money.Decimal.{
  is_digit, before_dot, after_dot, matches_rest, matches_decimal, pad_end, pad_start, parse_from,
  parse_digits, print_fuel, print_digits,
}

abbrev IsDigit : ℕ → Type 0
IsDigit c = is_digit c ≡ true

IsDigit-of_lt : (d : ℕ) → d < 10 → IsDigit (d + b'0')
unfolding is_digit
IsDigit-of_lt d h = ground arith

parse_from-print_fuel :
    (f n : ℕ) (rest : List ℕ) → n < f → parse_from 0 (print_fuel f n rest) ≡ parse_from n rest
unfolding print_fuel parse_from
parse_from-print_fuel zero n rest h = elim h [ ]
parse_from-print_fuel (suc f) n rest h = elim (Bool-cases (ltb n 10)) [
  | inl small ↦ rw small (ap_parse n (0 * 10 + (n + b'0' - b'0')) rest (omega arith))
  | inr large ↦ rw large (
      parse_from-print_fuel f (n / 10) ((n % 10 + b'0') ∷ rest) (ground arith)
      ∙ ap_parse n (n / 10 * 10 + (n % 10 + b'0' - b'0')) rest (omega arith))
]
  where
    ap_parse : (a b : ℕ) (cs : List ℕ) → a ≡ b → parse_from b cs ≡ parse_from a cs
    ap_parse a b cs e = rw e

-- Digits before digits are digits, and there is at least one.
print_fuel-IsDigit :
    (f n : ℕ) (rest : List ℕ) → All IsDigit rest → All IsDigit (print_fuel f n rest)
unfolding print_fuel
print_fuel-IsDigit zero n rest h = h
print_fuel-IsDigit (suc f) n rest h = elim (Bool-cases (ltb n 10)) [
  | inl small ↦ rw small (IsDigit-of_lt n (ground arith), h)
  | inr large ↦ rw large (
      print_fuel-IsDigit f (n / 10) ((n % 10 + b'0') ∷ rest)
        (IsDigit-of_lt (n % 10) (omega arith), h))
]

length-print_fuel : (f n : ℕ) (rest : List ℕ) → length rest ≤ length (print_fuel f n rest)
unfolding print_fuel
length-print_fuel zero n rest = omega arith
length-print_fuel (suc f) n rest = elim (Bool-cases (ltb n 10)) [
  | inl small ↦ rw small (omega arith)
  | inr large ↦ rw large (omega (arith, length-print_fuel f (n / 10) ((n % 10 + b'0') ∷ rest)))
]

length-print_digits : (n : ℕ) → 0 < length (print_digits n)
unfolding print_digits print_fuel
length-print_digits n = elim (Bool-cases (ltb n 10)) [
  | inl small ↦ rw small (omega arith)
  | inr large ↦ rw large (omega (arith, length-print_fuel n (n / 10) ((n % 10 + b'0') ∷ [])))
]

print_fuel_two :
    (f n : ℕ) (rest : List ℕ)
    → 10 ≤ n
    → n < 100
    → print_fuel (suc (suc f)) n rest ≡ (n / 10 + b'0') ∷ (n % 10 + b'0') ∷ rest
unfolding print_fuel
print_fuel_two f n rest p q = ground arith

-- A number below 100 is printed with two digits.
pad_start-print_digits :
    (n : ℕ) → n < 100 → pad_start 2 (print_digits n) ≡ (n / 10 + b'0') ∷ (n % 10 + b'0') ∷ []
unfolding pad_start print_digits print_fuel
pad_start-print_digits zero h = refl
pad_start-print_digits (suc k) h = elim (Bool-cases (ltb (suc k) 10)) [
  | inl small ↦ rw small (ground arith)
  | inr large ↦ let e = print_fuel_two k (suc k) [] (ground arith) h in rw e refl
]

module _ (a b : ℕ) (ha : IsDigit a) (hb : IsDigit b) where
  before_dot-append : (ds : List ℕ) → All IsDigit ds → before_dot (ds ++ b'.' ∷ a ∷ b ∷ []) ≡ ds
  unfolding before_dot is_digit
  before_dot-append [] h = refl
  before_dot-append (d ∷ ds) h = ground (arith, before_dot-append ds h.1)

  after_dot-append :
      (ds : List ℕ) → All IsDigit ds → after_dot (ds ++ b'.' ∷ a ∷ b ∷ []) ≡ a ∷ b ∷ []
  unfolding after_dot before_dot is_digit
  after_dot-append [] h = ground arith
  after_dot-append (d ∷ ds) h = ground (arith, after_dot-append ds h.1)

  matches_rest-append :
      (ds : List ℕ) → All IsDigit ds → matches_rest (ds ++ b'.' ∷ a ∷ b ∷ []) ≡ true
  unfolding matches_rest
  matches_rest-append [] h = ground arith
  matches_rest-append (d ∷ ds) h = ground (arith, matches_rest-append ds h.1)

  matches_decimal-append :
      (ds : List ℕ)
      → 0 < length ds
      → All IsDigit ds
      → matches_decimal (ds ++ b'.' ∷ a ∷ b ∷ []) ≡ true
  unfolding matches_decimal
  matches_decimal-append [] p h = absurd (omega arith)
  matches_decimal-append (d ∷ ds) p h = rw h.0 (matches_rest-append ds h.1)

abbrev tens : ℕ → ℕ
tens n = n % 100 / 10 + b'0'

abbrev ones : ℕ → ℕ
ones n = n % 100 % 10 + b'0'

abbrev shown : ℕ → List ℕ
shown n = print_digits (n / 100) ++ b'.' ∷ tens n ∷ ones n ∷ []

to_major_units_string-pos :
    (n : ℕ) (c : Currency)
    → to_major_units_string (record { minor_units = pos n; currency = c }) ≡ shown n
unfolding to_major_units_string
to_major_units_string-pos n c =
    let nonneg : ltb (n + 0) (0 + 0) ≡ false = ground arith in
    let same : n + 0 ≡ n = omega arith in
    rw (nonneg, same, pad_start-print_digits (n % 100) (omega arith)) refl

print_digits-IsDigit : (n : ℕ) → All IsDigit (print_digits n)
unfolding print_digits
print_digits-IsDigit n = print_fuel-IsDigit (suc n) n [] tt

parse_digits-print_digits : (n : ℕ) → parse_digits (print_digits n) ≡ n
unfolding parse_digits print_digits
parse_digits-print_digits n = parse_from-print_fuel (suc n) n [] (omega arith)

parse_digits-two : (n : ℕ) → parse_digits (pad_end 2 (tens n ∷ ones n ∷ [])) ≡ n % 100
unfolding parse_digits pad_end
parse_digits-two n = omega arith

from_decimal_string-shown :
    (n : ℕ) (c : Currency)
    → from_decimal_string (shown n) c ≡ ok (record { minor_units = pos n; currency = c })
unfolding from_decimal_string
from_decimal_string-shown n c =
    let a = IsDigit-of_lt (n % 100 / 10) (omega arith) in
    let b = IsDigit-of_lt (n % 100 % 10) (omega arith) in
    let ds = print_digits (n / 100) in
    let hs = print_digits-IsDigit (n / 100) in
    let sum : n / 100 * 100 + n % 100 ≡ n = omega arith in
    rw
      (
        matches_decimal-append (tens n) (ones n) a b ds (length-print_digits (n / 100)) hs,
        before_dot-append (tens n) (ones n) a b ds hs,
        after_dot-append (tens n) (ones n) a b ds hs,
        parse_digits-print_digits (n / 100),
        parse_digits-two n,
        sum,
      )
      refl

round_trip :
    (a : ℤ) (c : Currency)
    → pos 0 ≤ℤ a
    → let m : Money = record { minor_units = a; currency = c } in
      from_decimal_string (to_major_units_string m) c ≡ ok m
round_trip (pos n) c h = rw (to_major_units_string-pos n c) (from_decimal_string-shown n c)
round_trip (negsuc n) c h = absurd (omega arith)

-- An amount of zero or more that toMajorUnitsString prints is read back by fromDecimalString.
pub from_decimal_string-to_major_units_string :
    (m : Money)
    → pos 0 ≤ℤ m.minor_units
    → from_decimal_string (to_major_units_string m) m.currency ≡ ok m
from_decimal_string-to_major_units_string m h = round_trip m.minor_units m.currency h
