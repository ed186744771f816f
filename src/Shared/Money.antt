-- ===== src/Shared/Money.antt =====
-- shared/value-objects/money.vo.ts. `bigint` is ℤ. A method that may throw returns a `Result`.
-- Decimal text is a list of code points (`String.prototype` methods on ASCII text).
pub mod Decimal
pub mod Laws
pub mod RoundTrip
use kudi_ai.Common.{
  Bool, true, false, ℕ, ◌*◌, ◌+◌, ◌/◌, ◌%◌, not, ◌&&◌, List, [], ◌∷◌, ◌++◌, if◌then◌else◌,
}
use kudi_ai.Common.Int.{ℤ, pos, ◌+ℤ◌, ◌-ℤ◌, ltb_ℤ, leb_ℤ, eqb_ℤ, pos_part, neg_part}
use kudi_ai.Shared.Enums.{Currency, same_currency, currency_name}
use kudi_ai.Shared.Errors.{Result, ok, err, ◌>>=◌, ◌>>◌, throw_if, Error, domain_exception}
use kudi_ai.Shared.Money.Decimal.{
  matches_decimal, before_dot, after_dot, pad_end, pad_start, parse_digits, print_digits,
}
use Prim.Native.String.{String}
use Prim.Native.String

pub record Money : Type 0 where
  pub minor_units : ℤ
  pub currency : Currency

abbrev pub invalid_money_amount : String → Error
invalid_money_amount m = domain_exception m "INVALID_MONEY_AMOUNT"

-- `Money.fromMinorUnits`
unfoldable pub from_minor_units : ℤ → Currency → Result Money
from_minor_units value currency = do
  throw_if (ltb_ℤ value (pos 0)) (invalid_money_amount "Money amount cannot be negative")
  ok (record { minor_units = value; currency = currency })

abbrev pub zero_money : Currency → Money
zero_money currency = record { minor_units = pos 0; currency = currency }

-- `Money.fromDecimalString`; the message of the exception leaves the text out.
unfoldable pub from_decimal_string : List ℕ → Currency → Result Money
from_decimal_string decimal currency = do
  throw_if (not (matches_decimal decimal)) (invalid_money_amount "Invalid decimal amount")
  let whole_part = before_dot decimal
  let padded_fraction = pad_end 2 (after_dot decimal)
  ok (record {
    minor_units = pos (parse_digits whole_part * 100 + parse_digits padded_fraction);
    currency = currency;
  })

unfoldable pub assert_same_currency : Money → Money → Result (Unit {0})
assert_same_currency a b = throw_if (not (same_currency a.currency b.currency)) (
    domain_exception
      (String.◌++◌ "Currency mismatch: "
        (String.◌++◌ (currency_name a.currency) (String.◌++◌ " vs " (currency_name b.currency))))
      "CURRENCY_MISMATCH")

-- `a.add(b)`
unfoldable pub add : Money → Money → Result Money
unfolding assert_same_currency
add a b = do
  assert_same_currency a b
  ok (record { minor_units = a.minor_units +ℤ b.minor_units; currency = a.currency })

-- `a.subtract(b)`
unfoldable pub subtract : Money → Money → Result Money
unfolding assert_same_currency
subtract a b = do
  assert_same_currency a b
  throw_if (ltb_ℤ a.minor_units b.minor_units) (
      domain_exception "Cannot subtract an amount greater than the available balance"
        "NEGATIVE_MONEY_RESULT")
  ok (record { minor_units = a.minor_units -ℤ b.minor_units; currency = a.currency })

-- `a.isGreaterThanOrEqualTo(b)`
unfoldable pub is_greater_than_or_equal_to : Money → Money → Result Bool
unfolding assert_same_currency
is_greater_than_or_equal_to a b = do
  assert_same_currency a b
  ok (leb_ℤ b.minor_units a.minor_units)

abbrev pub is_zero : Money → Bool
is_zero m = eqb_ℤ m.minor_units (pos 0)

unfoldable pub equals : Money → Money → Bool
equals a b = same_currency a.currency b.currency && eqb_ℤ a.minor_units b.minor_units

-- `m.toMajorUnitsString()`
unfoldable pub to_major_units_string : Money → List ℕ
to_major_units_string m =
    let negative = ltb_ℤ m.minor_units (pos 0) in
    let abs = pos_part m.minor_units + neg_part m.minor_units in
    let major = print_digits (abs / 100) in
    let minor = pad_start 2 (print_digits (abs % 100)) in
    (if negative then b'-' ∷ [] else []) ++ (major ++ b'.' ∷ minor)
