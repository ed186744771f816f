-- ===== src/Transfers/Fees.antt =====
-- modules/transfers/infrastructure/services/flat-rate-fee-calculator.service.ts. The source
-- compares `Number("<major>.<minor>")` with 5000 and 50000: amounts of two decimals keep their
-- order against these integers under rounding to a double, so the model compares minor units.
use kudi_ai.Common.{◌≡◌, refl, arith, codes, if◌then◌else◌}
use kudi_ai.Common.Int.{ℤ, pos, ◌≤ℤ◌, leb_ℤ}
use kudi_ai.Shared.Enums.{TransferType, internal, external}
use kudi_ai.Shared.Errors.{Result, ok}
use kudi_ai.Shared.Money.{Money, zero_money, from_decimal_string}
use kudi_ai.Shared.Money.Decimal.{matches_decimal, before_dot, after_dot, pad_end, parse_digits}

-- `calculate`
unfoldable pub calculate_fee : Money → TransferType → Result Money
unfolding from_decimal_string
calculate_fee amount internal = ok (zero_money amount.currency)
calculate_fee amount external =
    if leb_ℤ amount.minor_units (pos 500000)
    then from_decimal_string (codes "10.00") amount.currency
    else if leb_ℤ amount.minor_units (pos 5000000)
    then from_decimal_string (codes "25.00") amount.currency
    else from_decimal_string (codes "50.00") amount.currency

abbrev schedule : ℤ → ℤ
schedule x =
    if leb_ℤ x (pos 500000) then pos 1000 else if leb_ℤ x (pos 5000000) then pos 2500 else pos 5000

-- Every amount has a fee, in its own currency; an internal transfer is free, an external one
-- costs ₦10 to ₦50, and a larger amount never costs less.
pub calculate_fee_schedule :
    (a b : Money)
    → a.currency ≡ b.currency
    → a.minor_units ≤ℤ b.minor_units
    → (calculate_fee a internal ≡ ok (zero_money a.currency))
      × ((f g : Money) × (calculate_fee a external ≡ ok f)
          × (calculate_fee b external ≡ ok g)
          × (f.currency ≡ a.currency)
          × (pos 1000 ≤ℤ f.minor_units)
          × (f.minor_units ≤ℤ g.minor_units)
          × (g.minor_units ≤ℤ pos 5000))
unfolding calculate_fee matches_decimal before_dot after_dot pad_end parse_digits
calculate_fee_schedule a b c le = (
  refl,
  (
    record { minor_units = schedule a.minor_units; currency = a.currency },
    record { minor_units = schedule b.minor_units; currency = b.currency },
    ground arith,
    ground arith,
    refl,
    ground arith,
    ground arith,
    ground arith,
  ),
)
