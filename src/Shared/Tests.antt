-- ===== src/Shared/Tests.antt =====
-- Runs and instances of the shared kernel.
use kudi_ai.Common.{◌≡◌, refl, codes, true, ◌↔◌, arith}
use kudi_ai.Common.Int.{pos}
use kudi_ai.Shared.Enums.{ngn}
use kudi_ai.Shared.Errors.{ok}
use kudi_ai.Shared.Money.{
  Money, from_decimal_string, to_major_units_string, add, subtract, is_greater_than_or_equal_to,
}
use kudi_ai.Shared.Money.Laws.{IsAmount, subtract_iff}
use kudi_ai.Shared.Money.RoundTrip.{from_decimal_string-to_major_units_string}
use kudi_ai.Shared.Money.Decimal.{
  matches_decimal, print_digits, pad_start, pad_end, before_dot, after_dot, parse_digits,
}

abbrev five_naira : Money
five_naira = record { minor_units = pos 500; currency = ngn }

abbrev two_kobo : Money
two_kobo = record { minor_units = pos 2; currency = ngn }

parses :
    from_decimal_string (codes "1500.5") ngn
    ≡ ok (record { minor_units = pos 150050; currency = ngn })
unfolding from_decimal_string matches_decimal pad_end before_dot after_dot parse_digits
parses = refl

prints :
    to_major_units_string (record { minor_units = pos 199900; currency = ngn }) ≡ codes "1999.00"
unfolding to_major_units_string print_digits pad_start
prints = refl

subtract_iff_example :
    ((d : Money)
      → (subtract five_naira two_kobo ≡ ok d) ↔ (IsAmount d × (add d two_kobo ≡ ok five_naira)))
    × (((d : Money) × (subtract five_naira two_kobo ≡ ok d))
        ↔ (is_greater_than_or_equal_to five_naira two_kobo ≡ ok true))
subtract_iff_example = subtract_iff five_naira two_kobo refl

from_decimal_string-to_major_units_string_example :
    from_decimal_string (to_major_units_string five_naira) ngn ≡ ok five_naira
from_decimal_string-to_major_units_string_example =
    from_decimal_string-to_major_units_string five_naira (ground arith)
