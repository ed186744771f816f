-- ===== src/Shared/Money/Laws.antt =====
-- Arithmetic on amounts: signs, currencies, and subtraction against addition.
use kudi_ai.Common.{◌≡◌, refl, ap, ◌∙◌, ◌↔◌, true, arith, List, ℕ}
use kudi_ai.Common.Int.{ℤ, pos, ◌+ℤ◌, ◌-ℤ◌, ◌≤ℤ◌, int_laws}
use kudi_ai.Shared.Enums.{Currency, same_currency, same_currency_refl}
use kudi_ai.Shared.Errors.{ok}
use kudi_ai.Shared.Money.{
  Money, from_minor_units, from_decimal_string, add, subtract, is_greater_than_or_equal_to,
}

-- No amount that the class hands out is negative.
abbrev pub IsAmount : Money → Type 0
IsAmount m = pos 0 ≤ℤ m.minor_units

pub from_minor_units-IsAmount :
    (v : ℤ) (c : Currency) (m : Money) → from_minor_units v c ≡ ok m → IsAmount m
unfolding from_minor_units
from_minor_units-IsAmount v c m h = ground arith

pub from_decimal_string-IsAmount :
    (s : List ℕ) (c : Currency) (m : Money)
    → from_decimal_string s c ≡ ok m
    → IsAmount m × (m.currency ≡ c)
unfolding from_decimal_string
from_decimal_string-IsAmount s c m h = ground arith

-- What a successful `add` returns.
pub add-eq_ok :
    (a b m : Money)
    → add a b ≡ ok m
    → (same_currency a.currency b.currency ≡ true)
      × (m.currency ≡ a.currency)
      × (m.minor_units ≡ a.minor_units +ℤ b.minor_units)
unfolding add
add-eq_ok a b m h = ground arith

pub subtract-eq_ok :
    (a b m : Money)
    → subtract a b ≡ ok m
    → (same_currency a.currency b.currency ≡ true)
      × (m.currency ≡ a.currency)
      × (m.minor_units ≡ a.minor_units -ℤ b.minor_units)
      × (b.minor_units ≤ℤ a.minor_units)
unfolding subtract
subtract-eq_ok a b m h = ground arith

-ℤ_+ℤ : (a b : ℤ) → a -ℤ b +ℤ b ≡ a
-ℤ_+ℤ a b = omega int_laws

pub +ℤ_-ℤ : (a b : ℤ) → a +ℤ b -ℤ b ≡ a
+ℤ_-ℤ a b = omega int_laws

Money_path : (m n : Money) → m.minor_units ≡ n.minor_units → m.currency ≡ n.currency → m ≡ n
Money_path m n e f = ground arith

-- On amounts of one currency: d is what `subtract` gives exactly when d is an amount, not negative,
-- to which `add` adds the subtrahend back to the whole; and `subtract` gives something exactly when
-- the comparison allows it.
pub subtract_iff :
    (a b : Money)
    → a.currency ≡ b.currency
    → ((d : Money) → (subtract a b ≡ ok d) ↔ (IsAmount d × (add d b ≡ ok a)))
      × (((d : Money) × (subtract a b ≡ ok d)) ↔ (is_greater_than_or_equal_to a b ≡ ok true))
unfolding subtract add is_greater_than_or_equal_to
subtract_iff a b e =
    let same : same_currency a.currency b.currency ≡ true = rw e (same_currency_refl b.currency) in
    (
      λ d. (
        λ s.
            let (_, c, m, le) = subtract-eq_ok a b d s in
            (rw m (omega int_laws), rw (c, same) (rw (m, -ℤ_+ℤ a.minor_units b.minor_units) refl)),
        λ (p, s).
            let (_, c, m) = add-eq_ok d b a s in
            let diff = ap (λ x. x -ℤ b.minor_units) m ∙ +ℤ_-ℤ d.minor_units b.minor_units in
            let le : b.minor_units ≤ℤ a.minor_units = rw m (omega int_laws) in
            let equal : record {
              minor_units = a.minor_units -ℤ b.minor_units;
              currency = a.currency;
            }
                ≡ d =
              Money_path
                (record { minor_units = a.minor_units -ℤ b.minor_units; currency = a.currency }) d
                diff c in
            ground arith,
      ),
      (
        λ (d, s). ground arith,
        λ h. (
          record { minor_units = a.minor_units -ℤ b.minor_units; currency = a.currency },
          ground arith,
        ),
      ),
    )
