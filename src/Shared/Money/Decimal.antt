-- ===== src/Shared/Money/Decimal.antt =====
-- The text operations of money.vo.ts over code points: the pattern /^\d+(\.\d{1,2})?$/,
-- `split('.')`, `padEnd`, `padStart`, `BigInt(text)` and a bigint's `toString()`.
use kudi_ai.Common.{
  Bool, true, false, ℕ, zero, suc, ◌+◌, ◌-◌, ◌*◌, ◌/◌, ◌%◌, ◌&&◌, List, [], ◌∷◌, ◌++◌, leb, ltb,
  eqb, if◌then◌else◌, length,
}

-- `\d`
unfoldable pub is_digit : ℕ → Bool
is_digit c = leb b'0' c && leb c b'9'

-- `text.split('.')[0]`
unfoldable pub before_dot : List ℕ → List ℕ
before_dot [] = []
before_dot (c ∷ cs) = if eqb c b'.' then [] else c ∷ before_dot cs

-- `text.split('.')[1]`, or '' where there is none
unfoldable pub after_dot : List ℕ → List ℕ
after_dot [] = []
after_dot (c ∷ cs) = if eqb c b'.' then before_dot cs else after_dot cs

-- /^(\.\d{1,2})?$/
unfoldable pub matches_fraction : List ℕ → Bool
matches_fraction [] = true
matches_fraction (c ∷ []) = false
matches_fraction (c ∷ d ∷ []) = eqb c b'.' && is_digit d
matches_fraction (c ∷ d ∷ e ∷ []) = eqb c b'.' && (is_digit d && is_digit e)
matches_fraction (c ∷ d ∷ e ∷ _ ∷ _) = false

-- /^\d*(\.\d{1,2})?$/. The two parts begin with different characters, so the run of digits
-- is never cut short.
unfoldable pub matches_rest : List ℕ → Bool
unfolding is_digit matches_fraction
matches_rest [] = true
matches_rest (c ∷ cs) = if is_digit c then matches_rest cs else matches_fraction (c ∷ cs)

-- /^\d+(\.\d{1,2})?$/
unfoldable pub matches_decimal : List ℕ → Bool
unfolding is_digit matches_rest
matches_decimal [] = false
matches_decimal (c ∷ cs) = is_digit c && matches_rest cs

-- `text.padEnd(n, '0')`
unfoldable pub pad_end : ℕ → List ℕ → List ℕ
pad_end zero cs = cs
pad_end (suc n) [] = b'0' ∷ pad_end n []
pad_end (suc n) (c ∷ cs) = c ∷ pad_end n cs

abbrev zeros : ℕ → List ℕ
zeros zero = []
zeros (suc n) = b'0' ∷ zeros n

-- `text.padStart(n, '0')`
unfoldable pub pad_start : ℕ → List ℕ → List ℕ
pad_start n cs = zeros (n - length cs) ++ cs

-- `BigInt(text)` for a text of decimal digits
unfoldable pub parse_from : ℕ → List ℕ → ℕ
parse_from acc [] = acc
parse_from acc (c ∷ cs) = parse_from (acc * 10 + (c - b'0')) cs

unfoldable pub parse_digits : List ℕ → ℕ
unfolding parse_from
parse_digits cs = parse_from 0 cs

-- The digits of n before `rest`; a number below the fuel has fewer digits than the fuel.
unfoldable pub print_fuel : ℕ → ℕ → List ℕ → List ℕ
print_fuel zero n rest = rest
print_fuel (suc fuel) n rest =
    let more = print_fuel fuel (n / 10) ((n % 10 + b'0') ∷ rest) in
    if ltb n 10 then (n + b'0') ∷ rest else more

-- `n.toString()`
unfoldable pub print_digits : ℕ → List ℕ
unfolding print_fuel
print_digits n = print_fuel (suc n) n []
