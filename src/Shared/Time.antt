-- ===== src/Shared/Time.antt =====
-- `new Date(ms).toISOString()` for an instant from 1970 up to the year 9999: the calendar of days
-- since 1970 by eras of 400 years, counted from a 1 March.
use kudi_ai.Common.{ℕ, String, ◌+◌, ◌-◌, ◌*◌, ◌/◌, ◌%◌, ltb, if◌then◌else◌, ◌≡◌, refl}
use Prim.Native.String.{◌++◌}
use kudi_ai.Shared.Digits.{digit_char}

-- The last `n` decimal digits.
abbrev two_digits : ℕ → String
two_digits n = String.◌∷◌ (digit_char (n / 10 % 10)) (String.◌∷◌ (digit_char (n % 10)) String.[])

abbrev three_digits : ℕ → String
three_digits n = String.◌∷◌ (digit_char (n / 100 % 10)) (two_digits n)

abbrev four_digits : ℕ → String
four_digits n = two_digits (n / 100) ++ two_digits n

-- The day of an era (0 to 146096), its year and the day of that year.
abbrev year_of_era : ℕ → ℕ
year_of_era day = (day - day / 1460 + day / 36524 - day / 146096) / 365

abbrev day_of_year : ℕ → ℕ
day_of_year day = let y = year_of_era day in day - (365 * y + y / 4 - y / 100)

-- The months from March on.
abbrev month_from_march : ℕ → ℕ
month_from_march doy = (5 * doy + 2) / 153

unfoldable pub date_text : (days : ℕ) → String
date_text days =
    let z = days + 719468 in
    let day = z % 146097 in
    let doy = day_of_year day in
    let m = month_from_march doy in
    let month = if ltb m 10 then m + 3 else m - 9 in
    let year = year_of_era day + z / 146097 * 400 + (if ltb m 10 then 0 else 1) in
    four_digits year ++ "-" ++ two_digits month ++ "-" ++ two_digits (doy - (153 * m + 2) / 5 + 1)

unfoldable pub to_iso_string : (ms : ℕ) → String
unfolding date_text
to_iso_string ms =
    let s = ms / 1000 in
    date_text (s / 86400)
    ++ "T"
    ++ two_digits (s / 3600 % 24)
    ++ ":"
    ++ two_digits (s / 60 % 60)
    ++ ":"
    ++ two_digits (s % 60)
    ++ "."
    ++ three_digits (ms % 1000)
    ++ "Z"

-- Run on 29 February 2024 and on the epoch.
runs :
    (to_iso_string 1709210096007 ≡ "2024-02-29T12:34:56.007Z")
    × (to_iso_string 0 ≡ "1970-01-01T00:00:00.000Z")
unfolding to_iso_string date_text
runs = (refl, refl)
