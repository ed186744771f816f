-- ===== src/Shared/Digits.antt =====
-- Texts of decimal digits.
use kudi_ai.Common.{String, ℕ, ◌-◌, List, [], ◌∷◌, eqb, if◌then◌else◌}
use Prim.Native.Char.{Char}

-- The characters from 0 to 9 by their digits, and the text of digits given by their codes.
abbrev pub digit_char : ℕ → Char
digit_char d =
    if eqb d 0
    then "0"
    else if eqb d 1
    then "1"
    else if eqb d 2
    then "2"
    else if eqb d 3
    then "3"
    else if eqb d 4
    then "4"
    else if eqb d 5
    then "5"
    else if eqb d 6
    then "6"
    else if eqb d 7
    then "7"
    else if eqb d 8
    then "8"
    else "9"

abbrev pub text_of : List ℕ → String
text_of [] = String.[]
text_of (c ∷ cs) = String.◌∷◌ (digit_char (c - b'0')) (text_of cs)
