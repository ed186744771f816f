-- ===== src/Identity/Values.antt =====
-- modules/identity/domain/value-objects: an email, a phone number and a password are their texts.
-- `toLowerCase` is that of the ASCII letters; other letters stay as they are.
use kudi_ai.Common.{
  String, ℕ, ◌+◌, Bool, false, not, ◌&&◌, ◌||◌, List, [], ◌∷◌, ◌==◌, codes, all, eqb, leb, ltb,
  length, if◌then◌else◌,
}
use Prim.Native.String
use Prim.Native.Char.{Char, code}
use kudi_ai.Shared.Errors.{Result, ok, ◌>>◌, throw_if, domain_exception}
use kudi_ai.Shared.Money.Decimal.{is_digit}

-- `\s`, and the characters that `trim` takes away
abbrev pub is_space : ℕ → Bool
is_space c =
    (leb 9 c && leb c 13)
    || eqb c 32
    || eqb c 160
    || eqb c 5760
    || (leb 8192 c && leb c 8202)
    || eqb c 8232
    || eqb c 8233
    || eqb c 8239
    || eqb c 8287
    || eqb c 12288
    || eqb c 65279

abbrev pub trim_start : String → String
trim_start String.[] = String.[]
trim_start (String.◌∷◌ c s) =
    let rest = trim_start s in if is_space (code c) then rest else String.◌∷◌ c s

abbrev pub trim_end : String → String
trim_end String.[] = String.[]
trim_end (String.◌∷◌ c s) =
    let rest = trim_end s in
    if is_space (code c) && rest == "" then String.[] else String.◌∷◌ c rest

abbrev pub trim : String → String
trim s = trim_end (trim_start s)

abbrev pub lower_char : Char → Char
lower_char c =
    if eqb (code c) 65
    then "a"
    else if eqb (code c) 66
    then "b"
    else if eqb (code c) 67
    then "c"
    else if eqb (code c) 68
    then "d"
    else if eqb (code c) 69
    then "e"
    else if eqb (code c) 70
    then "f"
    else if eqb (code c) 71
    then "g"
    else if eqb (code c) 72
    then "h"
    else if eqb (code c) 73
    then "i"
    else if eqb (code c) 74
    then "j"
    else if eqb (code c) 75
    then "k"
    else if eqb (code c) 76
    then "l"
    else if eqb (code c) 77
    then "m"
    else if eqb (code c) 78
    then "n"
    else if eqb (code c) 79
    then "o"
    else if eqb (code c) 80
    then "p"
    else if eqb (code c) 81
    then "q"
    else if eqb (code c) 82
    then "r"
    else if eqb (code c) 83
    then "s"
    else if eqb (code c) 84
    then "t"
    else if eqb (code c) 85
    then "u"
    else if eqb (code c) 86
    then "v"
    else if eqb (code c) 87
    then "w"
    else if eqb (code c) 88
    then "x"
    else if eqb (code c) 89
    then "y"
    else if eqb (code c) 90
    then "z"
    else c

abbrev pub to_lower_case : String → String
to_lower_case String.[] = String.[]
to_lower_case (String.◌∷◌ c s) = String.◌∷◌ (lower_char c) (to_lower_case s)

-- `text.length`: the units of UTF-16
abbrev pub utf16_length : List ℕ → ℕ
utf16_length [] = 0
utf16_length (c ∷ cs) = (if ltb c 65536 then 1 else 2) + utf16_length cs

-- `[^\s@]`
abbrev pub is_plain : ℕ → Bool
is_plain c = not (is_space c) && not (eqb c b'@')

-- A dot that is not the last character.
abbrev pub dot_before_last : List ℕ → Bool
dot_before_last [] = false
dot_before_last (c ∷ []) = false
dot_before_last (c ∷ d ∷ cs) = let rest = dot_before_last (d ∷ cs) in eqb c b'.' || rest

-- /^[^\s@]+\.[^\s@]+$/
abbrev pub matches_domain : List ℕ → Bool
matches_domain [] = false
matches_domain (c ∷ cs) = is_plain c && (all is_plain cs && dot_before_last cs)

-- /^[^\s@]*@[^\s@]+\.[^\s@]+$/
abbrev pub matches_local : List ℕ → Bool
matches_local [] = false
matches_local (c ∷ cs) =
    let rest = matches_local cs in if eqb c b'@' then matches_domain cs else is_plain c && rest

-- EMAIL_REGEX, /^[^\s@]+@[^\s@]+\.[^\s@]+$/
abbrev pub matches_email : List ℕ → Bool
matches_email [] = false
matches_email (c ∷ cs) = is_plain c && matches_local cs

-- `Email.create`
unfoldable pub create_email : String → Result String
unfolding is_digit
create_email raw = do
  throw_if (not (matches_email (codes (to_lower_case (trim raw)))))
      (domain_exception (String.◌++◌ "Invalid email address: " raw) "INVALID_EMAIL")
  throw_if (ltb 254 (utf16_length (codes (to_lower_case (trim raw)))))
      (domain_exception "Email address exceeds maximum length" "INVALID_EMAIL")
  ok (to_lower_case (trim raw))

-- `replace(/[\s-]/g, '')`
abbrev pub remove_separators : String → String
remove_separators String.[] = String.[]
remove_separators (String.◌∷◌ c s) =
    let rest = remove_separators s in
    if is_space (code c) || eqb (code c) b'-' then rest else String.◌∷◌ c rest

-- E164_REGEX, /^\+[1-9]\d{7,14}$/
abbrev pub matches_e164 : List ℕ → Bool
matches_e164 [] = false
matches_e164 (p ∷ []) = false
matches_e164 (p ∷ d ∷ cs) =
    eqb p b'+'
    && ((leb b'1' d && leb d b'9')
        && (all is_digit cs && (leb 7 (length cs) && leb (length cs) 14)))

-- `PhoneNumber.create`
unfoldable pub create_phone_number : String → Result String
create_phone_number raw = do
  throw_if (not (matches_e164 (codes (remove_separators (trim raw))))) (
      domain_exception (String.◌++◌ "Invalid phone number, expected E.164 format: " raw)
        "INVALID_PHONE_NUMBER")
  ok (remove_separators (trim raw))

-- MIN_LENGTH
abbrev pub min_length : ℕ
min_length = 10

-- `PlainPassword.create`; the empty text is too short.
unfoldable pub create_plain_password : String → Result String
create_plain_password raw = do
  throw_if (ltb (utf16_length (codes raw)) min_length)
      (domain_exception "Password must be at least 10 characters" "WEAK_PASSWORD")
  ok raw

-- `HashedPassword.fromHash`
unfoldable pub from_hash : String → Result String
from_hash hash = do
  throw_if (hash == "") (domain_exception "Password hash cannot be empty" "INVALID_PASSWORD_HASH")
  ok hash
