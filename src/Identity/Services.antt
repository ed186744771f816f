-- ===== src/Identity/Services.antt =====
-- The ports of modules/identity: domain/services/password-hasher.interface.ts and
-- application/ports/token.service.interface.ts. Behind them are bcrypt, @nestjs/jwt and SHA-256,
-- which are parameters. Of infrastructure/services/jwt-token.service.ts the model has the expiry
-- that is sent with an access token.
use kudi_ai.Common.{
  String, ℕ, ◌*◌, Bool, Option, none, some, ◌≡◌, refl, ◌++◌, List, [], ◌∷◌, codes, eqb,
  if◌then◌else◌,
}
use kudi_ai.Shared.Users.{UserRole}
use kudi_ai.Shared.Errors.{Result}
use kudi_ai.Shared.Money.Decimal.{is_digit, parse_digits}

-- IPasswordHasher
pub record PasswordHasher : Type 0 where
  pub hash : (plain_text : String) → Result String
  pub compare : (plain_text hash : String) → Result Bool

-- ITokenService; the opaque token is a draw of the world.
pub record TokenService : Type 0 where
  pub sign_access_token : (sub email : String) → UserRole → Result (String × ℕ)
  pub hash_refresh_token : (token : String) → String

-- The unit of a duration, in seconds.
abbrev pub unit_seconds : ℕ → Option ℕ
unit_seconds c =
    if eqb c b's'
    then some 1
    else if eqb c b'm'
    then some 60
    else if eqb c b'h'
    then some 3600
    else if eqb c b'd'
    then some 86400
    else none

-- The product of the two groups of a match, which needs a digit.
abbrev pub product : (digits : List ℕ) (unit : Option ℕ) → Option ℕ
product digits none = none
product [] (some u) = none
product (d ∷ ds) (some u) = some (parse_digits (d ∷ ds) * u)

-- /^(\d+)([smhd])$/ on the characters after the first digits, and the product of its two groups.
unfoldable pub scan_duration : (digits rest : List ℕ) → Option ℕ
scan_duration digits [] = none
scan_duration digits (c ∷ []) = product digits (unit_seconds c)
scan_duration digits (c ∷ d ∷ cs) =
    let rest = scan_duration (digits ++ c ∷ []) (d ∷ cs) in if is_digit c then rest else none

-- `parseExpiresInSeconds`, with its fallback of 15 minutes
unfoldable pub parse_expires_in_seconds : String → ℕ
unfolding scan_duration
parse_expires_in_seconds text = elim (scan_duration [] (codes text)) [ none ↦ 900 | some n ↦ n ]

runs :
    (parse_expires_in_seconds "15m" ≡ 900)
    × (parse_expires_in_seconds "7d" ≡ 604800)
    × (parse_expires_in_seconds "m" ≡ 900)
unfolding parse_expires_in_seconds scan_duration is_digit parse_digits
runs = (refl, refl, refl)
