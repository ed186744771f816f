-- ===== src/Compliance/Identifiers.antt =====
-- modules/compliance/domain/value-objects/bvn.vo.ts and nin.vo.ts: the two numbers are their texts,
-- with one format and one mask. The ports of domain/services behind which are Flutterwave and an
-- HMAC are parameters.
use kudi_ai.Common.{String, ℕ, ◌-◌, Bool, not, ◌&&◌, Option, codes, all, eqb, length, if◌then◌else◌}
use Prim.Native.String
use kudi_ai.Shared.Enums.{VerificationType, bvn, nin}
use kudi_ai.Shared.Errors.{Result, ok, ◌>>◌, throw_if, domain_exception}
use kudi_ai.Shared.Money.Decimal.{is_digit}

-- BVN_REGEX and NIN_REGEX, /^\d{11}$/
abbrev pub matches_identifier : String → Bool
matches_identifier s = eqb (length (codes s)) 11 && all is_digit (codes s)

-- `Bvn.create` and `Nin.create`
unfoldable pub create_identifier : VerificationType → String → Result String
create_identifier bvn raw = do
  throw_if (not (matches_identifier raw))
      (domain_exception "BVN must be exactly 11 digits" "INVALID_BVN")
  ok raw
create_identifier nin raw = do
  throw_if (not (matches_identifier raw))
      (domain_exception "NIN must be exactly 11 digits" "INVALID_NIN")
  ok raw

abbrev pub drop_all_but : (left kept : ℕ) → String → String
drop_all_but left kept String.[] = String.[]
drop_all_but left kept (String.◌∷◌ c s) =
    let rest = drop_all_but (left - 1) kept s in if eqb left kept then String.◌∷◌ c s else rest

-- `value.slice(-4)` of eleven digits, and `toMasked`
abbrev pub to_masked : String → String
to_masked s = String.◌++◌ "*******" (drop_all_but 11 4 s)

-- IdentityVerificationResult, IIdentityVerificationProvider, IIdentifierHasher
pub record VerificationResult : Type 0 where
  pub matched : Bool
  pub verified_full_name : Option String

pub record VerificationProvider : Type 0 where
  pub verify :
      VerificationType
      → (identifier expected_first_name expected_last_name : String) → Result VerificationResult

pub record IdentifierHasher : Type 0 where
  pub hash : (value : String) → Result String
