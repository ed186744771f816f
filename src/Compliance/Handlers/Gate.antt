-- ===== src/Compliance/Handlers/Gate.antt =====
-- What a submission that returns has met: the answer of the provider and the saved profile.
use kudi_ai.Common.{◌≡◌, String, true, List, [], ◌∷◌, ◌++◌}
use kudi_ai.Shared.Enums.{VerificationType}
use kudi_ai.Shared.Errors.{ok}
use kudi_ai.Database.{World}
use kudi_ai.Database.Schema.{AuditLogEntry}
use kudi_ai.Database.Tables.{any}
use kudi_ai.Compliance.Handlers.Stored.{IsLogged}
use kudi_ai.Compliance.Handlers.Screened.{is_verified_row}
use kudi_ai.Identity.User.{User}
use kudi_ai.Compliance.Profile.{Profile}
use kudi_ai.Compliance.Identifiers.{
  create_identifier, to_masked, VerificationProvider, VerificationResult, IdentifierHasher,
}
use kudi_ai.Compliance.Handlers.{record_verified}

-- The provider's answer for the user u with profile p, the profile that the verification gives, and
-- what the table of the profiles and the audit log hold in the end.
pub record IsMatched (provider : VerificationProvider) (hasher : IdentifierHasher)
    (type : VerificationType) (raw : String) (u : User) (p : Profile) (w w' : World) : Type 0 where
  pub format : create_identifier type raw ≡ ok raw
  pub result : VerificationResult
  pub answer : provider.verify type raw u.first_name u.last_name ≡ ok result
  pub matched : result.matched ≡ true
  pub hash : String
  pub hashed : hasher.hash raw ≡ ok hash
  pub verified : Profile
  pub verifies : record_verified type w.now hash (to_masked raw) p ≡ ok verified
  pub stored : any (is_verified_row type p.id hash) w'.db.kyc_profiles ≡ true
  pub entries : List AuditLogEntry
  pub screening : AuditLogEntry
  pub log : w'.db.kyc_audit_log ≡ w.db.kyc_audit_log ++ entries ++ screening ∷ []
  pub logged : IsLogged type p verified entries
