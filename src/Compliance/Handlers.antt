-- ===== src/Compliance/Handlers.antt =====
-- The handlers of modules/compliance/application: the verification of a BVN or NIN by the user
-- (commands/submit-bvn-verification and submit-nin-verification, one for each of the two types) and
-- by staff (manually-verify-bvn and manually-verify-nin), clear-sanctions-flag, and the event
-- handler of a registration. The response is the profile.
pub mod Flagged
pub mod Gate
pub mod Stored
mod Screened
mod Tests
use kudi_ai.Common.{
  String, ℕ, Bool, true, false, not, Option, none, some, List, [], ◌∷◌, if◌then◌else◌,
}
use Prim.Native.String
use kudi_ai.Shared.Enums.{VerificationType, bvn, nin}
use kudi_ai.Shared.Errors.{Result, identity_mismatch, kyc_profile_not_found}
use kudi_ai.Shared.Events.{DomainEvent, kyc_tier_upgraded}
use kudi_ai.Shared.Action.{Action, pure, throw, lift, gets, ◌>>=◌, ◌>>◌}
use kudi_ai.Database.{World, random_text, publish_all}
use kudi_ai.Database.Schema.{passed}
use kudi_ai.Database.Tables.{select}
use kudi_ai.Identity.User.{User}
use kudi_ai.Identity.Repository.{find_user_by_id}
use kudi_ai.Compliance.Profile.{
  Profile, create_default, record_bvn_verified, record_nin_verified, record_verification_failed,
  clear_sanctions_flag,
}
use kudi_ai.Compliance.Identifiers.{
  create_identifier, to_masked, VerificationProvider, IdentifierHasher,
}
use kudi_ai.Compliance.Repository.{find_by_user_id, save, pull_domain_events}
use kudi_ai.Compliance.Audit.{
  save_new, for_verification_attempt, for_sanctions_screening, record_domain_events,
}
use kudi_ai.Compliance.Screening.{screen_and_flag}

-- `findById` of the user and `findByUserId` of the profile, with their tests.
unfoldable pub get_user : String → Action World User
get_user user_id = do
  found ← find_user_by_id user_id
  elim found [ none ↦ throw (kyc_profile_not_found user_id) | some u ↦ pure u ]

unfoldable pub get_profile : String → Action World Profile
get_profile user_id = do
  found ← find_by_user_id user_id
  elim found [ none ↦ throw (kyc_profile_not_found user_id) | some p ↦ pure p ]

abbrev pub record_verified :
    VerificationType → ℕ → (hash masked : String) → Profile → Result Profile
record_verified bvn = record_bvn_verified
record_verified nin = record_nin_verified

-- `${user.firstName} ${user.lastName}`, where the provider gave no name
abbrev pub name_of : User → Option String → String
name_of u none = String.◌++◌ u.first_name (String.◌++◌ " " u.last_name)
name_of u (some name) = name

-- `event instanceof KycTierUpgradedEvent`
abbrev pub is_tier_upgrade : DomainEvent → Bool
is_tier_upgrade (kyc_tier_upgraded _ _ _) = true
is_tier_upgrade _ = false

abbrev pub or_unavailable : Option String → String
or_unavailable none = "unavailable"
or_unavailable (some name) = name

module _ (provider : VerificationProvider) (hasher : IdentifierHasher) where
  -- The names do not match.
  unfoldable pub reject : VerificationType → Profile → Action World Profile
  reject type p = do
    now ← gets (λ w. w.now)
    let q = record_verification_failed now type "Provider-returned name did not match" p
    save q
    record_domain_events (pull_domain_events q).0
    publish_all (pull_domain_events q).0
    throw identity_mismatch

  -- The names match.
  unfoldable pub accept :
      VerificationType → (identifier full_name : String) → Profile → Action World Profile
  accept type identifier full_name p = do
    hash ← lift (hasher.hash identifier)
    now ← gets (λ w. w.now)
    q ← lift (record_verified type now hash (to_masked identifier) p)
    save q
    record_domain_events (pull_domain_events q).0
    publish_all (pull_domain_events q).0
    screen_and_flag (pull_domain_events q).1 full_name

  -- `SubmitBvnVerificationHandler.execute`, `SubmitNinVerificationHandler.execute`
  unfoldable pub submit : VerificationType → (user_id raw : String) → Action World Profile
  submit type user_id raw = do
    u ← get_user user_id
    p ← get_profile user_id
    identifier ← lift (create_identifier type raw)
    result ← lift (provider.verify type identifier u.first_name u.last_name)
    if result.matched
        then accept type identifier (name_of u result.verified_full_name) p
        else reject type p

  -- The override, for an identifier that the provider knows: its entry in the audit log, and those
  -- of the tier.
  unfoldable pub override :
      VerificationType
      → (target_user_id staff_user_id reason identifier : String) (verified : Option String) → User
      → Profile
      → Action World Profile
  override type target staff reason identifier verified u p = do
    hash ← lift (hasher.hash identifier)
    now ← gets (λ w. w.now)
    q ← lift (record_verified type now hash (to_masked identifier) p)
    save q
    save_new (λ id now. for_verification_attempt id now (record {
      user_id = target;
      kyc_profile_id = q.id;
      verification_type = type;
      outcome = passed;
      failure_reason = none;
      performed_by_user_id = some staff;
      notes = some (
          String.◌++◌ "Manual override by staff. Reason: " (
            String.◌++◌ reason (
              String.◌++◌ ". Provider-returned name: "
                (String.◌++◌ (or_unavailable verified) "."))));
    }))
    record_domain_events (select is_tier_upgrade (pull_domain_events q).0)
    publish_all (pull_domain_events q).0
    screen_and_flag (pull_domain_events q).1 (name_of u verified)

  -- `ManuallyVerifyBvnHandler.execute`, `ManuallyVerifyNinHandler.execute`
  unfoldable pub manually_verify :
      VerificationType → (target_user_id staff_user_id raw reason : String) → Action World Profile
  manually_verify type target staff raw reason = do
    u ← get_user target
    p ← get_profile target
    identifier ← lift (create_identifier type raw)
    result ← lift (provider.verify type identifier u.first_name u.last_name)
    override type target staff reason identifier result.verified_full_name u p

-- `ClearSanctionsFlagHandler.execute`
unfoldable pub clear_flag : (target_user_id staff_user_id reason : String) → Action World Profile
clear_flag target staff reason = do
  p ← get_profile target
  now ← gets (λ w. w.now)
  q ← lift (clear_sanctions_flag now staff reason p)
  save q
  save_new (λ id now. for_sanctions_screening id now (record {
    user_id = target;
    kyc_profile_id = q.id;
    outcome = passed;
    notes = some (String.◌++◌ "Flag cleared by staff. Reason: " (String.◌++◌ reason "."));
    performed_by_user_id = some staff;
  }))
  publish_all (pull_domain_events q).0
  pure (pull_domain_events q).1

-- `UserRegisteredHandler.handle`
unfoldable pub handle_user_registered : (user_id : String) → Action World (Unit {0})
handle_user_registered user_id = do
  id ← random_text
  now ← gets (λ w. w.now)
  let p = create_default id now user_id
  save p
  publish_all (pull_domain_events p).0

-- `GetMyKycStatusHandler.execute`
unfoldable pub get_my_kyc_status : (user_id : String) → Action World Profile
get_my_kyc_status user_id = get_profile user_id
