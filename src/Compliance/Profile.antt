-- ===== src/Compliance/Profile.antt =====
-- modules/compliance/domain/entities/kyc-profile.entity.ts. `new Date()` and `randomUUID()` are
-- arguments; a date is its milliseconds since the epoch, which is truthy as an object, so
-- `if (verifiedAt)` asks whether there is a date.
pub mod Tiers
pub mod Announcements
use kudi_ai.Common.{
  String, ℕ, ◌+◌, Bool, true, false, not, ◌&&◌, Option, none, some, List, [], ◌∷◌, ◌++◌,
  if◌then◌else◌,
}
use kudi_ai.Shared.Enums.{KycTier, tier_1, tier_2, tier_3, VerificationType, bvn, nin}
use kudi_ai.Shared.Errors.{
  Result, ok, ◌>>=◌, ◌>>◌, throw_if, verification_already_passed, sanctions_flag_not_open,
}
use kudi_ai.Shared.Events.{
  DomainEvent, kyc_profile_created, verification_passed, verification_failed, kyc_tier_upgraded,
  kyc_profile_flagged, kyc_profile_flag_cleared,
}

pub record ProfileProps : Type 0 where
  pub id : String
  pub user_id : String
  pub tier : KycTier
  pub bvn_verified_at : Option ℕ
  pub bvn_hash : Option String
  pub bvn_masked : Option String
  pub nin_verified_at : Option ℕ
  pub nin_hash : Option String
  pub nin_masked : Option String
  pub sanctions_flagged_at : Option ℕ
  pub sanctions_cleared_at : Option ℕ
  pub version : ℕ
  pub created_at : ℕ
  pub updated_at : ℕ

pub record Profile : Type 0 where
  pub props : ProfileProps
  pub open props use *
  pub domain_events : List DomainEvent

abbrev pub is_set {ℓ} : {A : Type ℓ} → Option A → Bool
is_set none = false
is_set (some _) = true

abbrev pub is_tier_1 : KycTier → Bool
is_tier_1 tier_1 = true
is_tier_1 _ = false

abbrev pub is_tier_2 : KycTier → Bool
is_tier_2 tier_2 = true
is_tier_2 _ = false

-- `KycProfile.createDefault`: `id` is the `randomUUID()` of the call.
unfoldable pub create_default : (id : String) (now : ℕ) (user_id : String) → Profile
create_default id now user_id = record {
  props = record {
    id = id;
    user_id = user_id;
    tier = tier_1;
    bvn_verified_at = none;
    bvn_hash = none;
    bvn_masked = none;
    nin_verified_at = none;
    nin_hash = none;
    nin_masked = none;
    sanctions_flagged_at = none;
    sanctions_cleared_at = none;
    version = 0;
    created_at = now;
    updated_at = now;
  };
  domain_events = kyc_profile_created id user_id ∷ [];
}

abbrev pub reconstitute : ProfileProps → Profile
reconstitute props = record { props = props; domain_events = [] }

abbrev pub touch : ℕ → Profile → Profile
touch now p = record p { props = record p.props { version = p.version + 1; updated_at = now } }

abbrev pub add_domain_event : DomainEvent → Profile → Profile
add_domain_event event p = record p { domain_events = p.domain_events ++ event ∷ [] }

-- `this.props.tier = tier` and the KycTierUpgradedEvent.
abbrev pub upgrade : KycTier → Profile → Profile
upgrade tier p =
    add_domain_event (kyc_tier_upgraded p.id p.user_id tier)
      (record p { props = record p.props { tier = tier } })

unfoldable pub record_bvn_verified : ℕ → (hash masked : String) → Profile → Result Profile
record_bvn_verified now hash masked p = do
  throw_if (is_set p.bvn_verified_at) (verification_already_passed bvn)
  let q = add_domain_event (verification_passed p.id p.user_id bvn) (
      touch now (record p {
        props = record p.props {
          bvn_verified_at = some now;
          bvn_hash = some hash;
          bvn_masked = some masked;
        };
      }))
  ok (if is_tier_1 q.tier then upgrade tier_2 q else q)

unfoldable pub record_nin_verified : ℕ → (hash masked : String) → Profile → Result Profile
record_nin_verified now hash masked p = do
  throw_if (is_set p.nin_verified_at) (verification_already_passed nin)
  let q = add_domain_event (verification_passed p.id p.user_id nin) (
      touch now (record p {
        props = record p.props {
          nin_verified_at = some now;
          nin_hash = some hash;
          nin_masked = some masked;
        };
      }))
  ok (if is_tier_2 q.tier && is_set q.bvn_verified_at then upgrade tier_3 q else q)

unfoldable pub record_verification_failed :
    ℕ → VerificationType → (reason : String) → Profile → Profile
record_verification_failed now type reason p =
    add_domain_event (verification_failed p.id p.user_id type reason) (touch now p)

-- `isSanctionsFlagOpen`, also the getter `isCurrentlyFlaggedForSanctions`.
abbrev pub is_sanctions_flag_open : Profile → Bool
is_sanctions_flag_open p = is_set p.sanctions_flagged_at && not (is_set p.sanctions_cleared_at)

unfoldable pub flag_for_sanctions_review : ℕ → (match_summary : String) → Profile → Profile
flag_for_sanctions_review now match_summary p =
    if is_sanctions_flag_open p
    then p
    else add_domain_event (kyc_profile_flagged p.id p.user_id match_summary) (
        touch now (record p {
          props = record p.props { sanctions_flagged_at = some now; sanctions_cleared_at = none };
        }))

unfoldable pub clear_sanctions_flag : ℕ → (staff_user_id reason : String) → Profile → Result Profile
clear_sanctions_flag now staff_user_id reason p = do
  throw_if (not (is_sanctions_flag_open p)) (sanctions_flag_not_open p.user_id)
  ok (
      add_domain_event (kyc_profile_flag_cleared p.id p.user_id staff_user_id reason)
        (touch now (record p { props = record p.props { sanctions_cleared_at = some now } })))
