-- ===== src/Compliance/Tests.antt =====
-- Instances of the properties of profiles.
use kudi_ai.Common.{◌≡◌, refl, true, false}
use kudi_ai.Shared.Enums.{tier_1, tier_2, tier_3}
use kudi_ai.Shared.Errors.{ok, or_else}
use kudi_ai.Compliance.Profile.{
  Profile, ProfileProps, reconstitute, is_set, create_default, record_bvn_verified,
  record_nin_verified, flag_for_sanctions_review,
}
use kudi_ai.Compliance.Profile.Tiers.{
  Reach, here, next, flagged, IsValid, create_default-IsValid, Reach-IsValid,
  nin_then_bvn_stays_tier_2, bvn_then_nin_reaches_tier_3,
}
use kudi_ai.Compliance.Profile.Announcements.{IsAnnounced, Reach-IsAnnounced}

abbrev new_profile : Profile
new_profile = create_default "profile" 1 "ada"

abbrev flagged_profile : Profile
flagged_profile = flag_for_sanctions_review 2 "a name on a list" new_profile

flagged-Reach : Reach new_profile flagged_profile
flagged-Reach = next here (flagged 2 "a name on a list")

Reach-IsValid_example : IsValid flagged_profile
Reach-IsValid_example = Reach-IsValid (create_default-IsValid "profile" 1 "ada") flagged-Reach

-- A row of tier 2.
abbrev tier_2_row : ProfileProps
tier_2_row = record new_profile.props { tier = tier_2; version = 4 }

Reach-IsAnnounced_example :
    IsAnnounced tier_2 false
      (flag_for_sanctions_review 2 "a name on a list" (reconstitute tier_2_row))
unfolding create_default
Reach-IsAnnounced_example =
    Reach-IsAnnounced tier_2_row
      (flag_for_sanctions_review 2 "a name on a list" (reconstitute tier_2_row))
      (next here (flagged 2 "a name on a list"))

-- A new profile after its NIN, and then its BVN, were verified; and the other way round.
abbrev nin_profile : Profile
nin_profile = or_else new_profile (record_nin_verified 2 "hash of a NIN" "123" new_profile)

abbrev nin_bvn_profile : Profile
nin_bvn_profile = or_else nin_profile (record_bvn_verified 3 "hash of a BVN" "456" nin_profile)

abbrev bvn_profile : Profile
bvn_profile = or_else new_profile (record_bvn_verified 2 "hash of a BVN" "456" new_profile)

abbrev bvn_nin_profile : Profile
bvn_nin_profile = or_else bvn_profile (record_nin_verified 3 "hash of a NIN" "123" bvn_profile)

nin_verifies : record_nin_verified 2 "hash of a NIN" "123" new_profile ≡ ok nin_profile
unfolding create_default record_nin_verified
nin_verifies = refl

bvn_verifies_after_nin :
    record_bvn_verified 3 "hash of a BVN" "456" nin_profile ≡ ok nin_bvn_profile
unfolding create_default record_nin_verified record_bvn_verified
bvn_verifies_after_nin = refl

bvn_verifies : record_bvn_verified 2 "hash of a BVN" "456" new_profile ≡ ok bvn_profile
unfolding create_default record_bvn_verified
bvn_verifies = refl

nin_verifies_after_bvn :
    record_nin_verified 3 "hash of a NIN" "123" bvn_profile ≡ ok bvn_nin_profile
unfolding create_default record_nin_verified record_bvn_verified
nin_verifies_after_bvn = refl

new_tier : new_profile.tier ≡ tier_1
unfolding create_default
new_tier = refl

flagged_later : Reach nin_bvn_profile (flag_for_sanctions_review 4 "a name" nin_bvn_profile)
flagged_later = next here (flagged 4 "a name")

nin_then_bvn_stays_tier_2_example :
    ((flag_for_sanctions_review 4 "a name" nin_bvn_profile).tier ≡ tier_2)
    × (is_set (flag_for_sanctions_review 4 "a name" nin_bvn_profile).bvn_verified_at ≡ true)
    × (is_set (flag_for_sanctions_review 4 "a name" nin_bvn_profile).nin_verified_at ≡ true)
nin_then_bvn_stays_tier_2_example =
    nin_then_bvn_stays_tier_2 2 3 "hash of a NIN" "123" "hash of a BVN" "456" new_profile
      nin_profile new_tier nin_verifies bvn_verifies_after_nin flagged_later

bvn_then_nin_reaches_tier_3_example : bvn_nin_profile.tier ≡ tier_3
bvn_then_nin_reaches_tier_3_example =
    bvn_then_nin_reaches_tier_3 2 3 "hash of a BVN" "456" "hash of a NIN" "123" new_profile
      bvn_profile bvn_nin_profile new_tier bvn_verifies nin_verifies_after_bvn
