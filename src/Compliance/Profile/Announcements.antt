-- ===== src/Compliance/Profile/Announcements.antt =====
-- What the events of a profile tell the other modules: its tier, and whether a sanctions flag is
-- open.
use kudi_ai.Common.{◌≡◌, refl, arith, Bool, true, false, List, [], ◌∷◌, ◌++◌}
use kudi_ai.Shared.Enums.{KycTier}
use kudi_ai.Shared.Events.{
  DomainEvent, kyc_tier_upgraded, kyc_profile_flagged, kyc_profile_flag_cleared,
}
use kudi_ai.Compliance.Profile.{
  Profile, is_sanctions_flag_open, ProfileProps, reconstitute, record_bvn_verified,
  record_nin_verified, record_verification_failed, flag_for_sanctions_review, clear_sanctions_flag,
}
use kudi_ai.Compliance.Profile.Tiers.{
  Step, bvn_verified, nin_verified, verification_failed as failed, flagged, flag_cleared, Reach,
  here, next,
}

abbrev pub tier_after : KycTier → DomainEvent → KycTier
tier_after t (kyc_tier_upgraded _ _ u) = u
tier_after t _ = t

abbrev pub flag_after : Bool → DomainEvent → Bool
flag_after f (kyc_profile_flagged _ _ _) = true
flag_after f (kyc_profile_flag_cleared _ _ _ _) = false
flag_after f _ = f

-- The tier and the flag that a reader of the events arrives at.
abbrev pub announced_tier : KycTier → List DomainEvent → KycTier
announced_tier t [] = t
announced_tier t (e ∷ es) = announced_tier (tier_after t e) es

abbrev pub announced_flag : Bool → List DomainEvent → Bool
announced_flag f [] = f
announced_flag f (e ∷ es) = announced_flag (flag_after f e) es

tier-append_one :
    (t : KycTier) (es : List DomainEvent) (e : DomainEvent)
    → announced_tier t (es ++ e ∷ []) ≡ tier_after (announced_tier t es) e
tier-append_one t [] e = refl
tier-append_one t (d ∷ es) e = tier-append_one (tier_after t d) es e

flag-append_one :
    (f : Bool) (es : List DomainEvent) (e : DomainEvent)
    → announced_flag f (es ++ e ∷ []) ≡ flag_after (announced_flag f es) e
flag-append_one f [] e = refl
flag-append_one f (d ∷ es) e = flag-append_one (flag_after f d) es e

-- A reader who starts from this tier and flag knows the tier and the flag of the profile.
pub record IsAnnounced (t : KycTier) (f : Bool) (p : Profile) : Type 0 where
  pub tier : announced_tier t p.domain_events ≡ p.tier
  pub flag : announced_flag f p.domain_events ≡ is_sanctions_flag_open p

Step-IsAnnounced :
    {t : KycTier} {f : Bool} {p q : Profile} → Step p q → IsAnnounced t f p → IsAnnounced t f q
unfolding record_bvn_verified record_nin_verified record_verification_failed
    flag_for_sanctions_review clear_sanctions_flag
Step-IsAnnounced (bvn_verified now h m e) v = grind (arith, tier-append_one, flag-append_one)
Step-IsAnnounced (nin_verified now h m e) v = grind (arith, tier-append_one, flag-append_one)
Step-IsAnnounced (failed now t r) v = grind (arith, tier-append_one, flag-append_one)
Step-IsAnnounced (flagged now s) v = grind (arith, tier-append_one, flag-append_one)
Step-IsAnnounced (flag_cleared now s r e) v = grind (arith, tier-append_one, flag-append_one)

Reach-IsAnnounced_from :
    {t : KycTier} {f : Bool} {p q : Profile} → IsAnnounced t f p → Reach p q → IsAnnounced t f q
Reach-IsAnnounced_from v here = v
Reach-IsAnnounced_from v (next r s) = Step-IsAnnounced s (Reach-IsAnnounced_from v r)

-- Whatever calls a profile goes through after it was read from its row, of any tier and with a
-- sanctions flag or without: who knows the tier of the row and whether its flag is open, and reads
-- the events of the calls, knows the tier of the profile and whether its flag is open.
pub Reach-IsAnnounced :
    (r : ProfileProps) (q : Profile)
    → Reach (reconstitute r) q
    → IsAnnounced r.tier (is_sanctions_flag_open (reconstitute r)) q
Reach-IsAnnounced r q h =
    Reach-IsAnnounced_from {p = reconstitute r} (record { tier = refl; flag = refl }) h
