-- ===== src/Compliance/Profile/Tiers.antt =====
-- The tier of a profile against the verifications that it has passed.
use kudi_ai.Common.{◌≡◌, String, ℕ, arith, true, false}
use kudi_ai.Shared.Enums.{tier_1, tier_2, tier_3, VerificationType}
use kudi_ai.Shared.Errors.{ok}
use kudi_ai.Compliance.Profile.{
  Profile, is_set, create_default, record_bvn_verified, record_nin_verified,
  record_verification_failed, flag_for_sanctions_review, clear_sanctions_flag,
}

pub data Step : Profile → Profile → Type 0 where
  bvn_verified :
      {p q : Profile} (now : ℕ) (hash masked : String)
      → record_bvn_verified now hash masked p ≡ ok q
      → Step p q
  nin_verified :
      {p q : Profile} (now : ℕ) (hash masked : String)
      → record_nin_verified now hash masked p ≡ ok q
      → Step p q
  verification_failed :
      {p : Profile} (now : ℕ) (type : VerificationType) (reason : String)
      → Step p (record_verification_failed now type reason p)
  flagged :
      {p : Profile} (now : ℕ) (match_summary : String)
      → Step p (flag_for_sanctions_review now match_summary p)
  flag_cleared :
      {p q : Profile} (now : ℕ) (staff_user_id reason : String)
      → clear_sanctions_flag now staff_user_id reason p ≡ ok q
      → Step p q

pub data Reach (p : Profile) : Profile → Type 0 where
  here : Reach p p
  next : {q r : Profile} → Reach p q → Step q r → Reach p r

-- The tier says no more than what was verified: tier 1 exactly without a BVN, tier 3 only with
-- a NIN too.
pub record IsValid (p : Profile) : Type 0 where
  pub tier_1_iff :
      (p.tier ≡ tier_1 → is_set p.bvn_verified_at ≡ false)
      × (is_set p.bvn_verified_at ≡ false → p.tier ≡ tier_1)
  pub tier_3_nin : p.tier ≡ tier_3 → is_set p.nin_verified_at ≡ true

pub create_default-IsValid :
    (id : String) (now : ℕ) (user : String) → IsValid (create_default id now user)
unfolding create_default
create_default-IsValid id now user = ground arith

pub Step-IsValid : {p q : Profile} → Step p q → IsValid p → IsValid q
unfolding record_bvn_verified record_nin_verified record_verification_failed
    flag_for_sanctions_review clear_sanctions_flag
Step-IsValid {p} (bvn_verified now h m e) v = ground arith
Step-IsValid {p} (nin_verified now h m e) v = ground arith
Step-IsValid {p} (verification_failed now t r) v = ground arith
Step-IsValid {p} (flagged now s) v = ground arith
Step-IsValid {p} (flag_cleared now s r e) v = ground arith

-- From a profile whose tier is 1 exactly without a BVN, and 3 only with a NIN, any calls lead to
-- such a profile.
pub Reach-IsValid : {p q : Profile} → IsValid p → Reach p q → IsValid q
Reach-IsValid v here = v
Reach-IsValid v (next r s) = Step-IsValid s (Reach-IsValid v r)

-- Both verifications passed, and still tier 2.
record IsStuck (p : Profile) : Type 0 where
  tier : p.tier ≡ tier_2
  bvn : is_set p.bvn_verified_at ≡ true
  nin : is_set p.nin_verified_at ≡ true

Step-IsStuck : {p q : Profile} → Step p q → IsStuck p → IsStuck q
unfolding record_bvn_verified record_nin_verified record_verification_failed
    flag_for_sanctions_review clear_sanctions_flag
Step-IsStuck {p} (bvn_verified now h m e) v = ground arith
Step-IsStuck {p} (nin_verified now h m e) v = ground arith
Step-IsStuck {p} (verification_failed now t r) v = ground arith
Step-IsStuck {p} (flagged now s) v = ground arith
Step-IsStuck {p} (flag_cleared now s r e) v = ground arith

Reach-IsStuck : {p q : Profile} → IsStuck p → Reach p q → IsStuck q
Reach-IsStuck v here = v
Reach-IsStuck v (next r s) = Step-IsStuck s (Reach-IsStuck v r)

nin_then_bvn-IsStuck :
    (now now' : ℕ) (hash masked hash' masked' : String) (p q r : Profile)
    → p.tier ≡ tier_1
    → record_nin_verified now hash masked p ≡ ok q
    → record_bvn_verified now' hash' masked' q ≡ ok r
    → IsStuck r
unfolding record_nin_verified record_bvn_verified
nin_then_bvn-IsStuck now now' hash masked hash' masked' p q r pt e e' = ground arith

-- A tier 1 profile whose NIN is verified before its BVN has both verifications and tier 2, and no
-- calls ever bring it to another tier.
pub nin_then_bvn_stays_tier_2 :
    (now now' : ℕ) (hash masked hash' masked' : String) (p q : Profile) {r s : Profile}
    → p.tier ≡ tier_1
    → record_nin_verified now hash masked p ≡ ok q
    → record_bvn_verified now' hash' masked' q ≡ ok r
    → Reach r s
    → (s.tier ≡ tier_2) × (is_set s.bvn_verified_at ≡ true) × (is_set s.nin_verified_at ≡ true)
nin_then_bvn_stays_tier_2 now now' hash masked hash' masked' p q {r} pt e e' reach =
    let v =
      Reach-IsStuck (nin_then_bvn-IsStuck now now' hash masked hash' masked' p q r pt e e') reach in
    (v.tier, v.bvn, v.nin)

-- A tier 1 profile whose BVN is verified before its NIN ends at tier 3.
pub bvn_then_nin_reaches_tier_3 :
    (now now' : ℕ) (hash masked hash' masked' : String) (p q r : Profile)
    → p.tier ≡ tier_1
    → record_bvn_verified now hash masked p ≡ ok q
    → record_nin_verified now' hash' masked' q ≡ ok r
    → r.tier ≡ tier_3
unfolding record_nin_verified record_bvn_verified
bvn_then_nin_reaches_tier_3 now now' hash masked hash' masked' p q r pt e e' = ground arith
