-- ===== src/Compliance/Limits.antt =====
-- modules/compliance/domain/policies/kyc-tier-limits.policy.ts, the mapper and the repository of
-- the tier limits, and infrastructure/services/kyc-tier-resolver.service.ts.
use kudi_ai.Common.{String, ℕ, Bool, true, false, Option, none, some, List, ◌==◌, codes}
use kudi_ai.Common.Int.{ℤ}
use kudi_ai.Shared.Enums.{Currency, KycTier, tier_1, tier_2, tier_3}
use kudi_ai.Shared.Errors.{Result, ok, err}
use kudi_ai.Shared.Action.{Action, pure, lift, gets, ◌>>=◌, ◌>>◌}
use kudi_ai.Shared.Money.{Money, from_minor_units, from_decimal_string}
use kudi_ai.Database.{TierLimitRecord, World, query}
use kudi_ai.Database.Tables.{find}
use kudi_ai.Compliance.Profile.{ProfileProps}

pub record TierLimits : Type 0 where
  pub per_transaction_limit : Option Money
  pub daily_transfer_limit : Option Money
  pub max_balance : Option Money

abbrev pub same_tier : KycTier → KycTier → Bool
same_tier tier_1 tier_1 = true
same_tier tier_2 tier_2 = true
same_tier tier_3 tier_3 = true
same_tier _ _ = false

-- Maps the value under an optional that is not null, and throws what that throws.
abbrev pub traverse : {A B : Type 0} → (A → Result B) → Option A → Result (Option B)
traverse f none = ok none
traverse f (some a) = elim (f a) [ ok b ↦ ok (some b) | err e ↦ err e ]

-- `toMoneyOrNull`
unfoldable pub to_money_or_null : Option (List ℕ) → Currency → Result (Option Money)
unfolding from_decimal_string
to_money_or_null major_units currency = traverse (λ s. from_decimal_string s currency) major_units

-- The rows of DEFAULT_LIMITS_MAJOR_UNITS_NGN.
record MajorUnits : Type 0 where
  per_transaction : Option (List ℕ)
  daily : Option (List ℕ)
  max_balance : Option (List ℕ)

default_limits_major_units_ngn : KycTier → MajorUnits
default_limits_major_units_ngn tier_1 = record {
  per_transaction = some (codes "50000");
  daily = some (codes "50000");
  max_balance = some (codes "300000");
}
default_limits_major_units_ngn tier_2 = record {
  per_transaction = some (codes "200000");
  daily = some (codes "200000");
  max_balance = some (codes "500000");
}
default_limits_major_units_ngn tier_3 = record {
  per_transaction = some (codes "5000000");
  daily = some (codes "5000000");
  max_balance = none;
}

limits_of :
    Result (Option Money) → Result (Option Money) → Result (Option Money) → Result TierLimits
limits_of (ok p) (ok d) (ok m) =
    ok (record { per_transaction_limit = p; daily_transfer_limit = d; max_balance = m })
limits_of (ok p) (ok d) (err e) = err e
limits_of (ok p) (err e) _ = err e
limits_of (err e) _ _ = err e

-- `getDefaultKycTierLimits`
unfoldable pub get_default_kyc_tier_limits : KycTier → Currency → Result TierLimits
unfolding default_limits_major_units_ngn limits_of to_money_or_null
get_default_kyc_tier_limits tier currency =
    let config = default_limits_major_units_ngn tier in
    limits_of (to_money_or_null config.per_transaction currency)
      (to_money_or_null config.daily currency) (to_money_or_null config.max_balance currency)

-- `KycTierLimitMapper.toDomain`: the currency is that of the row.
unfoldable pub to_domain : TierLimitRecord → Result TierLimits
unfolding from_minor_units limits_of
to_domain r =
    let money = λ (v : ℤ). from_minor_units v r.currency in
    limits_of (traverse money r.per_transaction_limit) (traverse money r.daily_transfer_limit)
      (traverse money r.max_balance)

abbrev pub limits_from : KycTier → Currency → Option TierLimitRecord → Result TierLimits
limits_from tier currency (some r) = to_domain r
limits_from tier currency none = get_default_kyc_tier_limits tier currency

-- `PrismaKycTierLimitRepository.findByTier`
unfoldable pub find_by_tier : KycTier → Currency → Action World TierLimits
unfolding query
find_by_tier tier currency = do
  query
  row ← gets (λ w. find (λ r. same_tier r.tier tier) w.db.kyc_tier_limits)
  lift (limits_from tier currency row)

abbrev pub tier_or_default : Option ProfileProps → KycTier
tier_or_default none = tier_1
tier_or_default (some p) = p.tier

-- `KycTierResolverService.resolveTier`; the mapper of profiles copies every field.
unfoldable pub resolve_tier : String → Action World KycTier
unfolding query
resolve_tier user_id = do
  query
  row ← gets (λ w. find (λ p. p.user_id == user_id) w.db.kyc_profiles)
  pure (tier_or_default row)
