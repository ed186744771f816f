-- ===== src/Transfers/Limits/Frame.antt =====
-- The database and the clock under the check of the limits.
use kudi_ai.Common.{◌≡◌, refl, ◌∙◌, arith, String, ℕ, ◌-◌, Option, none, some, inl, inr}
use kudi_ai.Shared.Enums.{Currency, KycTier}
use kudi_ai.Shared.Errors.{per_transaction, daily, TransferLimitType, Result-cases}
use kudi_ai.Shared.Money.{Money, add}
use kudi_ai.Database.{World, query-frame}
use kudi_ai.Compliance.Limits.{TierLimits, find_by_tier, resolve_tier}
use kudi_ai.Transfers.Repository.{sum_source_amount_since}
use kudi_ai.Transfers.Limits.{
  rolling_window_ms, check_limit, check_daily, assert_within_limits, IsAllowed,
}

abbrev pub Kept : World → World → Type 0
Kept v w = (w.db ≡ v.db) × (w.now ≡ v.now)

check_limit-Kept :
    (type : TransferLimitType) (tier : KycTier) (l : Option Money) (m : Money) (w : World)
    → Kept w (check_limit type tier l m w).1
check_limit-Kept type tier none m w = (refl, refl)
check_limit-Kept type tier (some l) m w = ground arith

resolve_tier-Kept : (user : String) (w : World) → Kept w (resolve_tier user w).1
unfolding resolve_tier
resolve_tier-Kept user w = ground (arith, query-frame w)

find_by_tier-Kept : (t : KycTier) (c : Currency) (w : World) → Kept w (find_by_tier t c w).1
unfolding find_by_tier
find_by_tier-Kept t c w = ground (arith, query-frame w)

sum_source_amount_since-Kept :
    (account : String) (since : ℕ) (c : Currency) (w : World)
    → Kept w (sum_source_amount_since account since c w).1
unfolding sum_source_amount_since
sum_source_amount_since-Kept account since c w = ground (arith, query-frame w)

check_daily-Kept :
    (t : KycTier) (l : Option Money) (account : String) (m : Money) (w : World)
    → Kept w (check_daily t l account m w).1
unfolding check_daily
check_daily-Kept t none account m w = (refl, refl)
check_daily-Kept t (some l) account m w =
    let since = w.now - rolling_window_ms in
    let w₁ = (sum_source_amount_since account since m.currency w).1 in
    let same = sum_source_amount_since-Kept account since m.currency w in
    elim (Result-cases (sum_source_amount_since account since m.currency w).0) [
      | inr (x, e) ↦ ground arith
      | inl (s, e) ↦ elim (Result-cases (add s m)) [
        | inr (x, f) ↦ ground arith
        | inl (total, f) ↦ ground (arith, check_limit-Kept daily t (some l) total w₁)
      ]
    ]

pub assert_within_limits-Kept :
    (user account : String) (m : Money) (w : World)
    → Kept w (assert_within_limits user account m w).1
unfolding assert_within_limits
assert_within_limits-Kept user account m w =
    let w₁ = (resolve_tier user w).1 in
    elim (Result-cases (resolve_tier user w).0) [
      | inr (x, e) ↦ ground (arith, resolve_tier-Kept user w)
      | inl (t, e) ↦
          let w₂ = (find_by_tier t m.currency w₁).1 in
          elim (Result-cases (find_by_tier t m.currency w₁).0) [
            | inr (x, f) ↦
                ground (arith, resolve_tier-Kept user w, find_by_tier-Kept t m.currency w₁)
            | inl (l, f) ↦
                let w₃ = (check_limit per_transaction t l.per_transaction_limit m w₂).1 in
                let (db₃, now₃) = check_limit-Kept per_transaction t l.per_transaction_limit m w₂ in
                let (db₂, now₂) = find_by_tier-Kept t m.currency w₁ in
                let (db₁, now₁) = resolve_tier-Kept user w in
                let same : w₃.db ≡ w.db = db₃ ∙ db₂ ∙ db₁ in
                let same_now : w₃.now ≡ w.now = now₃ ∙ now₂ ∙ now₁ in
                elim (Result-cases (check_limit per_transaction t l.per_transaction_limit m w₂).0) [
                  | inr (x, g) ↦ ground arith
                  | inl (_, g) ↦
                      ground (arith, check_daily-Kept t l.daily_transfer_limit account m w₃)
                ]
          ]
    ]

-- What the limits allow depends on the database and the clock alone.
pub IsAllowed-of_Kept :
    (user account : String) (m : Money) (l : TierLimits) (w v : World)
    → Kept w v
    → IsAllowed user account m v l
    → IsAllowed user account m w l
IsAllowed-of_Kept user account m l w v (db, now) h = record {
  limits = rw (← db) h.limits;
  once = h.once;
  in_a_day = rw (← db, ← now) h.in_a_day;
}
