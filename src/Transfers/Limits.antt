-- ===== src/Transfers/Limits.antt =====
-- modules/transfers/infrastructure/services/kyc-transfer-limit-checker.service.ts. A clock before
-- the first day after the epoch, where the source's window starts before the epoch, gives 0.
pub mod Frame
use kudi_ai.Common.{
  ◌≡◌, ap, sym, ◌∙◌, arith, String, ℕ, ◌-◌, ◌*◌, ◌==◌, not, Option, none, some, inl, inr,
}
use kudi_ai.Common.Int.{ℤ, ◌+ℤ◌, ◌≤ℤ◌}
use kudi_ai.Shared.Enums.{Currency, KycTier}
use kudi_ai.Shared.Errors.{
  Result, ok, per_transaction, daily, transfer_limit_exceeded, TransferLimitType, Result-cases,
}
use kudi_ai.Shared.Action.{Action, pure, lift, gets, throw_if, ◌>>=◌, ◌>>◌}
use kudi_ai.Shared.Money.{Money, add, is_greater_than_or_equal_to, from_minor_units}
use kudi_ai.Database.{Db, World, query-frame}
use kudi_ai.Shared.Money.Laws.{add-eq_ok}
use kudi_ai.Database.Tables.{find}
use kudi_ai.Compliance.Limits.{
  TierLimits, find_by_tier, resolve_tier, tier_or_default, limits_from, same_tier,
}
use kudi_ai.Transfers.Repository.{sum_source_amount_since, sum_since}

-- ROLLING_WINDOW_MS
abbrev pub rolling_window_ms : ℕ
rolling_window_ms = 24 * 60 * 60 * 1000

-- `limits.perTransactionLimit && !….isGreaterThanOrEqualTo(amount)`
abbrev pub check_limit :
    TransferLimitType → KycTier → Option Money → Money → Action World (Unit {0})
check_limit type tier none amount = pure tt
check_limit type tier (some limit) amount = do
  within ← lift (is_greater_than_or_equal_to limit amount)
  throw_if (not within) (transfer_limit_exceeded type tier)

-- `if (limits.dailyTransferLimit) { … }`
unfoldable pub check_daily :
    KycTier → Option Money → (account : String) → Money → Action World (Unit {0})
check_daily tier none account amount = pure tt
check_daily tier (some limit) account amount = do
  now ← gets (λ w. w.now)
  spent ← sum_source_amount_since account (now - rolling_window_ms) amount.currency
  total ← lift (add spent amount)
  check_limit daily tier (some limit) total

-- `assertWithinLimits`
unfoldable pub assert_within_limits :
    (user_id source_account_id : String) → Money → Action World (Unit {0})
assert_within_limits user_id source_account_id amount = do
  tier ← resolve_tier user_id
  limits ← find_by_tier tier amount.currency
  check_limit per_transaction tier limits.per_transaction_limit amount
  check_daily tier limits.daily_transfer_limit source_account_id amount

-- An amount within a limit of its currency, where there is one.
abbrev pub Within : Option Money → Currency → ℤ → Type 0
Within none c x = Unit
Within (some l) c x = (l.currency ≡ c) × (x ≤ℤ l.minor_units)

check_limit-eq_ok :
    (type : TransferLimitType) (tier : KycTier) (l : Option Money) (m : Money) (w : World)
    {w' : World}
    → check_limit type tier l m w ≡ (ok tt, w')
    → Within l m.currency m.minor_units × (w' ≡ w)
unfolding is_greater_than_or_equal_to
check_limit-eq_ok type tier none m w h = (tt, ground arith)
check_limit-eq_ok type tier (some l) m w h = ground arith

-- What the database says of a user and an account: tier, limits, and what left the account in the
-- last day.
abbrev pub tier_of : String → World → KycTier
tier_of user w = tier_or_default (find (λ p. p.user_id == user) w.db.kyc_profiles)

abbrev pub spent : String → World → ℤ
spent account w = sum_since account (w.now - rolling_window_ms) w.db.transfers

abbrev pub limits_for : Currency → Db → KycTier → Result TierLimits
limits_for c db t = limits_from t c (find (λ r. same_tier r.tier t) db.kyc_tier_limits)

-- An amount that the tier of the user allows to leave the account.
pub record IsAllowed (user account : String) (m : Money) (w : World) (l : TierLimits) : Type 0 where
  pub limits : limits_for m.currency w.db (tier_of user w) ≡ ok l
  pub once : Within l.per_transaction_limit m.currency m.minor_units
  pub in_a_day : Within l.daily_transfer_limit m.currency (spent account w +ℤ m.minor_units)

resolve_tier-eq_ok :
    (user : String) (w : World) (t : KycTier) {w' : World}
    → resolve_tier user w ≡ (ok t, w')
    → (t ≡ tier_of user w) × (w'.db ≡ w.db) × (w'.now ≡ w.now)
unfolding resolve_tier
resolve_tier-eq_ok user w t h = ground (arith, query-frame w)

find_by_tier-eq_ok :
    (t : KycTier) (c : Currency) (w : World) (l : TierLimits) {w' : World}
    → find_by_tier t c w ≡ (ok l, w')
    → (limits_for c w.db t ≡ ok l) × (w'.db ≡ w.db) × (w'.now ≡ w.now)
unfolding find_by_tier
find_by_tier-eq_ok t c w l h = ground (arith, query-frame w)

sum_source_amount_since-eq_ok :
    (account : String) (since : ℕ) (c : Currency) (w : World) (m : Money) {w' : World}
    → sum_source_amount_since account since c w ≡ (ok m, w')
    → (m.minor_units ≡ sum_since account since w.db.transfers) × (m.currency ≡ c) × (w'.db ≡ w.db)
unfolding sum_source_amount_since from_minor_units
sum_source_amount_since-eq_ok account since c w m h = ground (arith, query-frame w)

check_daily-eq_ok :
    (t : KycTier) (l : Option Money) (account : String) (m : Money) (w : World) {w' : World}
    → check_daily t l account m w ≡ (ok tt, w')
    → Within l m.currency (spent account w +ℤ m.minor_units) × (w'.db ≡ w.db)
unfolding check_daily
check_daily-eq_ok t none account m w h = (tt, ground arith)
check_daily-eq_ok t (some l) account m w {w'} h =
    let since = w.now - rolling_window_ms in
    let w₁ = (sum_source_amount_since account since m.currency w).1 in
    elim (Result-cases (sum_source_amount_since account since m.currency w).0) [
      | inr (x, e) ↦ absurd (ground arith)
      | inl (s, e) ↦ elim (Result-cases (add s m)) [
        | inr (x, f) ↦ absurd (ground arith)
        | inl (total, f) ↦
            let (a, b, c) =
              sum_source_amount_since-eq_ok account since m.currency w s {w' = w₁} (ground arith) in
            let (_, d, g) = add-eq_ok s m total f in
            let (within, same) =
              check_limit-eq_ok daily t (some l) total w₁ {w' = w'} (ground arith) in
            let sum : total.minor_units ≡ spent account w +ℤ m.minor_units =
              g ∙ ap (λ x. x +ℤ m.minor_units) a in
            ((within.0 ∙ d ∙ b, rw (← sum) within.1), ap (λ v. v.db) same ∙ c)
      ]
    ]

-- Whatever calls of the client fail: an amount that passes `assertWithinLimits` is within the
-- limit of one transfer, and with all that left the account in the last day within the limit of a
-- day, by the limits of the user's tier, and the database is the same.
pub assert_within_limits-IsAllowed :
    (user account : String) (m : Money) (w : World) {w' : World}
    → assert_within_limits user account m w ≡ (ok tt, w')
    → (l : TierLimits) × IsAllowed user account m w l × (w'.db ≡ w.db)
unfolding assert_within_limits
assert_within_limits-IsAllowed user account m w {w'} h =
    let w₁ = (resolve_tier user w).1 in
    elim (Result-cases (resolve_tier user w).0) [
      | inr (x, e) ↦ absurd (ground arith)
      | inl (t, e) ↦
          let (tier, db₁, now₁) = resolve_tier-eq_ok user w t {w' = w₁} (ground arith) in
          let w₂ = (find_by_tier t m.currency w₁).1 in
          elim (Result-cases (find_by_tier t m.currency w₁).0) [
            | inr (x, f) ↦ absurd (ground arith)
            | inl (l, f) ↦
                let (limits, db₂, now₂) =
                  find_by_tier-eq_ok t m.currency w₁ l {w' = w₂} (ground arith) in
                let w₃ = (check_limit per_transaction t l.per_transaction_limit m w₂).1 in
                let (once, same) =
                  check_limit-eq_ok per_transaction t l.per_transaction_limit m w₂ {w' = w₃}
                    (ground arith) in
                let (day, db₃) =
                  check_daily-eq_ok t l.daily_transfer_limit account m w₃ {w' = w'}
                    (ground arith) in
                let same_spent : spent account w₃ ≡ spent account w =
                  ap (spent account) same
                  ∙ ap (λ b. sum_since account (w₂.now - rolling_window_ms) b.transfers) (db₂ ∙ db₁)
                  ∙ ap (λ n. sum_since account (n - rolling_window_ms) w.db.transfers)
                      (now₂ ∙ now₁) in
                (
                  l,
                  record {
                    limits =
                        ap (limits_for m.currency w.db) (sym tier)
                        ∙ ap (λ b. limits_for m.currency b t) (sym db₁)
                        ∙ limits;
                    once = once;
                    in_a_day = rw (← same_spent) day;
                  },
                  db₃ ∙ ap (λ v. v.db) same ∙ db₂ ∙ db₁,
                )
          ]
    ]
