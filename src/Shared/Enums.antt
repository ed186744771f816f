-- ===== src/Shared/Enums.antt =====
-- The enumerations of shared/enums, and those of the modules that the shared errors and events
-- mention, with `===` on each and the string value of each.
use kudi_ai.Common.{Bool, true, false, String, ◌≡◌, refl, arith}

-- shared/enums/currency.enum.ts
pub data Currency : Type 0 where
  ngn usd gbp eur : Currency

-- shared/enums/account-status.enum.ts
pub data AccountStatus : Type 0 where
  active dormant frozen closed pending_verification : AccountStatus

-- shared/enums/transaction-status.enum.ts
pub data TransactionStatus : Type 0 where
  pending processing successful failed reversed cancelled : TransactionStatus

-- modules/accounts/domain/enums/account-type.enum.ts
pub data AccountType : Type 0 where
  wallet savings current : AccountType

-- modules/transfers/domain/enums/transfer-type.enum.ts
pub data TransferType : Type 0 where
  internal external : TransferType

-- modules/compliance/domain/enums/kyc-tier.enum.ts
pub data KycTier : Type 0 where
  tier_1 tier_2 tier_3 : KycTier

-- modules/compliance/domain/enums/verification-type.enum.ts
pub data VerificationType : Type 0 where
  bvn nin : VerificationType

-- `===` on currencies.
abbrev pub same_currency : Currency → Currency → Bool
same_currency ngn ngn = true
same_currency usd usd = true
same_currency gbp gbp = true
same_currency eur eur = true
same_currency _ _ = false

abbrev pub is_active : AccountStatus → Bool
is_active active = true
is_active _ = false

-- `TERMINAL_STATUSES.has(status)`
abbrev pub is_terminal : TransactionStatus → Bool
is_terminal successful = true
is_terminal failed = true
is_terminal reversed = true
is_terminal cancelled = true
is_terminal _ = false

abbrev pub currency_name : Currency → String
currency_name ngn = "NGN"
currency_name usd = "USD"
currency_name gbp = "GBP"
currency_name eur = "EUR"

abbrev pub account_status_name : AccountStatus → String
account_status_name active = "ACTIVE"
account_status_name dormant = "DORMANT"
account_status_name frozen = "FROZEN"
account_status_name closed = "CLOSED"
account_status_name pending_verification = "PENDING_VERIFICATION"

abbrev pub transaction_status_name : TransactionStatus → String
transaction_status_name pending = "PENDING"
transaction_status_name processing = "PROCESSING"
transaction_status_name successful = "SUCCESSFUL"
transaction_status_name failed = "FAILED"
transaction_status_name reversed = "REVERSED"
transaction_status_name cancelled = "CANCELLED"

abbrev pub kyc_tier_name : KycTier → String
kyc_tier_name tier_1 = "TIER_1"
kyc_tier_name tier_2 = "TIER_2"
kyc_tier_name tier_3 = "TIER_3"

abbrev pub verification_type_name : VerificationType → String
verification_type_name bvn = "BVN"
verification_type_name nin = "NIN"

pub same_currency_refl : (c : Currency) → same_currency c c ≡ true
same_currency_refl ngn = refl
same_currency_refl _ = refl

pub eq_of_same_currency : (c d : Currency) → same_currency c d ≡ true → c ≡ d
eq_of_same_currency c d h = ground arith
