-- ===== src/Shared/Errors.antt =====
-- The exceptions that domain and application code throws, with the `message` of
-- each (shared/exceptions, the exceptions folders of accounts, transfers,
-- compliance and identity, shared/ledger, shared/idempotency), and the result of code that may throw.
-- `failure` is an error thrown by code outside the repository: the database client or a provider.
use kudi_ai.Common.{◌≡◌, refl, ◌⊎◌, inl, inr, ℕ, Bool, true, false}
use Prim.Native.String.{String, ◌++◌}
use kudi_ai.Shared.Users.{UserStatus, user_status_name}
use kudi_ai.Shared.Time.{to_iso_string}
use kudi_ai.Shared.Enums.{
  Currency, AccountStatus, TransactionStatus, KycTier, VerificationType, currency_name,
  account_status_name, transaction_status_name, kyc_tier_name, verification_type_name,
}

-- The literal type TransferLimitType: 'per-transaction' | 'daily'.
pub data TransferLimitType : Type 0 where
  per_transaction daily : TransferLimitType

pub data Error : Type 0 where
  -- new DomainException(message, code)
  domain_exception : (message code : String) → Error
  insufficient_funds : (account_id : String) → Error
  account_not_active : (account_id : String) → AccountStatus → Error
  account_closure_not_allowed : (account_id reason : String) → Error
  account_not_found : (identifier : String) → Error
  currency_mismatch : (account_currency amount_currency : Currency) → Error
  max_balance_exceeded : KycTier → Error
  invalid_transfer_state :
      (transfer_id : String) → TransactionStatus → (attempted_action : String) → Error
  payout_provider_error : (provider_message : String) → Error
  self_transfer_not_allowed : Error
  transfer_limit_exceeded : TransferLimitType → KycTier → Error
  transfer_not_found : (identifier : String) → Error
  unauthorized_transfer : Error
  unbalanced_ledger_posting : (reference : String) → Error
  duplicate_request_in_progress : Error
  verification_already_passed : VerificationType → Error
  sanctions_flag_not_open : (user_id : String) → Error
  identity_mismatch : Error
  kyc_profile_not_found : (user_id : String) → Error
  account_locked : (unlocks_at : ℕ) → Error
  invalid_credentials : Error
  invalid_refresh_token : Error
  user_already_exists : (email : String) → Error
  user_not_active : UserStatus → Error
  failure : (message : String) → Error

abbrev pub limit_type_name : TransferLimitType → String
limit_type_name per_transaction = "per-transaction"
limit_type_name daily = "daily"

-- `error.message`
pub message : Error → String
message (domain_exception m _) = m
message (insufficient_funds i) = "Account " ++ i ++ " has insufficient funds"
message (account_not_active i s) =
    "Account " ++ i ++ " is not active (current status: " ++ account_status_name s ++ ")"
message (account_closure_not_allowed i r) = "Account " ++ i ++ " cannot be closed: " ++ r
message (account_not_found i) = "Account not found: " ++ i
message (currency_mismatch a b) =
    "Currency mismatch: account is " ++ currency_name a ++ ", amount is " ++ currency_name b
message (max_balance_exceeded t) =
    "This credit would exceed the maximum balance allowed for your current verification level ("
    ++ kyc_tier_name t
    ++ "). Upgrade your verification to hold more."
message (invalid_transfer_state i s a) =
    "Cannot " ++ a ++ " transfer " ++ i ++ ": it is already " ++ transaction_status_name s
message (payout_provider_error m) = "Payout provider rejected the transfer: " ++ m
message self_transfer_not_allowed = "Source and destination accounts cannot be the same"
message (transfer_limit_exceeded l t) =
    "This transfer exceeds your "
    ++ limit_type_name l
    ++ " limit for your current verification level ("
    ++ kyc_tier_name t
    ++ "). Upgrade your verification to send more."
message (transfer_not_found i) = "Transfer not found: " ++ i
message unauthorized_transfer = "You may only initiate transfers from accounts you own"
message (unbalanced_ledger_posting r) =
    "Ledger posting for reference \"" ++ r
    ++ "\" does not balance — debits must equal credits per currency"
message duplicate_request_in_progress =
    "A request with this idempotency key is already being processed"
message (verification_already_passed t) =
    verification_type_name t ++ " verification has already been completed for this user"
message (sanctions_flag_not_open i) = "User " ++ i ++ " has no open sanctions flag to clear"
message identity_mismatch =
    "The identity details returned by the verification provider do not match your registered name"
message (kyc_profile_not_found i) = "KYC profile not found for user: " ++ i
message (account_locked t) =
    "Account is locked due to repeated failed login attempts until " ++ to_iso_string t
message invalid_credentials = "Invalid email or password"
message invalid_refresh_token = "Refresh token is invalid, expired, or has already been used"
message (user_already_exists e) = "A user with email " ++ e ++ " already exists"
message (user_not_active s) =
    "User account is not active (current status: " ++ user_status_name s ++ ")"
message (failure m) = m

pub data Result (A : Type 0) : Type 0 where
  ok : A → Result A
  err : Error → Result A

pub Result-cases :
    {A : Type 0} (r : Result A) → ((a : A) × (r ≡ ok a)) ⊎ ((e : Error) × (r ≡ err e))
Result-cases (ok a) = inl (a, refl)
Result-cases (err e) = inr (e, refl)

infixl 5 ◌>>=◌ ◌>>◌
abbrev pub ◌>>=◌ : {A B : Type 0} → Result A → (A → Result B) → Result B
ok a >>= f = f a
err e >>= f = err e

abbrev pub ◌>>◌ : {B : Type 0} → Result (Unit {0}) → Result B → Result B
m >> k = m >>= λ _. k

-- `if (c) throw e;`
abbrev pub throw_if : Bool → Error → Result (Unit {0})
throw_if true e = err e
throw_if false e = ok tt

-- The value of a result that has one.
abbrev pub or_else : {A : Type 0} → A → Result A → A
or_else a (ok b) = b
or_else a (err _) = a
