-- ===== src/Shared/Events.antt =====
-- The domain events of accounts, transfers, compliance and identity. An event carries the arguments of its
-- class's constructor; a minor-unit amount, which the source prints by `toString()`, is the
-- integer itself. `occurredAt` is left out: nothing modelled here reads it.
use kudi_ai.Common.{String, ℕ, Option}
use kudi_ai.Common.Int.{ℤ}
use kudi_ai.Shared.Users.{UserRole}
use kudi_ai.Shared.Enums.{Currency, AccountType, TransferType, KycTier, VerificationType}

pub data DomainEvent : Type 0 where
  account_opened :
      (aggregate_id user_id account_number : String) → Currency → AccountType → DomainEvent
  account_activated : (aggregate_id : String) → DomainEvent
  account_credited :
      (aggregate_id : String) (amount_minor_units : ℤ)
      → Currency
      → (reference : String) (new_balance_minor_units : ℤ) → DomainEvent
  account_debited :
      (aggregate_id : String) (amount_minor_units : ℤ)
      → Currency
      → (reference : String) (new_balance_minor_units : ℤ) → DomainEvent
  account_frozen : (aggregate_id reason : String) → DomainEvent
  account_unfrozen : (aggregate_id : String) → DomainEvent
  account_closed : (aggregate_id : String) → DomainEvent
  transfer_initiated :
      (aggregate_id reference : String)
      → TransferType
      → (source_account_id : String) (amount_minor_units : ℤ) → Currency
      → DomainEvent
  transfer_completed : (aggregate_id reference : String) → DomainEvent
  transfer_failed : (aggregate_id reference reason : String) → DomainEvent
  transfer_reversed : (aggregate_id reference : String) → DomainEvent
  kyc_profile_created : (aggregate_id user_id : String) → DomainEvent
  verification_passed : (aggregate_id user_id : String) → VerificationType → DomainEvent
  verification_failed :
      (aggregate_id user_id : String) → VerificationType → (reason : String) → DomainEvent
  kyc_tier_upgraded : (aggregate_id user_id : String) → KycTier → DomainEvent
  kyc_profile_flagged : (aggregate_id user_id match_summary : String) → DomainEvent
  kyc_profile_flag_cleared : (aggregate_id user_id staff_user_id reason : String) → DomainEvent
  -- modules/identity; `role` and the instants are the values themselves
  user_registered : (aggregate_id email : String) → UserRole → DomainEvent
  user_logged_in : (aggregate_id : String) (ip_address user_agent : Option String) → DomainEvent
  user_login_failed :
      (aggregate_id : String) (failed_attempt_count : ℕ) (ip_address : Option String) → DomainEvent
  user_account_locked : (aggregate_id : String) (unlocks_at : ℕ) → DomainEvent
  password_changed : (aggregate_id : String) → DomainEvent
