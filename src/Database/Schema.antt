-- ===== src/Database/Schema.antt =====
-- The tables of infrastructure/prisma/schema.prisma for idempotency, identity, and the audit log and
-- the watchlist of compliance.
use kudi_ai.Common.{String, ℕ, Option}
use kudi_ai.Shared.Enums.{KycTier, VerificationType}
use kudi_ai.Shared.Users.{UserRole, UserStatus}

-- enum IdempotencyKeyStatus
pub data IdempotencyKeyStatus : Type 0 where
  in_progress completed : IdempotencyKeyStatus

-- model IdempotencyKey
pub record IdempotencyKeyRecord : Type 0 where
  pub id : String
  pub user_id : String
  pub scope : String
  pub key : String
  pub status : IdempotencyKeyStatus
  pub resource_id : Option String
  pub created_at : ℕ
  pub updated_at : ℕ

-- model User
pub record UserRecord : Type 0 where
  pub id : String
  pub email : String
  pub phone_number : String
  pub password_hash : String
  pub first_name : String
  pub last_name : String
  pub role : UserRole
  pub status : UserStatus
  pub failed_login_attempts : ℕ
  pub locked_until : Option ℕ
  pub last_login_at : Option ℕ
  pub created_at : ℕ
  pub updated_at : ℕ

-- model RefreshToken
pub record RefreshTokenRecord : Type 0 where
  pub id : String
  pub user_id : String
  pub token_hash : String
  pub family : String
  pub expires_at : ℕ
  pub revoked_at : Option ℕ
  pub replaced_by_token_id : Option String
  pub ip_address : Option String
  pub user_agent : Option String
  pub created_at : ℕ

-- enum KycAuditEventType, enum KycAuditOutcome
pub data KycAuditEventType : Type 0 where
  verification_attempt tier_change sanctions_screening : KycAuditEventType

pub data KycAuditOutcome : Type 0 where
  passed failed : KycAuditOutcome

-- model KycAuditLogEntry
pub record AuditLogEntry : Type 0 where
  pub id : String
  pub user_id : String
  pub kyc_profile_id : String
  pub event_type : KycAuditEventType
  pub verification_type : Option VerificationType
  pub outcome : Option KycAuditOutcome
  pub failure_reason : Option String
  pub previous_tier : Option KycTier
  pub new_tier : Option KycTier
  pub performed_by_user_id : Option String
  pub notes : Option String
  pub created_at : ℕ

-- model SanctionsListEntry
pub record SanctionsListEntry : Type 0 where
  pub id : String
  pub source : String
  pub external_id : String
  pub full_name : String
  pub program : Option String
  pub remarks : Option String
