-- ===== src/Shared/Users.antt =====
-- modules/identity/domain/enums/user-role.enum.ts and user-status.enum.ts, with the string value of
-- each.
use kudi_ai.Common.{String}

pub data UserRole : Type 0 where
  customer support_agent compliance_officer admin super_admin : UserRole

pub data UserStatus : Type 0 where
  pending_verification active suspended locked deactivated : UserStatus

abbrev pub user_role_name : UserRole → String
user_role_name customer = "CUSTOMER"
user_role_name support_agent = "SUPPORT_AGENT"
user_role_name compliance_officer = "COMPLIANCE_OFFICER"
user_role_name admin = "ADMIN"
user_role_name super_admin = "SUPER_ADMIN"

abbrev pub user_status_name : UserStatus → String
user_status_name pending_verification = "PENDING_VERIFICATION"
user_status_name active = "ACTIVE"
user_status_name suspended = "SUSPENDED"
user_status_name locked = "LOCKED"
user_status_name deactivated = "DEACTIVATED"
