-- ===== src/Compliance.antt =====
-- modules/compliance: the verification of customers, their limits, the audit log and the screening
-- against the watchlist.
pub mod Profile
pub mod Limits
pub mod Identifiers
pub mod Repository
pub mod Audit
pub mod Screening
pub mod Handlers
mod Tests
