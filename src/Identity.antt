-- ===== src/Identity.antt =====
-- modules/identity: users, their login and lockout, and the rotation of refresh tokens.
pub mod Values
pub mod User
pub mod RefreshToken
pub mod Repository
pub mod Services
pub mod Sessions
pub mod Register
pub mod Access
