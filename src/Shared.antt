-- ===== src/Shared.antt =====
-- shared/: the kernel that every module of the bank uses.
pub mod Enums
pub mod Users
pub mod Digits
pub mod Time
pub mod Errors
pub mod Events
pub mod Action
pub mod Money
mod Tests
