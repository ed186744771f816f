-- ===== src/Accounts.antt =====
-- modules/accounts: the account aggregate, its numbers, its persistence form and its use cases.
pub mod Account
pub mod Mapper
pub mod Repository
pub mod Numbers
pub mod MaxBalance
pub mod Commands
pub mod Opening
mod Tests
