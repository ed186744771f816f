-- ===== src/Transfers.antt =====
-- modules/transfers: the transfer aggregate, its fees and limits, and the two kinds of transfer.
pub mod Journals
pub mod Transfer
pub mod Mapper
pub mod Repository
pub mod Fees
pub mod Limits
pub mod Held
pub mod Executor
pub mod Entries
pub mod External
pub mod Confirm
pub mod InitiateInternal
pub mod InitiateExternal
pub mod Guarded
mod Tests
