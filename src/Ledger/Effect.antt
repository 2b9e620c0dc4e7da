-- ===== src/Ledger/Effect.antt =====
-- What posting a draft does to the cached columns, told from the draft's legs alone. The account
-- classes are those of src/core/ledger/coa.template.ts.
mod Worth
pub mod Moves
pub mod Entry
pub mod Posted
pub mod Wallet
pub mod Offset
pub use Worth.*
