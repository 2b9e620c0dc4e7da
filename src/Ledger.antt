-- ===== src/Ledger.antt =====
-- The double-entry ledger: the types of src/core/ledger/ledger.types.ts, the posting rules of
-- src/core/ledger/rules, and the posting service.
mod Types
pub mod Rules
pub mod Posting
pub mod Identity
pub mod Effect
pub mod Replay
pub mod Balance
pub mod Coa
pub mod Period
pub use Types.*
