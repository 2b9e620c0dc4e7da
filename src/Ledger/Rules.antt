-- ===== src/Ledger/Rules.antt =====
-- The posting rules: pure functions from an event to a journal draft (src/core/ledger/rules).
pub mod Entry
pub mod Wallet
pub mod Obligation
