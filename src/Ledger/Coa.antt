-- ===== src/Ledger/Coa.antt =====
-- The chart of accounts: src/core/ledger/coa.template.ts, coa.seed.ts and account-resolver.ts.
pub mod Template
pub mod Rows
pub mod Seed
pub mod Resolve
pub mod Found
pub mod Steps
pub mod Holders
pub mod Valid
pub mod Kept
pub mod Mapped
pub mod Owned
pub mod Store
pub mod Fresh
pub mod Provision
