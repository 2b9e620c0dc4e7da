-- ===== src/Ledger/Identity.antt =====
-- The cache identities: each cached column against the signed sum over all journal lines,
-- reversals included.
mod Sums
pub mod Books
pub mod Wallets
pub mod Chart
mod Swapped
pub mod Applied
pub mod Preserved
pub use Sums.*
