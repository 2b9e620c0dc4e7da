-- ===== src/Ledger/Posting.antt =====
-- src/core/ledger/posting.service.ts: the only writer of journals and of the cached balances. An
-- error aborts the caller's transaction, so a failed call has no new state.
mod Deltas
mod Rows
mod Store
pub mod Resolver
unfoldable pub use Deltas.*
unfoldable pub use Rows.*
unfoldable pub use Store.*
