-- ===== src/Finance.antt =====
-- Money arithmetic (src/core/finance): movements and caches of a cashbook, statuses, interest.
pub mod Money
pub mod Interest
