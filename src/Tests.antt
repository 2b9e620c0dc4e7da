-- ===== src/Tests.antt =====
-- Runs of the model on concrete data.
mod Chart
mod Access
mod Finance
mod Ledger
mod Effect
mod Mapped
mod Replay
mod Balance
mod Breaker
mod Coa
mod Offset
mod Pricing
mod Period
