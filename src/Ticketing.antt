-- ===== src/Ticketing.antt =====
-- The ticket desk: src/modules/ticketing.
pub mod Pricing
