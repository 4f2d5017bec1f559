-- ===== src/Trade.antt =====
-- core/trade: trade offers.
pub mod Links
