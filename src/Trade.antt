-- ===== src/Trade.antt =====
-- The economics of a round trip: src/bist_bot/trade_contract.py.
pub mod Outcome
pub mod Exit
mod Tests
