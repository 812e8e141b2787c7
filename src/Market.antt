-- ===== src/Market.antt =====
-- The trading days of the exchange: src/bist_bot/market_calendar.py and src/bist_bot/agent/settlement.py.
pub mod Calendar
pub mod Sessions
pub mod Settlement
mod Tests
