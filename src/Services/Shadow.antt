-- ===== src/Services/Shadow.antt =====
-- The service of src/bist_bot/services/shadow_trade_service.py.
pub mod Files
pub mod Due
pub mod Opened
pub mod Round
pub mod Counts
pub mod Mirror
