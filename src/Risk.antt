-- ===== src/Risk.antt =====
-- The package risk: the trading circuit breaker, sizing and the money helpers.
pub mod Breaker
pub mod Manager
pub mod Money
pub mod Sizing
