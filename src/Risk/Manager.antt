-- ===== src/Risk/Manager.antt =====
-- The portfolio limits of src/bist_bot/risk/manager.py and src/bist_bot/risk/correlation.py.
pub mod State
pub mod Sectors
pub mod Portfolio
pub mod Admitted
pub mod Limits
mod Tests
