-- ===== src/Services/Outcomes.antt =====
-- The tracker of src/bist_bot/services/signal_outcome_tracker.py.
pub mod Files
pub mod Hits
pub mod Round
pub mod Fills
pub mod Remembered
pub mod Scanned
mod Tests
