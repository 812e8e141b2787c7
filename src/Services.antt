-- ===== src/Services.antt =====
-- The trades that are only followed, src/bist_bot/services, and their common table,
-- src/bist_bot/db/repositories/ledger_repository.py.
pub mod Entries
pub mod Ledger
pub mod Scans
pub mod Shadow
pub mod Paper
pub mod Outcomes
mod Tests
