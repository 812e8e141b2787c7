-- ===== src/Services/Paper.antt =====
-- The service of src/bist_bot/services/paper_trade_service.py on the table of
-- src/bist_bot/db/repositories/portfolio_repository.py and on the ledger.
pub mod Table
pub mod Reasons
pub mod Update
pub mod Queue
pub mod Justified
pub mod Settled
mod Tests
