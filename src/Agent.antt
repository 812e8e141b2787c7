-- ===== src/Agent.antt =====
-- The open positions and their accounting: src/bist_bot/agent and
-- src/bist_bot/execution/reconcile_accounting.py.
pub mod Positions
pub mod Exits
pub mod Accounting
pub mod Replay
pub mod Sold
pub mod Desk
pub mod Service
pub mod Trading
pub mod Control
mod Tests
