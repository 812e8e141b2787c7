-- ===== src/Execution.antt =====
-- The package execution: orders and their states, the brokers that execute them, and the executor.
pub mod Order
pub mod Intents
pub mod Raises
pub mod Algolab
pub mod Paper
pub mod Executor
pub mod Tracker
