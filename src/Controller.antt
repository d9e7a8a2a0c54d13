-- ===== src/Controller.antt =====
-- apps/api/src/rigor_api/execution_controller.py: the worker that dispatches executions.
pub mod Statements
pub mod Since
pub mod Sound
pub mod Flow
pub mod Transactions
pub mod Attempts
pub mod Monitor
pub mod Messages
pub mod Reconciliation
pub mod Service
pub mod Kept
pub mod Finished
