-- ===== src/Practice.antt =====
-- Practice sessions and the evaluation of submissions (practice.py, execution_submission.py).
pub mod Tables
pub mod Sessions
pub mod Queueing
pub mod Questions
pub mod History
pub mod Finalize
