-- ===== src/Execution.antt =====
-- The execution aggregate.
pub mod Columns
pub mod Status
pub mod Store
pub mod Action
pub mod Create
pub mod Repository
pub mod Claims
pub mod Evolution
pub mod Since
pub mod Sound
pub mod Persist
pub mod Checked
pub mod Judge
pub mod Compare
pub mod Runner
pub mod Expected
pub mod Package
