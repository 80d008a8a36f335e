-- ===== src/Work.antt =====
-- packages/persistence/src/work and packages/workflow: the store of work items and attempts, and
-- what runs on it.
pub mod Store
pub mod Commit
pub mod Active
pub mod History
pub mod Keep
pub mod Sound
pub mod Histories
pub mod Numbers
pub mod Examples
mod Tests
