-- ===== src/Run.antt =====
-- packages/workflow/src/run-coordinator.ts: a run, from its start to its end or its next pause, and
-- how it is resumed from its events.
pub mod Types
pub mod Wait
pub mod Cycle
pub mod Loop
pub mod Replay
pub mod Mirror
pub mod Returned
pub mod Resume
pub mod Resumed
pub mod Examples
mod Tests
