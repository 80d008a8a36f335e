-- ===== src/Domain.antt =====
-- packages/domain: projects, work items and attempts.
pub mod Project
pub mod WorkItem
pub mod Lifecycle
pub mod Evidence
pub mod Verification
pub mod Completing
pub mod Examples
mod Tests
