-- ===== src/Delivery.antt =====
-- packages/reconciliation and packages/completion: whether a delivered work item is complete.
pub mod Reconciliation
pub mod Completion
pub mod Complete
pub mod Pass
mod Tests
