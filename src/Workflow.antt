-- ===== src/Workflow.antt =====
-- packages/workflow: the execution of a work item by an agent, and its resumption.
pub mod Agents
pub mod Engine
pub mod Resume
pub mod Database
pub mod Outcome
pub mod Start
pub mod Settle
pub mod Legal
pub mod Execution
pub mod Resumption
pub mod Examples
mod Tests
