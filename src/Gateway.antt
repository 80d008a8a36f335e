-- ===== src/Gateway.antt =====
-- packages/tools: the governed tool gateway.
pub mod Contracts
pub mod Bridge
pub mod Execute
pub mod Destroying
pub mod Ledger
pub mod Denial
pub mod Ending
pub mod Ran
pub mod Settlement
pub mod Spent
mod Tests
