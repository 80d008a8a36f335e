-- ===== src/Policy.antt =====
-- packages/policy
pub mod Types
pub mod Matrix
pub mod Engine
pub mod Events
pub mod Processor
pub mod Classifier
pub mod RuleText
pub mod Examples
mod Tests
