-- ===== src/Evaluation.antt =====
-- What an investigation is scored on.
pub mod Report
pub mod ToolResults
pub mod Patterns
pub mod InformationFlow
pub mod Observations
pub mod Mentions
pub mod Grounded
