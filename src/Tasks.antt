-- ===== src/Tasks.antt =====
-- What the benchmark asks: the scenarios, the tasks set against them, and the splits.
pub mod Scenarios
pub mod BenchmarkTasks
pub mod Validation
pub mod Splits
pub mod UseCases
