-- ===== src/Reporting.antt =====
-- Summaries over the records of runs.
pub mod Stats
pub mod Aggregation
