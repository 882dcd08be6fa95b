-- ===== src/Benchmark.antt =====
-- The benchmark's own bookkeeping: completeness of a campaign.
pub mod Completeness
pub mod Execution
