-- ===== src/Tests.antt =====
-- Examples at concrete inputs.
mod Runs
mod Grades
mod Ledger
mod Executions
mod Thresholds
mod Contexts
mod Reports
mod Campaigns
mod Designs
mod Necessities
mod Comparisons
