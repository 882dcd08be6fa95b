-- ===== src/Experiment.antt =====
-- The experiment records that every analysis reads.
pub mod Models
pub mod Presets
pub mod Metrics
pub mod Controls
pub mod Hypotheses
pub mod Lab
pub mod Runner
pub mod Comparison
