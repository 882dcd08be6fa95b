-- ===== src/Analysis.antt =====
-- The analyses over persisted experiment records.
pub mod Taxonomy
pub mod Discoverability
pub mod Sufficiency
pub mod Necessity
