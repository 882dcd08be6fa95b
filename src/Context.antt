-- ===== src/Context.antt =====
-- The context model of the tasks: the seven context dimensions, their combinations, and the
-- architecture arms that realise a combination (tasks/context_*.py).
pub mod Dimensions
pub mod Combinations
pub mod Conditions
pub mod Design
