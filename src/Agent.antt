-- ===== src/Agent.antt =====
-- The investigation agent: its result type and the tool-calling loop.
pub mod Interface
pub mod Trace
pub mod World
pub mod Calls
pub mod Loop
pub mod Tools
