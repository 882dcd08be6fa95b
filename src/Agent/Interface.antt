-- ===== src/Agent/Interface.antt =====
-- agent/interface.py. The field `context` of a result, which the tool-calling agent leaves at its
-- default, is left out.
use industrial_context_aware.Base.{String, List}
use industrial_context_aware.Base.Json.{Json}

pub data TerminationReason : Type 0 where
  submitted no_tool_call step_budget_exceeded : TerminationReason
  tool_call_budget_exceeded token_budget_exceeded wall_time_budget_exceeded : TerminationReason

pub record EvidenceReference : Type 0 where
  pub source : String
  pub identifier : String

pub record InvestigationResult (N : Type 0) : Type 0 where
  pub objective : String
  pub conclusion : String
  pub findings : List (String × Json N)
  pub evidence : List EvidenceReference
  pub termination : TerminationReason
