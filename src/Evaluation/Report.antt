-- ===== src/Evaluation/Report.antt =====
-- The report types of evaluation/grounded.py and evaluation/information_flow.py.
use industrial_context_aware.Base.{ℕ, Bool, String, Option, List}

pub record RelationshipCheck : Type 0 where
  pub subject : String
  pub predicate : String
  pub object : String
  pub confirmed : Bool

pub record EvaluationReport (N : Type 0) : Type 0 where
  pub scenario_id : String
  pub task_id : Option String
  pub generation_id : Option String
  pub required_evidence_hits : List (String × Bool)
  pub required_evidence_score : N
  pub evidence_has_valid_provenance : Bool
  pub canonical_id_validity : List (String × Bool)
  pub canonical_id_score : N
  pub temporal_evidence_required : Bool
  pub temporal_evidence_acquired : Bool
  pub expected_relationships : List RelationshipCheck
  pub relationship_score : N
  pub root_cause_identified : Option Bool
  pub affected_assets_mentioned : List (String × Bool)
  pub conclusion_correctness_score : N
  pub unsupported_numeric_claims : List N
  pub grounding_score : N
  pub context_acquired : List String
  pub context_consumed : List String
  pub tool_call_count : ℕ
  pub unique_tools_used : List String
  pub terminated_properly : Bool
  pub completeness_score : N

pub record AcquisitionRecord : Type 0 where
  pub canonical_id : String
  pub architecture : String
  pub tool : String
  pub step : ℕ

pub record InformationFlowReport : Type 0 where
  pub discovered_canonical_ids : List String
  pub acquisitions : List AcquisitionRecord
  pub architectures_used_per_measurement : List (String × List String)
  pub redundant_measurements : List String
  pub redundant_acquisition_count : ℕ
  pub unresolved_acquisition_count : ℕ
  pub tool_error_count : ℕ
