-- ===== src/Experiment/Models.antt =====
-- experiments/models.py. The two timestamps are left out of the record.
use industrial_context_aware.Base.{ℕ, Bool, true, false, ◌&&◌, String, Option, List}
use industrial_context_aware.Agent.Interface.{InvestigationResult}
use industrial_context_aware.Evaluation.Report.{EvaluationReport, InformationFlowReport}

pub data AgentType : Type 0 where
  deterministic llm : AgentType

pub data DeterministicAgentKind : Type 0 where
  structured_retrieval context_aware architecture_aware scenario_aware : DeterministicAgentKind

unfoldable pub kind_value : DeterministicAgentKind → String
kind_value structured_retrieval = "structured_retrieval"
kind_value context_aware = "context_aware"
kind_value architecture_aware = "architecture_aware"
kind_value scenario_aware = "scenario_aware"

-- `LEGACY_DETERMINISTIC_AGENT_KINDS`
unfoldable pub is_legacy : DeterministicAgentKind → Bool
is_legacy scenario_aware = false
is_legacy structured_retrieval = true
is_legacy context_aware = true
is_legacy architecture_aware = true

pub data ExperimentRunStatus : Type 0 where
  completed failed : ExperimentRunStatus

pub data RunValidity : Type 0 where
  valid legacy_control_only : RunValidity

pub record ExperimentConfig (N : Type 0) : Type 0 where
  pub scenario_id : String
  pub task_id : Option String
  pub task_type : Option String
  pub isa95_level : Option String
  pub use_case_id : Option String
  pub context_combination_id : Option String
  pub suite : Option String
  pub split : Option String
  pub repetition : Option ℕ
  pub question_id : Option String
  pub question_instance_id : Option String
  pub repetition_mode : Option String
  pub architectures : List String
  pub architecture_combination_key : Option String
  pub agent_type : AgentType
  pub deterministic_agent : Option DeterministicAgentKind
  pub deterministic_equipment_key : Option String
  pub llm_model : Option String
  pub llm_temperature : Option N
  pub max_steps : Option ℕ
  pub max_tool_calls : Option ℕ
  pub max_context_tokens : Option ℕ
  pub max_wall_time_seconds : Option N
  pub random_seed : Option ℕ

pub record ExperimentRecord (N : Type 0) : Type 0 where
  pub run_id : String
  pub experiment_id : String
  pub config : ExperimentConfig N
  pub scenario_difficulty : String
  pub simulation_seed : ℕ
  pub generation_id : Option String
  pub icab_version : Option String
  pub benchmark_version : Option String
  pub git_commit : Option String
  pub fault_id : Option String
  pub fault_version : Option String
  pub scenario_version : Option String
  pub task_version : Option String
  pub configuration_hash : Option String
  pub status : ExperimentRunStatus
  pub error : Option String
  pub validity : RunValidity
  pub validity_reason : Option String
  pub result : Option (InvestigationResult N)
  pub evaluation : Option (EvaluationReport N)
  pub information_flow : Option InformationFlowReport
  pub trace_event_count : ℕ
  pub total_latency_ms : Option N
  pub total_tokens : Option ℕ

unfoldable pub is_completed : ExperimentRunStatus → Bool
is_completed completed = true
is_completed failed = false

unfoldable pub is_valid : RunValidity → Bool
is_valid valid = true
is_valid legacy_control_only = false

-- `is_usable_record` of experiments/hypotheses.py, and the test in `usable` of analysis/_shared.py.
unfoldable pub is_usable_record : {N : Type 0} → ExperimentRecord N → Bool
is_usable_record r = is_valid r.validity && is_completed r.status
