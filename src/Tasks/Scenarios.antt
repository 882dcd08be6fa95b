-- ===== src/Tasks/Scenarios.antt =====
-- scenarios/models.py. The name, the description and the hours at which the simulator is driven,
-- which no modelled function reads, are left out of a scenario.
use industrial_context_aware.Base.{
  ℕ, Bool, String, Option, List, any, Result, ok, err, value_error, if◌then◌else◌,
}
use industrial_context_aware.Base.Codes.{codes, lower, occurs}

pub data ScenarioDifficulty : Type 0 where
  d1 d2 d3 d4 : ScenarioDifficulty

unfoldable pub difficulty_value : ScenarioDifficulty → String
difficulty_value d1 = "D1"
difficulty_value d2 = "D2"
difficulty_value d3 = "D3"
difficulty_value d4 = "D4"

pub data TaskMode : Type 0 where
  qa investigation diagnosis : TaskMode

unfoldable pub mode_value : TaskMode → String
mode_value qa = "qa"
mode_value investigation = "investigation"
mode_value diagnosis = "diagnosis"

pub record FaultSchedule (N : Type 0) : Type 0 where
  pub disturbance : String
  pub activate_at_hours : N
  pub duration_hours : Option N
  pub magnitude : N
  pub description : Option String

pub record GroundTruth : Type 0 where
  pub conclusion : String
  pub root_cause_disturbance : Option String
  pub affected_measurements : List String
  pub affected_equipment : List String
  pub expected_relationships : List (String × String × String)
  pub expected_evidence : List String

pub record BenchmarkScenario (N : Type 0) : Type 0 where
  pub scenario_id : String
  pub difficulty : ScenarioDifficulty
  pub version : String
  pub objective : String
  pub seed : ℕ
  pub faults : List (FaultSchedule N)
  pub available_architectures : List String
  pub ground_truth : GroundTruth

-- `fault.disturbance.lower() in objective_lower`
unfoldable pub mentions : {N : Type 0} → String → FaultSchedule N → Bool
mentions objective fault = occurs (lower (codes fault.disturbance)) (lower (codes objective))

-- `_objective_must_not_leak_the_fault_schedule`
unfoldable pub validate_scenario : {N : Type 0} → BenchmarkScenario N → Result (BenchmarkScenario N)
validate_scenario s = if any (mentions s.objective) s.faults then err value_error else ok s
