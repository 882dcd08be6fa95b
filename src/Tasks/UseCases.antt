-- ===== src/Tasks/UseCases.antt =====
-- usecases/models.py. The name, the description, the provenance and the version are left out.
use industrial_context_aware.Base.{
  String, List, filter, contains, not, is_empty, Result, ok, err, value_error, if◌then◌else◌,
}
use industrial_context_aware.Context.Dimensions.{ContextDimension, dimension_eq}
use industrial_context_aware.Tasks.BenchmarkTasks.{EvaluationCriteria}
use industrial_context_aware.Tasks.Scenarios.{ScenarioDifficulty, TaskMode}

pub record IndustrialUseCase (N : Type 0) : Type 0 where
  pub use_case_id : String
  -- The level's value.
  pub isa95_level : String
  pub task_type : TaskMode
  pub required_context : List ContextDimension
  pub candidate_context : List ContextDimension
  pub success_criteria : EvaluationCriteria N
  pub applicable_scenarios : List String
  pub difficulty : ScenarioDifficulty

-- `_candidate_context_is_a_superset_of_required_context`
unfoldable pub validate_use_case : {N : Type 0} → IndustrialUseCase N → Result (IndustrialUseCase N)
validate_use_case u =
    if is_empty (filter (λ d. not (contains u.candidate_context d)) u.required_context)
    then ok u
    else err value_error
