-- ===== src/Tasks/BenchmarkTasks.antt =====
-- tasks/benchmark_task.py, with the three validators of a task and the one of its criteria. The
-- provenance and the known limitations, which no modelled function reads, are left out.
use industrial_context_aware.Base.{
  Bool, ◌&&◌, ◌||◌, not, string_eq, String, Option, List, [], ◌∷◌, is_empty, all, contains, Result,
  ok, err, value_error, ◌>>=◌, if◌then◌else◌,
}
use industrial_context_aware.Context.Dimensions.{
  ContextDimension, dimension_eq, c3_relational, c4_temporal, c6_procedural, c7_historical,
  unsupported_dimensions,
}
use industrial_context_aware.Tasks.Scenarios.{ScenarioDifficulty, TaskMode, GroundTruth}

abbrev pub known_score_fields : List String
known_score_fields =
    "required_evidence_score" ∷ "canonical_id_score" ∷ "relationship_score"
    ∷ "conclusion_correctness_score" ∷ "grounding_score" ∷ "completeness_score" ∷ []

pub record EvaluationCriteria (N : Type 0) : Type 0 where
  pub binding_scores : List String
  pub pass_threshold : N

pub record BenchmarkTask (N : Type 0) : Type 0 where
  pub task_id : String
  pub scenario_id : String
  pub task_type : TaskMode
  pub difficulty : ScenarioDifficulty
  pub objective : String
  pub available_architectures : List String
  pub required_context_dimensions : List ContextDimension
  pub required_evidence : List String
  pub expected_entities : List String
  pub expected_relationships : List (String × String × String)
  pub expected_temporal_evidence : Bool
  pub ground_truth : GroundTruth
  pub evaluation_criteria : EvaluationCriteria N
  pub version : String
  -- The level's value.
  pub isa95_level : Option String
  pub use_case_id : Option String

module _ {N : Type 0} where
  -- `_binding_scores_are_known`
  unfoldable pub validate_criteria : EvaluationCriteria N → Result (EvaluationCriteria N)
  validate_criteria c =
      if all (contains known_score_fields) c.binding_scores then ok c else err value_error

  -- `_dimensions_are_architecturally_supportable`
  unfoldable pub check_supportable : BenchmarkTask N → Result (BenchmarkTask N)
  check_supportable t =
      if is_empty (unsupported_dimensions t.required_context_dimensions t.available_architectures)
      then ok t
      else err value_error

  -- `_expected_temporal_evidence_implies_a_temporal_dimension`
  unfoldable pub check_temporal : BenchmarkTask N → Result (BenchmarkTask N)
  check_temporal t =
      if t.expected_temporal_evidence
        && not (
            contains t.required_context_dimensions c4_temporal
            || contains t.required_context_dimensions c7_historical)
      then err value_error
      else ok t

  -- `_expected_relationships_imply_a_relational_dimension`
  unfoldable pub check_relational : BenchmarkTask N → Result (BenchmarkTask N)
  check_relational t =
      if not (is_empty t.expected_relationships)
        && not (
            contains t.required_context_dimensions c3_relational
            || contains t.required_context_dimensions c6_procedural)
      then err value_error
      else ok t

  -- The validators, in the order of their declaration.
  unfoldable pub validate_task : BenchmarkTask N → Result (BenchmarkTask N)
  validate_task t = do
    supported ← check_supportable t
    timed ← check_temporal supported
    check_relational timed
