-- ===== src/Analysis/Taxonomy.antt =====
-- analysis/failure_taxonomy.py. The texts of `reason` are left out; the search for an infrastructure
-- error chooses between two texts of one category.
pub mod Priority
pub mod Graded
pub mod Reasoning
use industrial_context_aware.Base.{
  ◌≡◌, Bool, true, false, ◌&&◌, not, String, Option, none, some, List, map, if◌then◌else◌, is_empty,
}
use industrial_context_aware.Base.Float.{Float, float_lt, float_of}
use industrial_context_aware.Evaluation.Report.{EvaluationReport}
use industrial_context_aware.Experiment.Models.{
  ExperimentRecord, ExperimentRunStatus, completed, failed,
}

-- The constants of `FailureCategory`; `no_failure` is its `NONE`.
pub data FailureCategory : Type 0 where
  architecture_connectivity_failure context_not_discoverable : FailureCategory
  context_not_retrieved context_not_integrated representation_failure : FailureCategory
  reasoning_failure grounding_failure efficiency_failure no_failure : FailureCategory

pub record FailureClassification : Type 0 where
  pub run_id : String
  pub category : FailureCategory

module _ {N : Type 0} ⦃f : Float N⦄ where
  -- `score < 1.0`
  abbrev pub below_one : N → Bool
  below_one score = float_lt score (float_of 1)

  -- The checks of an evaluation, in their fixed order.
  unfoldable pub classify_evaluation : EvaluationReport N → FailureCategory
  classify_evaluation e =
      if not e.terminated_properly
      then efficiency_failure
      else if below_one e.required_evidence_score && is_empty e.context_acquired
      then context_not_discoverable
      else if below_one e.required_evidence_score
      then context_not_retrieved
      else if below_one e.canonical_id_score
      then representation_failure
      else if below_one e.grounding_score
      then grounding_failure
      else if below_one e.conclusion_correctness_score
      then reasoning_failure
      else if below_one e.relationship_score
      then context_not_integrated
      else no_failure

  unfoldable pub category_of : ExperimentRunStatus → Option (EvaluationReport N) → FailureCategory
  category_of failed evaluation = architecture_connectivity_failure
  category_of completed none = no_failure
  category_of completed (some e) = classify_evaluation e

  -- `_classify_one`
  unfoldable pub classify_one : ExperimentRecord N → FailureClassification
  classify_one r = record { run_id = r.run_id; category = category_of r.status r.evaluation }

  unfoldable pub classify_failures : List (ExperimentRecord N) → List FailureClassification
  classify_failures = map classify_one
