-- ===== src/Experiment/Metrics.antt =====
-- experiments/hypotheses.py: `metric_value`, and the names of reporting/metrics.py. A name of a field
-- that the model leaves out of its records counts as unknown here.
use text.Mathlib.Text.{starts_with, get?}
use Prim.Native.String.{len}
use industrial_context_aware.Base.{
  ℕ, Bool, true, false, ◌==◌, string_eq, String, Option, none, some, List, [], ◌∷◌, ◌++◌, contains,
  length, if◌then◌else◌, Result, ok, err, value_error, type_error, attribute_error, ◌>>=◌,
}
use industrial_context_aware.Base.Float.{Float, float_of}
use industrial_context_aware.Evaluation.Report.{EvaluationReport, InformationFlowReport}
use industrial_context_aware.Experiment.Models.{
  ExperimentRecord, ExperimentRunStatus, completed, failed, RunValidity, valid, legacy_control_only,
}

abbrev pub effectiveness_metrics : List String
effectiveness_metrics =
    "conclusion_correctness_score" ∷ "required_evidence_score" ∷ "grounding_score"
    ∷ "completeness_score" ∷ "relationship_score" ∷ "temporal_reasoning_score"
    ∷ "unsupported_numeric_claims_count" ∷ []

abbrev pub efficiency_metrics : List String
efficiency_metrics =
    "tool_call_count" ∷ "context_acquired_count" ∷ "context_consumed_count"
    ∷ "information_flow.redundant_acquisition_count" ∷ "information_flow.tool_error_count"
    ∷ "total_latency_ms" ∷ "total_tokens" ∷ []

abbrev pub all_metrics : List String
all_metrics = effectiveness_metrics ++ efficiency_metrics

abbrev pub synthetic_evaluation_metrics : List String
synthetic_evaluation_metrics =
    "unsupported_numeric_claims_count" ∷ "context_acquired_count" ∷ "context_consumed_count"
    ∷ "temporal_reasoning_score" ∷ []

unfoldable pub status_value : ExperimentRunStatus → String
status_value completed = "completed"
status_value failed = "failed"

unfoldable pub validity_value : RunValidity → String
validity_value valid = "valid"
validity_value legacy_control_only = "legacy_control_only"

-- The value of an attribute, as far as `float` tells values apart.
pub data Attribute (N : Type 0) : Type 0 where
  textual : String → Attribute N
  boolean : Bool → Attribute N
  integer : ℕ → Attribute N
  number : N → Attribute N
  nothing : Attribute N
  compound : Attribute N

module _ {N : Type 0} where
  unfoldable pub text_or_nothing : Option String → Attribute N
  text_or_nothing none = nothing
  text_or_nothing (some s) = textual s

  unfoldable pub boolean_or_nothing : Option Bool → Attribute N
  boolean_or_nothing none = nothing
  boolean_or_nothing (some b) = boolean b

  unfoldable pub integer_or_nothing : Option ℕ → Attribute N
  integer_or_nothing none = nothing
  integer_or_nothing (some n) = integer n

  unfoldable pub number_or_nothing : Option N → Attribute N
  number_or_nothing none = nothing
  number_or_nothing (some x) = number x

  unfoldable pub compound_or_nothing : {A : Type 0} → Option A → Attribute N
  compound_or_nothing none = nothing
  compound_or_nothing (some a) = compound

  -- `attributes[name]`
  unfoldable pub attribute_named : String → List (String × Attribute N) → Option (Attribute N)
  attribute_named name [] = none
  attribute_named name ((key, v) ∷ rest) =
      let found = attribute_named name rest in if key == name then some v else found

  unfoldable pub evaluation_attributes : EvaluationReport N → List (String × Attribute N)
  evaluation_attributes e =
      ("scenario_id", textual e.scenario_id)
      ∷ ("task_id", text_or_nothing e.task_id)
      ∷ ("generation_id", text_or_nothing e.generation_id)
      ∷ ("required_evidence_hits", compound)
      ∷ ("required_evidence_score", number e.required_evidence_score)
      ∷ ("evidence_has_valid_provenance", boolean e.evidence_has_valid_provenance)
      ∷ ("canonical_id_validity", compound)
      ∷ ("canonical_id_score", number e.canonical_id_score)
      ∷ ("temporal_evidence_required", boolean e.temporal_evidence_required)
      ∷ ("temporal_evidence_acquired", boolean e.temporal_evidence_acquired)
      ∷ ("expected_relationships", compound)
      ∷ ("relationship_score", number e.relationship_score)
      ∷ ("root_cause_identified", boolean_or_nothing e.root_cause_identified)
      ∷ ("affected_assets_mentioned", compound)
      ∷ ("conclusion_correctness_score", number e.conclusion_correctness_score)
      ∷ ("unsupported_numeric_claims", compound)
      ∷ ("grounding_score", number e.grounding_score)
      ∷ ("context_acquired", compound)
      ∷ ("context_consumed", compound)
      ∷ ("tool_call_count", integer e.tool_call_count)
      ∷ ("unique_tools_used", compound)
      ∷ ("terminated_properly", boolean e.terminated_properly)
      ∷ ("completeness_score", number e.completeness_score)
      ∷ []

  unfoldable pub flow_attributes : InformationFlowReport → List (String × Attribute N)
  flow_attributes i =
      ("discovered_canonical_ids", compound)
      ∷ ("acquisitions", compound)
      ∷ ("architectures_used_per_measurement", compound)
      ∷ ("redundant_measurements", compound)
      ∷ ("redundant_acquisition_count", integer i.redundant_acquisition_count)
      ∷ ("unresolved_acquisition_count", integer i.unresolved_acquisition_count)
      ∷ ("tool_error_count", integer i.tool_error_count)
      ∷ []

  unfoldable pub record_attributes : ExperimentRecord N → List (String × Attribute N)
  record_attributes r =
      ("run_id", textual r.run_id)
      ∷ ("experiment_id", textual r.experiment_id)
      ∷ ("config", compound)
      ∷ ("scenario_difficulty", textual r.scenario_difficulty)
      ∷ ("simulation_seed", integer r.simulation_seed)
      ∷ ("icab_version", text_or_nothing r.icab_version)
      ∷ ("benchmark_version", text_or_nothing r.benchmark_version)
      ∷ ("git_commit", text_or_nothing r.git_commit)
      ∷ ("fault_id", text_or_nothing r.fault_id)
      ∷ ("fault_version", text_or_nothing r.fault_version)
      ∷ ("scenario_version", text_or_nothing r.scenario_version)
      ∷ ("task_version", text_or_nothing r.task_version)
      ∷ ("configuration_hash", text_or_nothing r.configuration_hash)
      ∷ ("started_at", compound)
      ∷ ("completed_at", compound)
      ∷ ("status", textual (status_value r.status))
      ∷ ("error", text_or_nothing r.error)
      ∷ ("validity", textual (validity_value r.validity))
      ∷ ("validity_reason", text_or_nothing r.validity_reason)
      ∷ ("result", compound_or_nothing r.result)
      ∷ ("evaluation", compound_or_nothing r.evaluation)
      ∷ ("information_flow", compound_or_nothing r.information_flow)
      ∷ ("trace_event_count", integer r.trace_event_count)
      ∷ ("total_latency_ms", number_or_nothing r.total_latency_ms)
      ∷ ("total_tokens", integer_or_nothing r.total_tokens)
      ∷ []

-- `metric in EvaluationReport.model_fields`
abbrev pub evaluation_fields : List String
evaluation_fields =
    "scenario_id" ∷ "task_id" ∷ "generation_id" ∷ "required_evidence_hits"
    ∷ "required_evidence_score" ∷ "evidence_has_valid_provenance" ∷ "canonical_id_validity"
    ∷ "canonical_id_score" ∷ "temporal_evidence_required" ∷ "temporal_evidence_acquired"
    ∷ "expected_relationships" ∷ "relationship_score" ∷ "root_cause_identified"
    ∷ "affected_assets_mentioned" ∷ "conclusion_correctness_score" ∷ "unsupported_numeric_claims"
    ∷ "grounding_score" ∷ "context_acquired" ∷ "context_consumed" ∷ "tool_call_count"
    ∷ "unique_tools_used" ∷ "terminated_properly" ∷ "completeness_score" ∷ []

-- `metric.split(".", 1)[1]` of a metric that starts with "information_flow."
unfoldable pub flow_field : String → String
flow_field metric = elim (get? metric 17 (len metric)) [ none ↦ "" | some name ↦ name ]

module _ {N : Type 0} ⦃f : Float N⦄ where
  unfoldable pub parsed : Option N → Result N
  parsed none = err value_error
  parsed (some x) = ok x

  -- `float(value)`
  unfoldable pub to_float : Attribute N → Result N
  to_float (textual s) = parsed (f.of_text s)
  to_float (boolean true) = ok (float_of 1)
  to_float (boolean false) = ok (float_of 0)
  to_float (integer n) = ok (float_of n)
  to_float (number x) = ok x
  to_float nothing = err type_error
  to_float compound = err type_error

  unfoldable pub some_float : Attribute N → Result (Option N)
  some_float v = do x ← to_float v; ok (some x)

  unfoldable pub attribute_or : Result (Option N) → Option (Attribute N) → Result (Option N)
  attribute_or missing none = missing
  attribute_or missing (some v) = some_float v

  unfoldable pub synthetic_value : String → EvaluationReport N → Option N
  synthetic_value metric e =
      if metric == "unsupported_numeric_claims_count"
      then some (float_of (length e.unsupported_numeric_claims))
      else if metric == "context_acquired_count"
      then some (float_of (length e.context_acquired))
      else if metric == "context_consumed_count"
      then some (float_of (length e.context_consumed))
      else if e.temporal_evidence_required
      then some (float_of (if e.temporal_evidence_acquired then 1 else 0))
      else none

  unfoldable pub synthetic_metric : String → Option (EvaluationReport N) → Result (Option N)
  synthetic_metric metric none = ok none
  synthetic_metric metric (some e) = ok (synthetic_value metric e)

  unfoldable pub flow_metric : String → Option InformationFlowReport → Result (Option N)
  flow_metric metric none = ok none
  flow_metric metric (some i) =
      attribute_or (err attribute_error) (attribute_named (flow_field metric) (flow_attributes i))

  unfoldable pub evaluation_metric : String → Option (EvaluationReport N) → Result (Option N)
  evaluation_metric metric none = ok none
  evaluation_metric metric (some e) =
      attribute_or (err value_error) (attribute_named metric (evaluation_attributes e))

  -- `None if value is None else float(value)`
  unfoldable pub record_metric : Option (Attribute N) → Result (Option N)
  record_metric none = err value_error
  record_metric (some nothing) = ok none
  record_metric (some v) = some_float v

  unfoldable pub metric_value : ExperimentRecord N → String → Result (Option N)
  metric_value r metric =
      if contains synthetic_evaluation_metrics metric
      then synthetic_metric metric r.evaluation
      else if starts_with metric "information_flow."
      then flow_metric metric r.information_flow
      else if contains evaluation_fields metric
      then evaluation_metric metric r.evaluation
      else record_metric (attribute_named metric (record_attributes r))
