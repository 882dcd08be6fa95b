-- ===== src/Evaluation/Grounded.antt =====
-- evaluation/grounded.py: `GroundedInvestigationEvaluator`.
pub mod Relationships
pub mod Evidence
pub mod Scores
pub mod Verdicts
use industrial_context_aware.Base.{
  ℕ, Bool, true, false, ◌&&◌, ◌||◌, not, ◌==◌, string_eq, option_eq, String, Option, none, some,
  List, [], ◌∷◌, ◌++◌, map, filter, any, all, contains, length, count_if, if◌then◌else◌,
}
use industrial_context_aware.Base.Codes.{codes, lower, occurs}
use industrial_context_aware.Base.Comprehensions.{dict_of}
use industrial_context_aware.Base.Float.{Float, float_lt, float_of}
use industrial_context_aware.Base.Sort.{sort, distinct, str_lt}
use industrial_context_aware.Agent.Interface.{
  TerminationReason, submitted, no_tool_call, step_budget_exceeded, tool_call_budget_exceeded,
  token_budget_exceeded, wall_time_budget_exceeded, EvidenceReference, InvestigationResult,
}
use industrial_context_aware.Agent.Trace.{TraceEvent}
use industrial_context_aware.Evaluation.Patterns.{is_canonical_id, numerals}
use industrial_context_aware.Evaluation.Report.{RelationshipCheck, EvaluationReport}
use industrial_context_aware.Evaluation.Observations.{
  temporal_tools, is_tool_of, retrieved_value_ids, relationship_confirmed, observed_numbers,
}
use industrial_context_aware.Evaluation.Mentions.{claimed_text, slug, mentions_disturbance}
use industrial_context_aware.Evaluation.ToolResults.{ids_of}
use industrial_context_aware.Tasks.Scenarios.{
  ScenarioDifficulty, d1, d2, d3, d4, GroundTruth, BenchmarkScenario,
}
use industrial_context_aware.Tasks.BenchmarkTasks.{BenchmarkTask}

abbrev pub canonical_id_sources : List String
canonical_id_sources =
    "get_current_value" ∷ "get_historical_values" ∷ "get_entity_relationships" ∷ "browse_uns" ∷ []

-- `result.termination in _BUDGET_EXCEEDED_TERMINATIONS`
unfoldable pub is_budget_exceeded : TerminationReason → Bool
is_budget_exceeded submitted = false
is_budget_exceeded no_tool_call = false
is_budget_exceeded step_budget_exceeded = true
is_budget_exceeded tool_call_budget_exceeded = true
is_budget_exceeded token_budget_exceeded = true
is_budget_exceeded wall_time_budget_exceeded = true

unfoldable pub passed : {A : Type 0} → List (A × Bool) → ℕ
passed hits = count_if (λ hit. hit.1) hits

module _ {N : Type 0} ⦃f : Float N⦄ where
  -- `_ratio`
  unfoldable pub ratio_of : {A : Type 0} → List (A × Bool) → N
  ratio_of [] = float_of 1
  ratio_of (hit ∷ hits) = f.ratio (passed (hit ∷ hits)) (length (hit ∷ hits))

  unfoldable pub float_of_bool : Bool → N
  float_of_bool true = float_of 1
  float_of_bool false = float_of 0

  unfoldable pub root_cause_component : Option Bool → List N
  root_cause_component none = []
  root_cause_component (some identified) = float_of_bool identified ∷ []

  unfoldable pub affected_component : List (String × Bool) → List N
  affected_component [] = []
  affected_component (hit ∷ hits) = ratio_of (hit ∷ hits) ∷ []

  -- `sum(components) / len(components) if components else 1.0`
  unfoldable pub average : List N → N
  average [] = float_of 1
  average (c ∷ components) = f.div (f.sum (c ∷ components)) (float_of (length (c ∷ components)))

  -- `_conclusion_correctness_score`
  unfoldable pub conclusion_correctness_score : Option Bool → List (String × Bool) → N
  conclusion_correctness_score identified mentioned =
      average (root_cause_component identified ++ affected_component mentioned)

  -- `max(1.0, abs(number) * 0.02)`
  unfoldable pub tolerance : N → N
  tolerance number =
      let share = f.mul (f.abs number) (f.ratio 2 100) in
      if float_lt (float_of 1) share then share else float_of 1

  -- `_is_supported`
  unfoldable pub is_supported_number : List N → N → Bool
  is_supported_number observed number =
      any (λ value. f.le (f.abs (f.sub number value)) (tolerance number)) observed

  unfoldable pub numbers_of_text : String → List N
  numbers_of_text text = map f.parse (numerals text)

  unfoldable pub grounding_score_of : List N → List N → N
  grounding_score_of unsupported [] = float_of 1
  grounding_score_of unsupported (n ∷ numbers) =
      f.sub (float_of 1) (f.ratio (length unsupported) (length (n ∷ numbers)))

-- `evidence.source and evidence.identifier`, as truth values.
unfoldable pub has_provenance : EvidenceReference → Bool
has_provenance evidence = not (evidence.source == "") && not (evidence.identifier == "")

unfoldable pub is_temporal : ScenarioDifficulty → Bool
is_temporal d1 = false
is_temporal d2 = false
is_temporal d3 = true
is_temporal d4 = true

unfoldable pub is_given : {A : Type 0} → Option A → Bool
is_given none = false
is_given (some a) = true

unfoldable pub identified : Option String → List ℕ → Option Bool
identified none text = none
identified (some disturbance) text = some (mentions_disturbance disturbance text)

unfoldable pub is_named : String → Bool
is_named tool = not (tool == "")

module _ {N : Type 0} where
  unfoldable pub acquired_in : List (TraceEvent N) → List String
  acquired_in [] = []
  acquired_in (event ∷ trace) = event.context_acquired ++ acquired_in trace

  unfoldable pub consumed_in : List (TraceEvent N) → List String
  consumed_in [] = []
  consumed_in (event ∷ trace) = event.context_consumed ++ consumed_in trace

  unfoldable pub tools_in : List (TraceEvent N) → List String
  tools_in trace = ids_of (map (λ (e : TraceEvent N). e.tool) trace)

module _ {N : Type 0} (result : InvestigationResult N) (trace : List (TraceEvent N)) where
  -- An item was retrieved, cited, or named in the text.
  unfoldable pub is_hit : String → Bool
  is_hit item =
      contains (retrieved_value_ids trace) item
      || contains (map (λ (e : EvidenceReference). e.identifier) result.evidence) item
      || occurs (lower (codes item)) (claimed_text result)

  unfoldable pub check_relationship : Option String → String × String × String → RelationshipCheck
  check_relationship generation_id triple = record {
    subject = triple.0;
    predicate = triple.1;
    object = triple.2;
    confirmed = relationship_confirmed triple generation_id trace;
  }

  unfoldable pub canonical_ids : List String
  canonical_ids =
      map (λ (e : EvidenceReference). e.identifier)
        (filter (λ (e : EvidenceReference). contains canonical_id_sources e.source) result.evidence)

  unfoldable pub affected_mentioned : GroundTruth → List (String × Bool)
  affected_mentioned truth =
      dict_of (λ asset. occurs (slug asset) (claimed_text result))
        (truth.affected_measurements ++ truth.affected_equipment)

  module _ ⦃f : Float N⦄ where
    unfoldable pub unsupported_numbers : List N
    unsupported_numbers =
        filter
          (λ n.
            not
              (is_supported_number (observed_numbers trace ++ numbers_of_text result.objective) n))
          (numbers_of_text result.conclusion)

    -- `_evaluate`
    unfoldable pub evaluate_against :
        String
        → Option String
        → GroundTruth
        → ScenarioDifficulty
        → Option String
        → EvaluationReport N
    evaluate_against scenario_id task_id truth difficulty generation_id =
        let hits = dict_of is_hit truth.expected_evidence in
        let id_validity = dict_of is_canonical_id canonical_ids in
        let checks = map (check_relationship generation_id) truth.expected_relationships in
        let required_score = ratio_of hits in
        let relationship_score =
          ratio_of (map (λ (c : RelationshipCheck). (c, c.confirmed)) checks) in
        let root_cause = identified truth.root_cause_disturbance (claimed_text result) in
        let terminated_properly = not (is_budget_exceeded result.termination) in
        record {
          scenario_id = scenario_id;
          task_id = task_id;
          generation_id = generation_id;
          required_evidence_hits = hits;
          required_evidence_score = required_score;
          evidence_has_valid_provenance = all has_provenance result.evidence;
          canonical_id_validity = id_validity;
          canonical_id_score = ratio_of id_validity;
          temporal_evidence_required =
              is_temporal difficulty || is_given truth.root_cause_disturbance;
          temporal_evidence_acquired =
              any (λ (e : TraceEvent N). is_tool_of temporal_tools e.tool) trace;
          expected_relationships = checks;
          relationship_score = relationship_score;
          root_cause_identified = root_cause;
          affected_assets_mentioned = affected_mentioned truth;
          conclusion_correctness_score =
              conclusion_correctness_score root_cause (affected_mentioned truth);
          unsupported_numeric_claims = unsupported_numbers;
          grounding_score =
              grounding_score_of unsupported_numbers (numbers_of_text result.conclusion);
          context_acquired = sort str_lt (distinct (acquired_in trace));
          context_consumed = sort str_lt (distinct (consumed_in trace));
          tool_call_count = count_if (λ (e : TraceEvent N). e.action == "tool_call") trace;
          unique_tools_used = sort str_lt (distinct (filter is_named (tools_in trace)));
          terminated_properly = terminated_properly;
          completeness_score =
              average
                (required_score ∷ relationship_score ∷ float_of_bool terminated_properly ∷ []);
        }

    -- `evaluate`
    unfoldable pub evaluate : BenchmarkScenario N → Option String → EvaluationReport N
    evaluate scenario generation_id =
        evaluate_against scenario.scenario_id none scenario.ground_truth scenario.difficulty
          generation_id

    unfoldable pub evaluate_task : BenchmarkTask N → Option String → EvaluationReport N
    evaluate_task task generation_id =
        evaluate_against task.scenario_id (some task.task_id) task.ground_truth task.difficulty
          generation_id
