-- ===== src/Analysis/Sufficiency/Report.antt =====
-- analysis/sufficiency.py: `find_minimum_sufficient_context`, without the caveat's text.
pub mod Scored
use industrial_context_aware.Base.{
  ℕ, Bool, true, false, ◌&&◌, not, ◌==◌, string_eq, option_eq, Eq, String, Option, none, some, List,
  [], ◌∷◌, map, filter, all, length, if◌then◌else◌, Result, ok, err, key_error, ◌>>=◌, map_ok,
}
use industrial_context_aware.Base.Comprehensions.{add_all}
use industrial_context_aware.Base.Float.{Float, float_lt}
use industrial_context_aware.Base.Sort.{sort, str_lt}
use industrial_context_aware.Analysis.Sufficiency.{
  ConditionResult, records_for_use_case, tested_combination_ids, minimal_sufficient_conditions,
}
use industrial_context_aware.Context.Combinations.{ContextCombination, combination_for_id}
use industrial_context_aware.Experiment.Models.{ExperimentRecord}
use industrial_context_aware.Reporting.Aggregation.{
  GroupSummary, AggregationReport, AggregationOptions, aggregate_records,
}
use industrial_context_aware.Reporting.Stats.{SummaryStats}
use industrial_context_aware.Tasks.UseCases.{IndustrialUseCase}

pub record SufficiencyReport (N : Type 0) : Type 0 where
  pub use_case_id : String
  pub question_id : Option String
  pub binding_scores : List String
  pub pass_threshold : N
  pub tested_conditions : List (ConditionResult N)
  pub minimum_sufficient_context_among_tested : Option String
  pub candidate_minimum_sufficient_contexts : List String

unfoldable pub first : List String → Option String
first [] = none
first (id ∷ ids) = some id

-- The arguments of the call of `aggregate_records`.
unfoldable pub options_for : List String → AggregationOptions
options_for binding_scores = record {
  group_by = "context_combination_id" ∷ [];
  metrics = some binding_scores;
  hold_constant = none;
  include_invalid = false;
  allow_heterogeneous_controls = true;
}

module _ {N : Type 0} where
  -- `metrics[name].mean`
  unfoldable pub mean_under : String → List (String × SummaryStats N) → Result (Option N)
  mean_under name [] = err key_error
  mean_under name ((key, stats) ∷ metrics) =
      let found = mean_under name metrics in if key == name then ok stats.mean else found

  unfoldable pub score_of : List (String × SummaryStats N) → String → Result (String × Option N)
  score_of metrics name = do mean ← mean_under name metrics; ok (name, mean)

  -- The scores of a condition: those of its group, or none where no record counts.
  unfoldable pub scores_of : List String → List (GroupSummary N) → Result (List (String × Option N))
  scores_of names [] = ok (map (λ name. (name, none)) names)
  scores_of names (group ∷ groups) = map_ok (score_of group.metrics) names

  unfoldable pub has_group : List (GroupSummary N) → Bool
  has_group [] = false
  has_group (group ∷ groups) = true

module _ {N : Type 0} ⦃f : Float N⦄ where
  -- `not (mean is None or mean < threshold)`
  unfoldable pub reaches : N → Option N → Bool
  reaches threshold none = false
  reaches threshold (some mean) = not (float_lt mean threshold)

  unfoldable pub condition_from :
      N
      → String
      → List (ExperimentRecord N)
      → List (GroupSummary N)
      → ContextCombination
      → List (String × Option N)
      → ConditionResult N
  condition_from threshold id records groups combination scores = record {
    context_combination_id = id;
    cardinality = combination.cardinality;
    n_runs = length records;
    scores = scores;
    meets_threshold =
        has_group groups && all (λ (score : String × Option N). reaches threshold score.1) scores;
    run_ids = sort str_lt (map (λ (r : ExperimentRecord N). r.run_id) records);
  }

  module _ ⦃e : Eq N⦄ (binding_scores : List String) (threshold : N) where
    -- The result of one tested combination.
    unfoldable pub condition_result :
        List (ExperimentRecord N) → String → Result (ConditionResult N)
    condition_result scoped id = do
      report ←
          aggregate_records (filter (λ r. r.config.context_combination_id == some id) scoped)
            (options_for binding_scores)
      scores ← scores_of (add_all binding_scores []) report.groups
      combination ← combination_for_id id
      ok (
          condition_from threshold id
            (filter (λ r. r.config.context_combination_id == some id) scoped) report.groups
            combination scores)

    unfoldable pub report_on :
        String → Option String → List (ExperimentRecord N) → Result (SufficiencyReport N)
    report_on use_case_id question_id scoped = do
      tested ← tested_combination_ids scoped
      conditions ← map_ok (condition_result scoped) tested
      candidates ← minimal_sufficient_conditions conditions
      ok (record {
        use_case_id = use_case_id;
        question_id = question_id;
        binding_scores = binding_scores;
        pass_threshold = threshold;
        tested_conditions = conditions;
        minimum_sufficient_context_among_tested = first candidates;
        candidate_minimum_sufficient_contexts = candidates;
      })

  unfoldable pub find_minimum_sufficient_context :
      ⦃e : Eq N⦄
      → List (ExperimentRecord N)
      → IndustrialUseCase N
      → Option String
      → Result (SufficiencyReport N)
  find_minimum_sufficient_context records use_case question_id =
      report_on use_case.success_criteria.binding_scores use_case.success_criteria.pass_threshold
        use_case.use_case_id question_id
        (records_for_use_case records use_case.use_case_id question_id)
