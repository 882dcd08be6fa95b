-- ===== src/Tests/Ledger.antt =====
-- Records that are summarised, and runs from the preparation to the record.
use mathlib.Core.List.{Memᴰ}
use industrial_context_aware.Base.{
  ℕ, nat_eq, string_eq, ◌+◌, ◌≡◌, refl, true, false, String, some, none, List, [], ◌∷◌, map, filter,
  sum_by, ok,
}
use industrial_context_aware.Base.Scalars.{Scalar, integer, of_option, show}
use industrial_context_aware.Agent.Calls.{dict_set}
use industrial_context_aware.Base.Comprehensions.{add_all}
use industrial_context_aware.Base.Decimal.{decimal, digits}
use industrial_context_aware.Base.Dict.{add, setdefault_then}
use industrial_context_aware.Base.Grouping.{append_at}
use industrial_context_aware.Base.Sort.{sort, insort, distinct, min_from, str_lt, texts_lt}
use industrial_context_aware.Context.Combinations.{join}
use industrial_context_aware.Experiment.Metrics.{
  metric_value, evaluation_metric, attribute_named, evaluation_attributes, attribute_or, some_float,
  to_float, text_or_nothing, boolean_or_nothing, status_value, validity_value,
}
use industrial_context_aware.Experiment.Controls.{
  control_value, values_of, varies, sorted_entry, entry_of, control_variance, shown_lt,
}
use industrial_context_aware.Reporting.Stats.{SummaryStats, spread, summarize}
use industrial_context_aware.Reporting.Aggregation.{
  resolved_metrics, default_controls, controls_held, given, zip_dict, group_key_of, grouped,
  group_lt, metric_summary, group_summary, variance_of, check_controls, check_dimensions,
}
use industrial_context_aware.Reporting.Aggregation.Dimensions.{
  agent_type_value, dimensions_of, value_named, dimension_value,
}
use industrial_context_aware.Experiment.Hypotheses.{
  HypothesisSpec, HypothesisTestResult, hypothesis_specs, is_in_arm, with_value, values_along,
  arm_values, mean_of, difference, supports, direction, test_result, evaluate_hypothesis,
  evaluate_all_hypotheses,
}
use industrial_context_aware.Experiment.Hypotheses.Arms.{
  evaluate_all_hypotheses_total, evaluate_hypothesis-arms, IsListed,
}
use industrial_context_aware.Experiment.Models.{
  ExperimentRecord, is_usable_record, is_valid, is_completed, kind_value,
}
use industrial_context_aware.Reporting.Aggregation.{
  GroupSummary, AggregationReport, AggregationOptions, included, aggregate_records,
}
use industrial_context_aware.Reporting.Aggregation.Groups.{
  has_key, aggregate_records-n_runs, aggregate_records-group,
}
use industrial_context_aware.Reporting.Aggregation.Held.{aggregate_records-same_controls}
use industrial_context_aware.Samples.{thousandths, wrong_run, right_run, failed_run}

abbrev options : AggregationOptions
options = record {
  group_by = "repetition" ∷ [];
  metrics = some ("grounding_score" ∷ []);
  hold_constant = none;
  include_invalid = false;
  allow_heterogeneous_controls = false;
}

abbrev runs : List (ExperimentRecord ℕ)
runs = wrong_run ∷ right_run ∷ failed_run ∷ []

abbrev stats_of : ℕ → SummaryStats ℕ
stats_of score = record {
  n = 1;
  mean = some score;
  median = some score;
  stdev = none;
  minimum = some score;
  maximum = some score;
}

abbrev no_stats : SummaryStats ℕ
no_stats = record {
  n = 0;
  mean = none;
  median = none;
  stdev = none;
  minimum = none;
  maximum = none;
}

abbrev summary_of : ℕ → String → ℕ → ℕ → SummaryStats ℕ → GroupSummary ℕ
summary_of repetition run done lost stats = record {
  group_key = ("repetition", integer repetition) ∷ [];
  run_ids = run ∷ [];
  n_runs = 1;
  n_completed = done;
  n_failed = lost;
  n_valid = 1;
  n_legacy_control_only = 0;
  metrics = ("grounding_score", stats) ∷ [];
}

abbrev report : AggregationReport ℕ
report = record {
  group_by = "repetition" ∷ [];
  hold_constant =
      "scenario_id" ∷ "simulation_seed" ∷ "llm_model" ∷ "llm_temperature" ∷ "max_steps" ∷ [];
  controls_consistent = true;
  control_variance = [];
  include_invalid = false;
  excluded_invalid_runs = 0;
  groups =
      summary_of 1 "r1" 1 0 (stats_of 1000)
      ∷ summary_of 2 "r2" 1 0 (stats_of 1000)
      ∷ summary_of 3 "r3" 0 1 no_stats
      ∷ [];
  source_run_ids = "r1" ∷ "r2" ∷ "r3" ∷ [];
}

reported : aggregate_records runs options ≡ ok report
unfolding aggregate_records check_dimensions variance_of included is_valid is_completed
    is_usable_record controls_held default_controls control_variance entry_of values_of varies
    sorted_entry control_value distinct of_option shown_lt show sort insort check_controls grouped
    group_key_of dimension_value value_named dimensions_of append_at setdefault_then group_lt
    texts_lt str_lt group_summary metric_summary metric_value evaluation_metric attribute_named
    evaluation_attributes attribute_or some_float to_float summarize spread min_from given zip_dict
    dict_set add add_all resolved_metrics join agent_type_value kind_value validity_value
    status_value text_or_nothing boolean_or_nothing decimal digits
reported = refl

aggregate_records-n_runs_example :
    sum_by (λ (g : GroupSummary ℕ). g.n_runs) report.groups + report.excluded_invalid_runs ≡ 3
aggregate_records-n_runs_example = aggregate_records-n_runs runs options reported

aggregate_records-group_example :
    (key : List (Scalar ℕ)) × ((("repetition", integer 3) ∷ []) ≡ zip_dict report.group_by key [])
    × (("r3" ∷ [])
        ≡ map
            (λ (r : ExperimentRecord ℕ). r.run_id)
            (filter (has_key report.group_by key) (included options.include_invalid runs)))
    × ((p : String × Scalar ℕ) (r : ExperimentRecord ℕ)
        → Memᴰ p (("repetition", integer 3) ∷ [])
        → has_key report.group_by key r ≡ true
        → dimension_value r p.0 ≡ ok p.1)
    × (0 + 1 ≡ 1)
    × (1 + 0 ≡ 1)
aggregate_records-group_example =
    aggregate_records-group runs options reported (Memᴰ.tail (Memᴰ.tail (Memᴰ.head refl)))

counted : included false runs ≡ runs
unfolding included is_valid
counted = refl

aggregate_records-same_controls_example :
    control_value wrong_run "simulation_seed" ≡ control_value failed_run "simulation_seed"
aggregate_records-same_controls_example =
    aggregate_records-same_controls runs options {report = report} refl reported
      (Memᴰ.tail (Memᴰ.head refl)) (rw counted (Memᴰ.head refl))
      (rw counted (Memᴰ.tail (Memᴰ.tail (Memᴰ.head refl))))

evaluate_all_hypotheses_total_example :
    (results : List (HypothesisTestResult ℕ)) × (evaluate_all_hypotheses runs ≡ ok results)
    × (map (λ (h : HypothesisTestResult ℕ). h.hypothesis) results
        ≡ map (λ (s : HypothesisSpec). s.id) hypothesis_specs)
evaluate_all_hypotheses_total_example = evaluate_all_hypotheses_total ℕ runs

-- A record of an arm.
abbrev in_arm : String → ExperimentRecord ℕ → ExperimentRecord ℕ
in_arm key r = record r { config = record r.config { architecture_combination_key = some key } }

abbrev comparison : HypothesisSpec
comparison = record {
  id = "H1";
  metric = "conclusion_correctness_score";
  higher_is_better = true;
  treatment_combinations = "kg_historian" ∷ [];
  control_combinations = "historian_only" ∷ [];
}

abbrev compared : List (ExperimentRecord ℕ)
compared = in_arm "historian_only" wrong_run ∷ in_arm "kg_historian" right_run ∷ failed_run ∷ []

abbrev verdict : HypothesisTestResult ℕ
verdict = record {
  hypothesis = "H1";
  metric = "conclusion_correctness_score";
  higher_is_better = true;
  treatment_combinations = "kg_historian" ∷ [];
  control_combinations = "historian_only" ∷ [];
  treatment_run_ids = "r2" ∷ [];
  control_run_ids = "r1" ∷ [];
  treatment_values = 1000 ∷ [];
  control_values = 500 ∷ [];
  treatment_mean = some 1000;
  control_mean = some 500;
  mean_difference = some 500;
  direction_supports_hypothesis = some true;
}

compared_so : evaluate_hypothesis comparison compared ≡ ok verdict
unfolding evaluate_hypothesis arm_values values_along with_value is_in_arm is_usable_record is_valid
    is_completed metric_value evaluation_metric attribute_named evaluation_attributes attribute_or
    some_float to_float text_or_nothing boolean_or_nothing mean_of difference supports direction
    test_result
compared_so = refl

evaluate_hypothesis-arms_example :
    ((t : List (String × ℕ)) × (verdict.treatment_run_ids ≡ map (λ (p : String × ℕ). p.0) t)
      × (verdict.treatment_values ≡ map (λ (p : String × ℕ). p.1) t)
      × ((p : String × ℕ)
          → Memᴰ p t
          → IsListed compared comparison.treatment_combinations comparison.metric p.0 p.1))
    × ((c : List (String × ℕ)) × (verdict.control_run_ids ≡ map (λ (p : String × ℕ). p.0) c)
        × (verdict.control_values ≡ map (λ (p : String × ℕ). p.1) c)
        × ((p : String × ℕ)
            → Memᴰ p c
            → IsListed compared comparison.control_combinations comparison.metric p.0 p.1))
evaluate_hypothesis-arms_example = evaluate_hypothesis-arms comparison compared compared_so
