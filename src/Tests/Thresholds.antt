-- ===== src/Tests/Thresholds.antt =====
-- A use case, and the context that its records show to be sufficient.
use mathlib.Core.List.{Memᴰ}
use industrial_context_aware.Base.{
  ℕ, nonempty_subsets, nat_eq, string_eq, ◌≡◌, refl, true, some, none, [], ◌∷◌, ok,
}
use industrial_context_aware.Base.Comprehensions.{add_all}
use industrial_context_aware.Base.Decimal.{decimal, digits}
use industrial_context_aware.Base.Dict.{add, setdefault_then}
use industrial_context_aware.Base.Grouping.{append_at}
use industrial_context_aware.Base.Scalars.{of_option, show}
use industrial_context_aware.Base.Sort.{sort, insort, distinct, min_from, str_lt, texts_lt}
use industrial_context_aware.Agent.Calls.{dict_set}
use industrial_context_aware.Analysis.Sufficiency.{
  ConditionResult, named_ids, scoped_to_question, records_for_use_case, tested_combination_ids,
  is_proper_subset, is_minimal, sufficient_ids, minimal_sufficient_conditions,
}
use industrial_context_aware.Analysis.Sufficiency.Report.{
  SufficiencyReport, first, options_for, mean_under, score_of, scores_of, has_group, reaches,
  condition_from, condition_result, report_on, find_minimum_sufficient_context,
}
use industrial_context_aware.Analysis.Sufficiency.Report.Scored.{
  IsScored, find_minimum_sufficient_context-IsScored,
}
use industrial_context_aware.Context.Combinations.{
  join, combination_id_of, combination_for_id, all_context_combinations, combination,
}
use industrial_context_aware.Context.Conditions.{combination_lt}
use industrial_context_aware.Context.Dimensions.{c5_operational, value}
use industrial_context_aware.Experiment.Controls.{
  control_value, values_of, varies, sorted_entry, entry_of, control_variance, shown_lt,
}
use industrial_context_aware.Experiment.Metrics.{
  metric_value, evaluation_metric, attribute_named, evaluation_attributes, attribute_or, some_float,
  to_float, text_or_nothing, boolean_or_nothing, status_value, validity_value,
}
use industrial_context_aware.Experiment.Models.{
  ExperimentRecord, is_usable_record, is_valid, is_completed, kind_value,
}
use industrial_context_aware.Reporting.Aggregation.{
  resolved_metrics, default_controls, controls_held, given, zip_dict, group_key_of, grouped,
  group_lt, metric_summary, group_summary, included, variance_of, check_controls, check_dimensions,
  aggregate_records,
}
use industrial_context_aware.Reporting.Aggregation.Dimensions.{
  agent_type_value, dimensions_of, value_named, dimension_value,
}
use industrial_context_aware.Reporting.Stats.{spread, summarize}
use industrial_context_aware.Samples.{thousandths, right_run}
use industrial_context_aware.Tasks.Scenarios.{d1, diagnosis}
use industrial_context_aware.Tasks.UseCases.{IndustrialUseCase}

abbrev use_case : IndustrialUseCase ℕ
use_case = record {
  use_case_id = "u";
  isa95_level = "equipment";
  task_type = diagnosis;
  required_context = c5_operational ∷ [];
  candidate_context = c5_operational ∷ [];
  success_criteria = record {
    binding_scores = "required_evidence_score" ∷ [];
    pass_threshold = 1000;
  };
  applicable_scenarios = "s" ∷ [];
  difficulty = d1;
}

-- A run of the use case in one context.
abbrev tested : ExperimentRecord ℕ
tested = record right_run {
  config = record right_run.config { use_case_id = some "u"; context_combination_id = some "C5" };
}

abbrev condition : ConditionResult ℕ
condition = record {
  context_combination_id = "C5";
  cardinality = 1;
  n_runs = 1;
  scores = ("required_evidence_score", some 1000) ∷ [];
  meets_threshold = true;
  run_ids = "r2" ∷ [];
}

abbrev sufficient : SufficiencyReport ℕ
sufficient = record {
  use_case_id = "u";
  question_id = none;
  binding_scores = "required_evidence_score" ∷ [];
  pass_threshold = 1000;
  tested_conditions = condition ∷ [];
  minimum_sufficient_context_among_tested = some "C5";
  candidate_minimum_sufficient_contexts = "C5" ∷ [];
}

found : find_minimum_sufficient_context (tested ∷ []) use_case none ≡ ok sufficient
unfolding find_minimum_sufficient_context report_on condition_result condition_from reaches
    has_group scores_of score_of mean_under options_for first named_ids scoped_to_question
    records_for_use_case tested_combination_ids is_proper_subset is_minimal sufficient_ids
    minimal_sufficient_conditions combination_for_id combination_id_of join value combination_lt
    aggregate_records check_dimensions variance_of included is_valid is_completed is_usable_record
    controls_held default_controls control_variance entry_of values_of varies sorted_entry
    control_value distinct of_option shown_lt show sort insort check_controls grouped group_key_of
    dimension_value value_named dimensions_of append_at setdefault_then group_lt texts_lt str_lt
    group_summary metric_summary metric_value evaluation_metric attribute_named
    evaluation_attributes attribute_or some_float to_float summarize spread min_from given zip_dict
    dict_set add add_all resolved_metrics agent_type_value kind_value validity_value status_value
    text_or_nothing boolean_or_nothing decimal digits all_context_combinations combination
    nonempty_subsets
found = refl

find_minimum_sufficient_context-IsScored_example :
    (c : ConditionResult ℕ) × Memᴰ c sufficient.tested_conditions
    × (c.context_combination_id ≡ "C5")
    × IsScored ("required_evidence_score" ∷ []) 1000 (records_for_use_case (tested ∷ []) "u" none) c
find_minimum_sufficient_context-IsScored_example =
    find_minimum_sufficient_context-IsScored (tested ∷ []) use_case none found (Memᴰ.head refl)
