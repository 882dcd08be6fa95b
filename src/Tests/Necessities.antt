-- ===== src/Tests/Necessities.antt =====
-- A use case, and the difference that its records show a dimension to make.
use mathlib.Core.List.{Memᴰ}
use industrial_context_aware.Base.{
  ℕ, nonempty_subsets, nat_eq, string_eq, ◌≡◌, refl, some, none, [], ◌∷◌, List, String, ◌↔◌, ok,
  length, ◌+◌,
}
use industrial_context_aware.Base.Comprehensions.{add_all}
use industrial_context_aware.Base.Decimal.{decimal, digits}
use industrial_context_aware.Base.Dict.{add, setdefault_then}
use industrial_context_aware.Base.Grouping.{append_at}
use industrial_context_aware.Base.Scalars.{of_option, show}
use industrial_context_aware.Base.Sort.{sort, insort, distinct, min_from, str_lt, texts_lt}
use industrial_context_aware.Agent.Calls.{dict_set}
use industrial_context_aware.Analysis.Sufficiency.{
  named_ids, scoped_to_question, records_for_use_case, tested_combination_ids,
}
use industrial_context_aware.Analysis.Sufficiency.Report.{mean_under}
use industrial_context_aware.Analysis.Necessity.{
  DimensionNecessityFinding, NecessityReport, keep_if, ids_where, is_among, options_on,
  is_given_both, has_evidence, mean_in_first, records_of, delta_if, side_of, finding_from,
  finding_on, analyze_scoped, analyze_context_necessity,
}
use industrial_context_aware.Analysis.Necessity.Findings.{
  Includes, Omits, analyze_context_necessity-sides,
}
use industrial_context_aware.Context.Combinations.{
  join, combination_id_of, combination_for_id, all_context_combinations, combination,
}
use industrial_context_aware.Context.Conditions.{combination_lt}
use industrial_context_aware.Context.Dimensions.{c5_operational, value}
use industrial_context_aware.Experiment.Controls.{
  control_value, values_of, varies, sorted_entry, entry_of, control_variance, shown_lt,
}
use industrial_context_aware.Experiment.Metrics.{
  metric_value, evaluation_metric, attribute_named, evaluation_attributes, attribute_or, some_float,
  to_float, text_or_nothing, boolean_or_nothing, status_value, validity_value,
}
use industrial_context_aware.Experiment.Models.{
  ExperimentRecord, is_usable_record, is_valid, is_completed, kind_value,
}
use industrial_context_aware.Reporting.Aggregation.{
  resolved_metrics, default_controls, controls_held, given, zip_dict, group_key_of, grouped,
  group_lt, metric_summary, group_summary, included, variance_of, check_controls, check_dimensions,
  aggregate_records,
}
use industrial_context_aware.Reporting.Aggregation.Dimensions.{
  agent_type_value, dimensions_of, value_named, dimension_value,
}
use industrial_context_aware.Reporting.Stats.{spread, summarize}
use industrial_context_aware.Samples.{thousandths, right_run}
use industrial_context_aware.Tasks.Scenarios.{d1, diagnosis}
use industrial_context_aware.Tasks.UseCases.{IndustrialUseCase}

abbrev studied : IndustrialUseCase ℕ
studied = record {
  use_case_id = "u";
  isa95_level = "equipment";
  task_type = diagnosis;
  required_context = c5_operational ∷ [];
  candidate_context = c5_operational ∷ [];
  success_criteria = record {
    binding_scores = "required_evidence_score" ∷ [];
    pass_threshold = 1000;
  };
  applicable_scenarios = "s" ∷ [];
  difficulty = d1;
}

-- A run of the use case in one context.
abbrev run_with : String → ExperimentRecord ℕ
run_with id = record right_run {
  config = record right_run.config { use_case_id = some "u"; context_combination_id = some id };
}

abbrev both_runs : List (ExperimentRecord ℕ)
both_runs = run_with "C5" ∷ run_with "C1" ∷ []

abbrev difference_found : DimensionNecessityFinding ℕ
difference_found = record {
  dimension = c5_operational;
  metric = "required_evidence_score";
  tested_with_dimension = "C5" ∷ [];
  tested_without_dimension = "C1" ∷ [];
  mean_with = some 1000;
  mean_without = some 1000;
  delta = some 0;
  n_with = 1;
  n_without = 1;
  evidence_status = "evidence";
}

abbrev necessity : NecessityReport ℕ
necessity = record {
  use_case_id = "u";
  question_id = none;
  metric = "required_evidence_score";
  tested_combinations = "C1" ∷ "C5" ∷ [];
  total_runs_considered = 2;
  findings = difference_found ∷ [];
}

analyzed : analyze_context_necessity both_runs studied "required_evidence_score" none ≡ ok necessity
unfolding analyze_context_necessity analyze_scoped finding_on finding_from side_of delta_if
    records_of mean_in_first has_evidence is_given_both options_on is_among ids_where keep_if
    mean_under named_ids scoped_to_question records_for_use_case tested_combination_ids
    combination_for_id combination_id_of join value combination_lt aggregate_records
    check_dimensions variance_of included is_valid is_completed is_usable_record controls_held
    default_controls control_variance entry_of values_of varies sorted_entry control_value distinct
    of_option shown_lt show sort insort check_controls grouped group_key_of dimension_value
    value_named dimensions_of append_at setdefault_then group_lt texts_lt str_lt group_summary
    metric_summary metric_value evaluation_metric attribute_named evaluation_attributes attribute_or
    some_float to_float summarize spread min_from given zip_dict dict_set add add_all
    resolved_metrics agent_type_value kind_value validity_value status_value text_or_nothing
    boolean_or_nothing decimal digits all_context_combinations combination nonempty_subsets
analyzed = refl

analyze_context_necessity-sides_example :
    (Memᴰ "C5" difference_found.tested_with_dimension
      ↔ (Memᴰ "C5" necessity.tested_combinations × Includes c5_operational "C5"))
    × (Memᴰ "C5" difference_found.tested_without_dimension
        ↔ (Memᴰ "C5" necessity.tested_combinations × Omits c5_operational "C5"))
    × (length difference_found.tested_with_dimension
          + length difference_found.tested_without_dimension
        ≡ length necessity.tested_combinations)
analyze_context_necessity-sides_example =
    analyze_context_necessity-sides both_runs studied "required_evidence_score" none "C5" analyzed
      (Memᴰ.head refl)
