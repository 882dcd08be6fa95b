-- ===== src/Reporting/Aggregation.antt =====
-- reporting/aggregation.py. The messages of its exceptions are left out.
pub mod Dimensions
pub mod Keys
pub mod Groups
pub mod Held
use industrial_context_aware.Base.{
  ℕ, ◌-◌, Bool, true, false, ◌&&◌, ◌||◌, not, ◌==◌, string_eq, list_eq, Eq, String, Option, none,
  some, List, [], ◌∷◌, ◌++◌, map, filter, all, contains, is_empty, length, count_if, if◌then◌else◌,
  Result, ok, err, value_error, heterogeneous_controls_error, ◌>>=◌, map_ok,
}
use industrial_context_aware.Base.Grouping.{append_at}
use industrial_context_aware.Base.Comprehensions.{add_all, dict_of}
use industrial_context_aware.Base.Float.{Float}
use industrial_context_aware.Base.Scalars.{Scalar, scalar_eq, show}
use industrial_context_aware.Base.Sort.{sort, str_lt, texts_lt}
use industrial_context_aware.Agent.Calls.{dict_set}
use industrial_context_aware.Experiment.Models.{
  ExperimentRecord, is_completed, is_valid, is_usable_record,
}
use industrial_context_aware.Experiment.Metrics.{metric_value, all_metrics}
use industrial_context_aware.Experiment.Controls.{control_fields, control_variance}
use industrial_context_aware.Reporting.Stats.{SummaryStats, summarize}
use Dimensions.{dimension_names, dimension_value}

pub record GroupSummary (N : Type 0) : Type 0 where
  pub group_key : List (String × Scalar N)
  pub run_ids : List String
  pub n_runs : ℕ
  pub n_completed : ℕ
  pub n_failed : ℕ
  pub n_valid : ℕ
  pub n_legacy_control_only : ℕ
  pub metrics : List (String × SummaryStats N)

pub record AggregationReport (N : Type 0) : Type 0 where
  pub group_by : List String
  pub hold_constant : List String
  pub controls_consistent : Bool
  pub control_variance : List (String × List (Scalar N))
  pub include_invalid : Bool
  pub excluded_invalid_runs : ℕ
  pub groups : List (GroupSummary N)
  pub source_run_ids : List String

-- The keyword arguments.
pub record AggregationOptions : Type 0 where
  pub group_by : List String
  pub metrics : Option (List String)
  pub hold_constant : Option (List String)
  pub include_invalid : Bool
  pub allow_heterogeneous_controls : Bool

-- `metrics or tuple(…)`
unfoldable pub resolved_metrics : Option (List String) → List String
resolved_metrics none = all_metrics
resolved_metrics (some []) = all_metrics
resolved_metrics (some (m ∷ metrics)) = m ∷ metrics

-- The controls held constant by default: not the dimensions that are grouped on, and not the seed,
-- which comes with the scenario.
unfoldable pub default_controls : List String → List String
default_controls group_by =
    let fields = filter (λ field. not (contains group_by field)) control_fields in
    if contains group_by "scenario_id"
    then filter (λ field. not (field == "simulation_seed")) fields
    else fields

unfoldable pub controls_held : AggregationOptions → List String
controls_held o = elim o.hold_constant [ none ↦ default_controls o.group_by | some fields ↦ fields ]

unfoldable pub given : {A : Type 0} → List (Option A) → List A
given [] = []
given (none ∷ values) = given values
given (some x ∷ values) = x ∷ given values

-- `dict(zip(group_by, key, strict=True))`
unfoldable pub zip_dict :
    {A : Type 0} → List String → List A → List (String × A) → List (String × A)
zip_dict (name ∷ names) (v ∷ values) dict = zip_dict names values (dict_set name v dict)
zip_dict _ _ dict = dict

unfoldable pub check_dimensions : List String → Result (List String)
check_dimensions [] = err value_error
check_dimensions (d ∷ group_by) =
    if all (contains dimension_names) (d ∷ group_by) then ok (d ∷ group_by) else err value_error

module _ {N : Type 0} where
  unfoldable pub included : Bool → List (ExperimentRecord N) → List (ExperimentRecord N)
  included include_invalid records = filter (λ r. include_invalid || is_valid r.validity) records

  unfoldable pub group_key_of : List String → ExperimentRecord N → Result (List (Scalar N))
  group_key_of group_by r = map_ok (dimension_value r) group_by

module _ {N : Type 0} ⦃f : Float N⦄ ⦃e : Eq N⦄ where
  -- `groups.setdefault(key, []).append(record)`, for each record.
  unfoldable pub grouped :
      List String
      → List (ExperimentRecord N)
      → List (List (Scalar N) × List (ExperimentRecord N))
      → Result (List (List (Scalar N) × List (ExperimentRecord N)))
  grouped group_by [] groups = ok groups
  grouped group_by (r ∷ records) groups = do
    key ← group_key_of group_by r
    grouped group_by records (append_at key r groups)

  unfoldable pub group_lt :
      List (Scalar N) × List (ExperimentRecord N)
      → List (Scalar N) × List (ExperimentRecord N)
      → Bool
  group_lt a b = texts_lt (map show a.0) (map show b.0)

  unfoldable pub metric_summary :
      List (ExperimentRecord N) → String → Result (String × SummaryStats N)
  metric_summary records name = do
    values ← map_ok (λ r. metric_value r name) (filter is_usable_record records)
    ok (name, summarize (given values))

  unfoldable pub group_summary :
      List String
      → List String
      → List (Scalar N) × List (ExperimentRecord N)
      → Result (GroupSummary N)
  group_summary group_by metrics (key, records) = do
    summaries ← map_ok (metric_summary records) (add_all metrics [])
    ok (record {
      group_key = zip_dict group_by key [];
      run_ids = map (λ (r : ExperimentRecord N). r.run_id) records;
      n_runs = length records;
      n_completed = count_if (λ (r : ExperimentRecord N). is_completed r.status) records;
      n_failed = count_if (λ (r : ExperimentRecord N). not (is_completed r.status)) records;
      n_valid = count_if (λ (r : ExperimentRecord N). is_valid r.validity) records;
      n_legacy_control_only =
          count_if (λ (r : ExperimentRecord N). not (is_valid r.validity)) records;
      metrics = summaries;
    })

  -- `control_variance(included, hold_constant) if included and hold_constant else {}`
  unfoldable pub variance_of :
      List (ExperimentRecord N) → List String → Result (List (String × List (Scalar N)))
  variance_of [] held = ok []
  variance_of (r ∷ records) held =
      if is_empty held then ok [] else control_variance (r ∷ records) held

  -- The refusal to aggregate over controls that vary.
  unfoldable pub check_controls :
      Bool → List (String × List (Scalar N)) → Result (List (String × List (Scalar N)))
  check_controls allowed variance =
      if not (is_empty variance) && not allowed
      then err heterogeneous_controls_error
      else ok variance

  unfoldable pub aggregate_records :
      List (ExperimentRecord N) → AggregationOptions → Result (AggregationReport N)
  aggregate_records records o = do
    group_by ← check_dimensions o.group_by
    varied ← variance_of (included o.include_invalid records) (controls_held o)
    variance ← check_controls o.allow_heterogeneous_controls varied
    groups ← grouped group_by (included o.include_invalid records) []
    summaries ← map_ok (group_summary group_by (resolved_metrics o.metrics)) (sort group_lt groups)
    ok (record {
      group_by = group_by;
      hold_constant = controls_held o;
      controls_consistent = is_empty variance;
      control_variance = variance;
      include_invalid = o.include_invalid;
      excluded_invalid_runs = length records - length (included o.include_invalid records);
      groups = summaries;
      source_run_ids = sort str_lt (map (λ (r : ExperimentRecord N). r.run_id) records);
    })
