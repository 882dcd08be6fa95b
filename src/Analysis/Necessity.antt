-- ===== src/Analysis/Necessity.antt =====
-- analysis/necessity.py: the comparison of the tested combinations that include a dimension with
-- those that do not.
pub mod Partition
pub mod Findings
use industrial_context_aware.Base.{
  ℕ, Bool, true, false, ◌&&◌, not, ◌==◌, string_eq, Eq, String, Option, none, some, List, [], ◌∷◌,
  filter, contains, is_empty, length, if◌then◌else◌, Result, ok, err, ◌>>=◌, map_ok, leb,
}
use industrial_context_aware.Base.Float.{Float}
use industrial_context_aware.Analysis.Sufficiency.{records_for_use_case, tested_combination_ids}
use industrial_context_aware.Analysis.Sufficiency.Report.{mean_under}
use industrial_context_aware.Context.Combinations.{ContextCombination, combination_for_id}
use industrial_context_aware.Context.Dimensions.{ContextDimension, dimension_eq}
use industrial_context_aware.Experiment.Models.{ExperimentRecord}
use industrial_context_aware.Reporting.Aggregation.{
  GroupSummary, AggregationReport, AggregationOptions, aggregate_records,
}
use industrial_context_aware.Tasks.UseCases.{IndustrialUseCase}

abbrev pub min_runs_per_side : ℕ
min_runs_per_side = 1

pub record DimensionNecessityFinding (N : Type 0) : Type 0 where
  pub dimension : ContextDimension
  pub metric : String
  pub tested_with_dimension : List String
  pub tested_without_dimension : List String
  pub mean_with : Option N
  pub mean_without : Option N
  pub delta : Option N
  pub n_with : ℕ
  pub n_without : ℕ
  pub evidence_status : String

pub record NecessityReport (N : Type 0) : Type 0 where
  pub use_case_id : String
  pub question_id : Option String
  pub metric : String
  pub tested_combinations : List String
  pub total_runs_considered : ℕ
  pub findings : List (DimensionNecessityFinding N)

unfoldable pub keep_if : Bool → String → List String → List String
keep_if true id ids = id ∷ ids
keep_if false id ids = ids

-- The tested ids whose combination's dimensions pass a test.
unfoldable pub ids_where : (List ContextDimension → Bool) → List String → Result (List String)
ids_where p [] = ok []
ids_where p (id ∷ ids) = do
  combination ← combination_for_id id
  rest ← ids_where p ids
  ok (keep_if (p combination.dimensions) id rest)

-- `r.config.context_combination_id in ids`
unfoldable pub is_among : List String → Option String → Bool
is_among ids none = false
is_among ids (some id) = contains ids id

-- The arguments of the calls of `aggregate_records`.
unfoldable pub options_on : String → AggregationOptions
options_on metric = record {
  group_by = "use_case_id" ∷ [];
  metrics = some (metric ∷ []);
  hold_constant = none;
  include_invalid = false;
  allow_heterogeneous_controls = true;
}

unfoldable pub is_given_both : {N : Type 0} → Option N → Option N → Bool
is_given_both (some a) (some b) = true
is_given_both _ _ = false

unfoldable pub has_evidence :
    {N : Type 0} → List String → List String → ℕ → ℕ → Option N → Option N → Bool
has_evidence with_ids without_ids n_with n_without mean_with mean_without =
    not (is_empty with_ids)
    && (not (is_empty without_ids)
        && (leb min_runs_per_side n_with
            && (leb min_runs_per_side n_without && is_given_both mean_with mean_without)))

module _ {N : Type 0} where
  unfoldable pub mean_in_first : String → List (GroupSummary N) → Result (Option N)
  mean_in_first metric [] = ok none
  mean_in_first metric (group ∷ groups) = mean_under metric group.metrics

  unfoldable pub records_of : List (ExperimentRecord N) → List String → List (ExperimentRecord N)
  records_of scoped ids = filter (λ r. is_among ids r.config.context_combination_id) scoped

module _ {N : Type 0} ⦃f : Float N⦄ where
  unfoldable pub delta_if : Bool → Option N → Option N → Option N
  delta_if true (some a) (some b) = some (f.sub a b)
  delta_if _ _ _ = none

  module _ ⦃e : Eq N⦄ (metric : String) (scoped : List (ExperimentRecord N)) where
    -- The runs of one side, counted, with the mean of the metric over them.
    unfoldable pub side_of : List String → Result (ℕ × Option N)
    side_of [] = ok (0, none)
    side_of (id ∷ ids) = do
      report ← aggregate_records (records_of scoped (id ∷ ids)) (options_on metric)
      mean ← mean_in_first metric report.groups
      ok (length (records_of scoped (id ∷ ids)), mean)

    unfoldable pub finding_from :
        ContextDimension
        → List String
        → List String
        → ℕ × Option N
        → ℕ × Option N
        → DimensionNecessityFinding N
    finding_from dimension with_ids without_ids (n_with, mean_with) (n_without, mean_without) =
        let evidence = has_evidence with_ids without_ids n_with n_without mean_with mean_without in
        record {
          dimension = dimension;
          metric = metric;
          tested_with_dimension = with_ids;
          tested_without_dimension = without_ids;
          mean_with = mean_with;
          mean_without = mean_without;
          delta = delta_if evidence mean_with mean_without;
          n_with = n_with;
          n_without = n_without;
          evidence_status = if evidence then "evidence" else "insufficient_evidence";
        }

    unfoldable pub finding_on :
        List String → ContextDimension → Result (DimensionNecessityFinding N)
    finding_on tested dimension = do
      with_ids ← ids_where (λ dimensions. contains dimensions dimension) tested
      without_ids ← ids_where (λ dimensions. not (contains dimensions dimension)) tested
      included ← side_of with_ids
      omitted ← side_of without_ids
      ok (finding_from dimension with_ids without_ids included omitted)

  unfoldable pub analyze_scoped :
      ⦃e : Eq N⦄
      → String
      → Option String
      → List ContextDimension
      → String
      → List (ExperimentRecord N)
      → Result (NecessityReport N)
  analyze_scoped use_case_id question_id candidates metric scoped = do
    tested ← tested_combination_ids scoped
    findings ← map_ok (finding_on metric scoped tested) candidates
    ok (record {
      use_case_id = use_case_id;
      question_id = question_id;
      metric = metric;
      tested_combinations = tested;
      total_runs_considered = length scoped;
      findings = findings;
    })

  unfoldable pub analyze_context_necessity :
      ⦃e : Eq N⦄
      → List (ExperimentRecord N)
      → IndustrialUseCase N
      → String
      → Option String
      → Result (NecessityReport N)
  analyze_context_necessity records use_case metric question_id =
      analyze_scoped use_case.use_case_id question_id use_case.candidate_context metric
        (records_for_use_case records use_case.use_case_id question_id)
