-- ===== src/Experiment/Hypotheses.antt =====
-- experiments/hypotheses.py: the five comparisons and their evaluation. The statements and the
-- rationales, which are texts to read, are left out.
pub mod Arms
use industrial_context_aware.Base.{
  Bool, true, false, ◌&&◌, ◌==◌, string_eq, String, Option, none, some, List, [], ◌∷◌, ◌++◌, map,
  filter, find, contains, if◌then◌else◌, Result, ok, err, key_error, value_error, ◌>>=◌, map_ok,
}
use industrial_context_aware.Base.Comprehensions.{add_all}
use industrial_context_aware.Base.Float.{Float, float_lt, float_of}
use industrial_context_aware.Experiment.Models.{ExperimentRecord, is_usable_record}
use industrial_context_aware.Experiment.Metrics.{metric_value}

pub record HypothesisSpec : Type 0 where
  pub id : String
  pub metric : String
  pub higher_is_better : Bool
  pub treatment_combinations : List String
  pub control_combinations : List String

abbrev spec : String → String → Bool → String → String → HypothesisSpec
spec id metric higher treatment control = record {
  id = id;
  metric = metric;
  higher_is_better = higher;
  treatment_combinations = treatment ∷ [];
  control_combinations = control ∷ [];
}

unfoldable pub hypothesis_specs : List HypothesisSpec
hypothesis_specs =
    spec "H1" "conclusion_correctness_score" true "kg_historian" "historian_only"
    ∷ spec "H2" "tool_call_count" false "uns_historian_kg" "kg_historian"
    ∷ spec "H3" "relationship_score" true "kg_historian" "historian_only"
    ∷ spec "H4" "information_flow.redundant_acquisition_count" false "kg_historian" "full"
    ∷ spec "H5" "unsupported_numeric_claims_count" false "kg_historian" "historian_only"
    ∷ []

unfoldable pub found_spec : Option HypothesisSpec → Result HypothesisSpec
found_spec none = err value_error
found_spec (some s) = ok s

-- `get_spec`, where the enum refuses an id that is none of its values.
unfoldable pub get_spec : String → Result HypothesisSpec
get_spec id = found_spec (find (λ (s : HypothesisSpec). s.id == id) hypothesis_specs)

unfoldable pub combinations_for_hypothesis : HypothesisSpec → List String
combinations_for_hypothesis s = add_all (s.treatment_combinations ++ s.control_combinations) []

pub record HypothesisTestResult (N : Type 0) : Type 0 where
  pub hypothesis : String
  pub metric : String
  pub higher_is_better : Bool
  pub treatment_combinations : List String
  pub control_combinations : List String
  pub treatment_run_ids : List String
  pub control_run_ids : List String
  pub treatment_values : List N
  pub control_values : List N
  pub treatment_mean : Option N
  pub control_mean : Option N
  pub mean_difference : Option N
  pub direction_supports_hypothesis : Option Bool

module _ {N : Type 0} where
  -- `record.config.architecture_combination_key in combinations`
  unfoldable pub is_in_arm : List String → ExperimentRecord N → Bool
  is_in_arm combinations r = elim r.config.architecture_combination_key [
    | none ↦ false
    | some key ↦ contains combinations key
  ]

  unfoldable pub with_value : String → Option N → List (String × N) → List (String × N)
  with_value run_id none rest = rest
  with_value run_id (some v) rest = (run_id, v) ∷ rest

module _ {N : Type 0} ⦃f : Float N⦄ where
  -- `_arm_values`, as pairs of a run id and a value.
  unfoldable pub values_along : String → List (ExperimentRecord N) → Result (List (String × N))
  values_along metric [] = ok []
  values_along metric (r ∷ records) = do
    v ← metric_value r metric
    rest ← values_along metric records
    ok (with_value r.run_id v rest)

  unfoldable pub arm_values :
      List (ExperimentRecord N) → List String → String → Result (List (String × N))
  arm_values records combinations metric =
      values_along metric (filter (λ r. is_usable_record r && is_in_arm combinations r) records)

  -- `mean(values) if values else None`
  unfoldable pub mean_of : List N → Option N
  mean_of [] = none
  mean_of (x ∷ values) = some (f.mean (x ∷ values))

  unfoldable pub difference : Option N → Option N → Option N
  difference (some t) (some c) = some (f.sub t c)
  difference _ _ = none

  -- Strictly on the predicted side of zero.
  unfoldable pub supports : Bool → N → Bool
  supports true d = float_lt (float_of 0) d
  supports false d = float_lt d (float_of 0)

  unfoldable pub direction : Bool → Option N → Option Bool
  direction higher none = none
  direction higher (some d) = some (supports higher d)

  unfoldable pub test_result :
      HypothesisSpec → List (String × N) → List (String × N) → HypothesisTestResult N
  test_result s treatment control =
      let treatment_values = map (λ (p : String × N). p.1) treatment in
      let control_values = map (λ (p : String × N). p.1) control in
      let d = difference (mean_of treatment_values) (mean_of control_values) in
      record {
        hypothesis = s.id;
        metric = s.metric;
        higher_is_better = s.higher_is_better;
        treatment_combinations = s.treatment_combinations;
        control_combinations = s.control_combinations;
        treatment_run_ids = map (λ (p : String × N). p.0) treatment;
        control_run_ids = map (λ (p : String × N). p.0) control;
        treatment_values = treatment_values;
        control_values = control_values;
        treatment_mean = mean_of treatment_values;
        control_mean = mean_of control_values;
        mean_difference = d;
        direction_supports_hypothesis = direction s.higher_is_better d;
      }

  unfoldable pub evaluate_hypothesis :
      HypothesisSpec → List (ExperimentRecord N) → Result (HypothesisTestResult N)
  evaluate_hypothesis s records = do
    treatment ← arm_values records s.treatment_combinations s.metric
    control ← arm_values records s.control_combinations s.metric
    ok (test_result s treatment control)

  unfoldable pub evaluate_all_hypotheses :
      List (ExperimentRecord N) → Result (List (HypothesisTestResult N))
  evaluate_all_hypotheses records = map_ok (λ s. evaluate_hypothesis s records) hypothesis_specs
