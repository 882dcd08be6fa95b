-- ===== src/Analysis/Sufficiency.antt =====
-- analysis/_shared.py, and of analysis/sufficiency.py the result of a tested condition and the
-- choice of the minimal sufficient ones. The computation of the scores is left out.
pub mod Minimal
pub mod Report
use industrial_context_aware.Base.{
  ℕ, ◌==◌, string_eq, option_eq, Bool, true, false, ◌&&◌, not, String, Option, none, some, List, [],
  ◌∷◌, map, filter, any, subset, if◌then◌else◌, ltb, nat_beq, Result, ok, err, ◌>>=◌, map_ok,
}
use industrial_context_aware.Base.Sort.{sort, distinct}
use industrial_context_aware.Context.Dimensions.{ContextDimension, dimension_eq}
use industrial_context_aware.Context.Combinations.{ContextCombination, combination_for_id}
use industrial_context_aware.Context.Conditions.{combination_lt}
use industrial_context_aware.Experiment.Models.{
  ExperimentRecord, ExperimentConfig, is_usable_record,
}

pub record ConditionResult (N : Type 0) : Type 0 where
  pub context_combination_id : String
  pub cardinality : ℕ
  pub n_runs : ℕ
  pub scores : List (String × Option N)
  pub meets_threshold : Bool
  pub run_ids : List String

-- `{r.config.context_combination_id for r in records if r.config.context_combination_id}`
unfoldable pub named_ids : List (Option String) → List String
named_ids [] = []
named_ids (none ∷ ids) = named_ids ids
named_ids (some id ∷ ids) = let rest = named_ids ids in if id == "" then rest else id ∷ rest

module _ {N : Type 0} where
  unfoldable pub scoped_to_question :
      Option String → List (ExperimentRecord N) → List (ExperimentRecord N)
  scoped_to_question none records = records
  scoped_to_question (some id) records = filter (λ r. r.config.question_id == some id) records

  unfoldable pub records_for_use_case :
      List (ExperimentRecord N) → String → Option String → List (ExperimentRecord N)
  records_for_use_case records id question_id =
      scoped_to_question question_id (filter (λ r. r.config.use_case_id == some id) records)

  unfoldable pub usable : List (ExperimentRecord N) → List (ExperimentRecord N)
  usable records = filter is_usable_record records

  unfoldable pub tested_combination_ids : List (ExperimentRecord N) → Result (List String)
  tested_combination_ids records = do
    tested ←
        map_ok combination_for_id
          (distinct (named_ids (map (λ r. r.config.context_combination_id) records)))
    ok (map (λ (c : ContextCombination). c.combination_id) (sort combination_lt tested))

unfoldable pub sample_size_label : ℕ → String
sample_size_label n =
    if nat_beq n 0
    then "no_evidence"
    else if nat_beq n 1
    then "single_observation"
    else if ltb n 5
    then "tentative_small_n"
    else "repeated_empirical_result"

-- `other_dims < dims`, between sets.
unfoldable pub is_proper_subset : List ContextDimension → List ContextDimension → Bool
is_proper_subset xs ys = subset xs ys && not (subset ys xs)

-- No other of the combinations has a proper subset of the dimensions.
unfoldable pub is_minimal : List ContextCombination → ContextCombination → Bool
is_minimal sufficient c = not (
    any
      (λ o.
        not (o.combination_id == c.combination_id) && is_proper_subset o.dimensions c.dimensions)
      sufficient)

unfoldable pub sufficient_ids : {N : Type 0} → List (ConditionResult N) → List String
sufficient_ids conditions =
    distinct (map (λ c. c.context_combination_id) (filter (λ c. c.meets_threshold) conditions))

-- `_minimal_sufficient_conditions`
unfoldable pub minimal_sufficient_conditions :
    {N : Type 0} → List (ConditionResult N) → Result (List String)
minimal_sufficient_conditions conditions = do
  sufficient ← map_ok combination_for_id (sufficient_ids conditions)
  ok (
      map (λ (c : ContextCombination). c.combination_id)
        (sort combination_lt (filter (is_minimal sufficient) sufficient)))
