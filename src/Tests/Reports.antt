-- ===== src/Tests/Reports.antt =====
-- Classified runs, minimal sufficient conditions and catalogued faults.
use mathlib.Core.List.{Memᴰ}
use industrial_context_aware.Base.{
  ℕ, ◌≡◌, ◌↔◌, ◌⊎◌, refl, true, false, String, some, List, [], ◌∷◌, map, count_if, ◌==◌, subset, ok,
  nonempty_subsets, All-mem,
}
use industrial_context_aware.Evaluation.Report.{EvaluationReport}
use industrial_context_aware.Analysis.Taxonomy.{
  classify_one, classify_evaluation, category_of, no_failure, context_not_retrieved,
  representation_failure, grounding_failure,
}
use industrial_context_aware.Analysis.Discoverability.{
  stage_of_evaluation, stage_of, not_reached, discovered_identifier, retrieved_value,
  used_as_evidence, discoverability_breakdown, stage_eq,
}
use industrial_context_aware.Analysis.Discoverability.Ladder.{
  stage_of_evaluation-classify, count_at-discoverability_breakdown,
}
use industrial_context_aware.Base.Counts.{count_at}
use industrial_context_aware.Context.Dimensions.{
  dimension_eq, value, label, c1_semantic, c2_asset_hierarchy, c4_temporal,
}
use industrial_context_aware.Context.Conditions.{combination_lt}
use industrial_context_aware.Base.Sort.{sort, distinct}
use industrial_context_aware.Context.Combinations.{
  ContextCombination, combination_for_id, all_context_combinations, combination, combination_id_of,
  combination_name, join,
}
use industrial_context_aware.Analysis.Sufficiency.{
  ConditionResult, minimal_sufficient_conditions, is_proper_subset, sufficient_ids, is_minimal,
}
use industrial_context_aware.Analysis.Sufficiency.Minimal.{
  minimal_sufficient_conditions-minimal, minimal_sufficient_conditions-covers,
}
use industrial_context_aware.Faults.{
  DisturbanceCharacterization, FaultCatalogEntry, aggregate, is_benchmark_ready, catalog_get,
}
use industrial_context_aware.Faults.Repeatable.{aggregate-listed_iff, aggregate-verified_iff}
use industrial_context_aware.Samples.{
  thousandths, evaluation_of, wrong_run, right_run, failed_run, condition_of, characterization_of,
}

right_run_has_no_failure : (classify_one right_run).category ≡ no_failure
unfolding classify_one category_of classify_evaluation
right_run_has_no_failure = refl

-- Half of the required evidence was retrieved.
abbrev half : EvaluationReport ℕ
half = evaluation_of 500 1000

stage_of_evaluation-classify_example :
    ((classify_evaluation half ≡ context_not_retrieved)
      ↔ (stage_of_evaluation half ≡ discovered_identifier))
    × ((classify_evaluation half ≡ representation_failure)
        ↔ (stage_of_evaluation half ≡ retrieved_value))
    × ((classify_evaluation half ≡ grounding_failure)
        ↔ (stage_of_evaluation half ≡ used_as_evidence))
stage_of_evaluation-classify_example = stage_of_evaluation-classify half refl refl

count_at-discoverability_breakdown_example :
    count_at not_reached (discoverability_breakdown (wrong_run ∷ failed_run ∷ []))
    ≡ some (
        count_if
          (λ s. s == not_reached)
          (map (λ r. stage_of r.status r.evaluation) (wrong_run ∷ failed_run ∷ [])))
count_at-discoverability_breakdown_example =
    count_at-discoverability_breakdown not_reached (wrong_run ∷ failed_run ∷ [])

-- The first dimension alone sufficed, and so did the first two together.
abbrev conditions : List (ConditionResult ℕ)
conditions = condition_of "C1" true ∷ condition_of "C1+C2" true ∷ condition_of "C4" false ∷ []

conditions_known :
    (x : ConditionResult ℕ)
    → Memᴰ x conditions
    → x.meets_threshold ≡ true
    → (c : ContextCombination) × (combination_for_id x.context_combination_id ≡ ok c)
unfolding combination_for_id all_context_combinations combination combination_id_of combination_name
    join value label nonempty_subsets
conditions_known x m meets =
    All-mem
      (λ (y : ConditionResult ℕ).
        y.meets_threshold ≡ true
        → (c : ContextCombination) × (combination_for_id y.context_combination_id ≡ ok c))
      conditions
      (
        (λ e. (combination (c1_semantic ∷ []), refl)),
        (
          (λ e. (combination (c1_semantic ∷ c2_asset_hierarchy ∷ []), refl)),
          ((λ e. (combination (c4_temporal ∷ []), refl)), tt),
        ),
      )
      m meets

minimal_sufficient_conditions-covers_example :
    (ids : List String) × (minimal_sufficient_conditions conditions ≡ ok ids)
    × ((x : ConditionResult ℕ) (c : ContextCombination)
        → Memᴰ x conditions
        → x.meets_threshold ≡ true
        → combination_for_id x.context_combination_id ≡ ok c
        → (id : String) × (b : ContextCombination) × Memᴰ id ids
          × (combination_for_id id ≡ ok b)
          × (subset b.dimensions c.dimensions ≡ true))
minimal_sufficient_conditions-covers_example =
    minimal_sufficient_conditions-covers conditions conditions_known

one_is_minimal : minimal_sufficient_conditions conditions ≡ ok ("C1" ∷ [])
unfolding minimal_sufficient_conditions is_minimal is_proper_subset sufficient_ids
    combination_for_id all_context_combinations combination combination_id_of combination_name join
    value label nonempty_subsets distinct sort combination_lt
one_is_minimal = refl

minimal_sufficient_conditions-minimal_example :
    (c : ContextCombination) × (combination_for_id "C1" ≡ ok c)
    × ((x : ConditionResult ℕ) × Memᴰ x conditions
        × (x.meets_threshold ≡ true)
        × (x.context_combination_id ≡ "C1"))
    × ((y : ConditionResult ℕ) (d : ContextCombination)
        → Memᴰ y conditions
        → y.meets_threshold ≡ true
        → combination_for_id y.context_combination_id ≡ ok d
        → is_proper_subset d.dimensions c.dimensions ≡ false)
minimal_sufficient_conditions-minimal_example =
    minimal_sufficient_conditions-minimal conditions ("C1" ∷ []) one_is_minimal "C1"
      (Memᴰ.head refl)

-- Two seeds of a fault: both moved the pressure, and the second tripped the plant.
abbrev first_seed : DisturbanceCharacterization ℕ
first_seed = characterization_of 1 false ("pressure" ∷ "level" ∷ [])

abbrev second_seed : DisturbanceCharacterization ℕ
second_seed = characterization_of 2 true ("pressure" ∷ [])

abbrev entry : FaultCatalogEntry ℕ
entry = aggregate "idv1" "Feed loss" first_seed (second_seed ∷ []) "1" "today"

aggregate-listed_iff_example :
    Memᴰ "pressure"
      (aggregate "idv1" "Feed loss" first_seed (second_seed ∷ []) "1" "today").affected_measurements
    ↔ ((c : DisturbanceCharacterization ℕ)
        → Memᴰ c (first_seed ∷ second_seed ∷ [])
        → Memᴰ "pressure" c.affected_measurements × (c.icab_injectable ≡ true))
aggregate-listed_iff_example =
    aggregate-listed_iff "idv1" "Feed loss" "1" "today" first_seed (second_seed ∷ []) "pressure"

aggregate-verified_iff_example :
    ((aggregate "idv1" "Feed loss" first_seed (second_seed ∷ []) "1" "today").empirically_verified
      ≡ true)
    ↔ (((c : DisturbanceCharacterization ℕ)
          → Memᴰ c (first_seed ∷ second_seed ∷ [])
          → c.icab_injectable ≡ true)
        × (((c : DisturbanceCharacterization ℕ) × Memᴰ c (first_seed ∷ second_seed ∷ [])
              × (c.plant_tripped ≡ true))
            ⊎ ((a : String) × Memᴰ a
                  (aggregate "idv1" "Feed loss" first_seed
                    (second_seed ∷ [])
                    "1"
                    "today").affected_measurements)))
aggregate-verified_iff_example =
    aggregate-verified_iff "idv1" "Feed loss" "1" "today" first_seed (second_seed ∷ [])

entry_ready : is_benchmark_ready "idv1" (entry ∷ []) ≡ true
unfolding is_benchmark_ready catalog_get aggregate
entry_ready = refl
