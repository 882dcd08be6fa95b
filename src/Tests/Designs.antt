-- ===== src/Tests/Designs.antt =====
-- Designed conditions and presets of architectures.
use mathlib.Core.List.{Memᴰ}
use industrial_context_aware.Base.{ℕ, none}
use industrial_context_aware.Base.{
  ◌≡◌, ◌↔◌, refl, true, some, List, [], ◌∷◌, map, length, ok, nonempty_subsets,
}
use industrial_context_aware.Samples.Tasks.{task}
use industrial_context_aware.Tasks.Scenarios.{mode_value}
use industrial_context_aware.Context.Dimensions.{
  ContextDimension, c1_semantic, c2_asset_hierarchy, c3_relational, c4_temporal, c5_operational,
  c6_procedural, c7_historical,
}
use industrial_context_aware.Context.Combinations.{
  ContextCombination, combination, all_context_combinations,
}
use industrial_context_aware.Context.Conditions.{same_set}
use industrial_context_aware.Context.Dimensions.{
  value, provided_dimensions, is_supported, architectures_supporting,
}
use industrial_context_aware.Context.Combinations.{
  combination_for_dimensions, combination_id_for, canonical_order, combination_id_of, join,
}
use industrial_context_aware.Experiment.Models.{ExperimentConfig, llm}
use industrial_context_aware.Benchmark.Execution.{
  RunOptions, agent_kind, config_of, build_experiment_config,
}
use industrial_context_aware.Benchmark.Execution.Config.{build_experiment_config-provided}
use industrial_context_aware.Context.Design.{
  single_dimension_conditions, pairwise_conditions, conditions_of_cardinality, is_permutation,
  prefixes, progressive_conditions, ablation_conditions,
}
use industrial_context_aware.Context.Design.Ablation.{
  exactly, IsAblated, ablation_conditions_total, progressive_conditions_total,
}
use industrial_context_aware.Experiment.Presets.{ArchitectureCombination}

seven_single : length single_dimension_conditions ≡ 7
unfolding single_dimension_conditions conditions_of_cardinality all_context_combinations combination
    nonempty_subsets
seven_single = refl

pairs_of_seven : length pairwise_conditions ≡ 21
unfolding pairwise_conditions conditions_of_cardinality all_context_combinations combination
    nonempty_subsets
pairs_of_seven = refl

abbrev reversed : List ContextDimension
reversed =
    c7_historical ∷ c6_procedural ∷ c5_operational ∷ c4_temporal ∷ c3_relational
    ∷ c2_asset_hierarchy ∷ c1_semantic ∷ []

reversed_permutes : is_permutation reversed ≡ true
unfolding is_permutation same_set
reversed_permutes = refl

prefixes_of_reversed : progressive_conditions (some reversed) ≡ ok (map exactly (prefixes reversed))
prefixes_of_reversed = (progressive_conditions_total reversed reversed_permutes).0

abbrev baseline : ContextCombination
baseline = combination (c1_semantic ∷ c2_asset_hierarchy ∷ [])

ablation_conditions_total_example :
    (conditions : List ContextCombination) × (ablation_conditions baseline
      ≡ ok (baseline ∷ conditions))
    × ((c : ContextCombination)
        → Memᴰ c conditions ↔ IsAblated baseline.dimensions c baseline.dimensions)
ablation_conditions_total_example = ablation_conditions_total baseline

abbrev uns_mqtt : ArchitectureCombination
uns_mqtt = record { key = "uns_mqtt"; label = "UNS + MQTT"; architectures = "uns" ∷ "mqtt" ∷ [] }

abbrev options : RunOptions ℕ
options = record {
  suite = none;
  llm_model = some "model";
  llm_temperature = some 0;
  max_steps = some 10;
  max_tool_calls = none;
  max_context_tokens = none;
  max_wall_time_seconds = none;
}

abbrev config : ExperimentConfig ℕ
config = config_of task ("historian" ∷ []) none "test" options (llm, none) "C4+C5+C7"

config_built : build_experiment_config task ("historian" ∷ []) none "test" "llm" options ≡ ok config
unfolding mode_value build_experiment_config agent_kind combination_id_for canonical_order
    combination_id_of join value provided_dimensions is_supported architectures_supporting
config_built = refl

build_experiment_config-provided_example :
    (config.architectures ≡ "historian" ∷ [])
    × ((c : ContextCombination) × (combination_for_dimensions
            (provided_dimensions config.architectures)
          ≡ ok c)
        × (config.context_combination_id ≡ some c.combination_id))
    × ((config.agent_type ≡ llm) ↔ (config.deterministic_agent ≡ none))
build_experiment_config-provided_example =
    build_experiment_config-provided task ("historian" ∷ []) none "test" "llm" options config
      config_built
