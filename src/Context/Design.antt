-- ===== src/Context/Design.antt =====
-- tasks/experiment_design.py: the strategies that select the conditions of an experiment.
pub mod Ablation
use industrial_context_aware.Base.{
  ℕ, zero, suc, Bool, true, false, ◌&&◌, ◌||◌, not, String, Option, none, some, List, [], ◌∷◌, ◌++◌,
  map, filter, length, subset, is_empty, nat_beq, ◌==◌, if◌then◌else◌, Result, ok, err, value_error,
  ◌>>=◌, map_ok,
}
use industrial_context_aware.Context.Dimensions.{
  ContextDimension, dimension_eq, canonical_dimension_order,
}
use industrial_context_aware.Context.Combinations.{
  ContextCombination, all_context_combinations, combination_for_dimensions, combination_for_id,
}
use industrial_context_aware.Context.Conditions.{same_set}

pub data DesignStrategy : Type 0 where
  single pairwise progressive targeted ablation replay : DesignStrategy

-- The combinations of a cardinality, which both strategies below filter out of the table.
unfoldable pub conditions_of_cardinality : ℕ → List ContextCombination
conditions_of_cardinality n = filter (λ c. nat_beq c.cardinality n) all_context_combinations

unfoldable pub single_dimension_conditions : List ContextCombination
single_dimension_conditions = conditions_of_cardinality 1

unfoldable pub pairwise_conditions : List ContextCombination
pairwise_conditions = conditions_of_cardinality 2

-- `[sequence[:n] for n in range(1, len(sequence) + 1)]`
unfoldable pub prefixes : List ContextDimension → List (List ContextDimension)
prefixes [] = []
prefixes (d ∷ dims) = (d ∷ []) ∷ map (λ rest. d ∷ rest) (prefixes dims)

-- The test on the order; the library compares the two as sets, and their lengths.
unfoldable pub is_permutation : List ContextDimension → Bool
is_permutation sequence =
    same_set sequence canonical_dimension_order
    && nat_beq (length sequence) (length canonical_dimension_order)

unfoldable pub progressive_along : List ContextDimension → Result (List ContextCombination)
progressive_along sequence =
    if is_permutation sequence
    then map_ok combination_for_dimensions (prefixes sequence)
    else err value_error

unfoldable pub progressive_conditions :
    Option (List ContextDimension) → Result (List ContextCombination)
progressive_conditions none = progressive_along canonical_dimension_order
progressive_conditions (some order) = progressive_along order

unfoldable pub targeted_conditions : List String → Result (List ContextCombination)
targeted_conditions ids = map_ok combination_for_id ids

-- `[d for d in dimensions if d != removed]`
unfoldable pub without : ContextDimension → List ContextDimension → List ContextDimension
without removed dims = filter (λ d. not (d == removed)) dims

-- `if remaining: conditions.append(combination_for_dimensions(remaining))`
unfoldable pub condition_of_remaining : List ContextDimension → Result (List ContextCombination)
condition_of_remaining [] = ok []
condition_of_remaining (d ∷ remaining) = do
  c ← combination_for_dimensions (d ∷ remaining)
  ok (c ∷ [])

-- The loop over the removed dimensions.
unfoldable pub ablated :
    List ContextDimension → List ContextDimension → Result (List ContextCombination)
ablated dims [] = ok []
ablated dims (removed ∷ others) = do
  appended ← condition_of_remaining (without removed dims)
  rest ← ablated dims others
  ok (appended ++ rest)

unfoldable pub ablation_conditions : ContextCombination → Result (List ContextCombination)
ablation_conditions baseline = do
  conditions ← ablated baseline.dimensions baseline.dimensions
  ok (baseline ∷ conditions)

-- `ContextCombination | str`
pub data Baseline : Type 0 where
  as_combination : ContextCombination → Baseline
  as_id : String → Baseline

unfoldable pub resolve_baseline : Baseline → Result ContextCombination
resolve_baseline (as_combination c) = ok c
resolve_baseline (as_id id) = combination_for_id id

unfoldable pub generate_conditions :
    DesignStrategy
    → Option (List String)
    → Option Baseline
    → Option (List ContextDimension)
    → Result (List ContextCombination)
generate_conditions single targets baseline order = ok single_dimension_conditions
generate_conditions pairwise targets baseline order = ok pairwise_conditions
generate_conditions progressive targets baseline order = progressive_conditions order
generate_conditions targeted none baseline order = err value_error
generate_conditions targeted (some []) baseline order = err value_error
generate_conditions targeted (some (id ∷ ids)) baseline order = targeted_conditions (id ∷ ids)
generate_conditions ablation targets none order = err value_error
generate_conditions ablation targets (some baseline) order = do
  c ← resolve_baseline baseline
  ablation_conditions c
generate_conditions replay targets baseline order = err value_error
