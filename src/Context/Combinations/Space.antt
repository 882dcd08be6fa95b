-- ===== src/Context/Combinations/Space.antt =====
-- About the table that tasks/context_combinations.py builds.
use mathlib.Core.List.Memᴰ
use mathlib.Core.List.{Memᴰ}
use mathlib.Core.Path.{subst}
use industrial_context_aware.Base.{
  ◌≡◌, refl, ◌≤◌, List, length, nonempty_subsets, IsSub, mem-nonempty_subsets,
  nonempty_subsets_complete, ok,
}
use industrial_context_aware.Context.Dimensions.{ContextDimension, canonical_dimension_order}
use industrial_context_aware.Context.Combinations.{
  ContextCombination, combination, all_context_combinations, combination_for_id,
}
use industrial_context_aware.Context.Combinations.Lookup.{combination_for_id-combination}

-- There are 2 ^ 7 - 1 of them.
all_context_combinations_count : length all_context_combinations ≡ 127
unfolding all_context_combinations nonempty_subsets combination
all_context_combinations_count = refl

-- Every entry of the table is found under its own id, so no two entries share one.
pub combination_for_id_roundtrip :
    (c : ContextCombination)
    → Memᴰ c all_context_combinations
    → combination_for_id c.combination_id ≡ ok c
unfolding all_context_combinations
combination_for_id_roundtrip c m =
    let (dims, listed, e) =
      Memᴰ.of_map combination (nonempty_subsets canonical_dimension_order) m in
    subst (λ c. combination_for_id c.combination_id ≡ ok c) e
      (unfold combination in combination_for_id-combination dims listed)

-- A selection of dimensions in the fixed order is in the table exactly if it is not empty, and
-- its entry counts its dimensions.
pub all_context_combinations_complete :
    (dims : List ContextDimension)
    → IsSub dims canonical_dimension_order
    → 1 ≤ length dims
    → Memᴰ (combination dims) all_context_combinations
unfolding all_context_combinations
all_context_combinations_complete dims h low =
    Memᴰ.map combination (nonempty_subsets_complete h low)

pub all_context_combinations_sound :
    (c : ContextCombination)
    → Memᴰ c all_context_combinations
    → IsSub c.dimensions canonical_dimension_order
      × (c.cardinality ≡ length c.dimensions)
      × (c ≡ combination c.dimensions)
unfolding all_context_combinations combination
all_context_combinations_sound c m =
    let (dims, listed, e) =
      Memᴰ.of_map combination (nonempty_subsets canonical_dimension_order) m in
    subst
      (λ c.
        IsSub c.dimensions canonical_dimension_order
        × (c.cardinality ≡ length c.dimensions)
        × (c ≡ combination c.dimensions))
      e (mem-nonempty_subsets canonical_dimension_order listed, refl, refl)
