-- ===== src/Tests/Contexts.antt =====
-- Context combinations and the architectures that realise them.
use mathlib.Core.List.{Memᴰ, cons≢nil}
use industrial_context_aware.Base.{
  ◌≤◌, ◌≡◌, ◌≢◌, ◌↔◌, refl, arith, true, false, String, some, List, [], ◌∷◌, length, subset,
  contains, IsSub, ok, nonempty_subsets, string_eq,
}
use industrial_context_aware.Base.Sort.{sort, distinct, min_from, str_lt}
use industrial_context_aware.Context.Dimensions.{
  ContextDimension, c1_semantic, c4_temporal, c5_operational, c7_historical, dimension_eq,
  provided_dimensions, unsupported_dimensions, is_supported, architectures_supporting,
  canonical_dimension_order,
}
use industrial_context_aware.Context.Combinations.{
  ContextCombination, combination, canonical_order, combination_for_dimensions, combination_for_id,
  all_context_combinations,
}
use industrial_context_aware.Context.Combinations.Lookup.{combination_for_dimensions_total}
use industrial_context_aware.Context.Combinations.Space.{
  combination_for_id_roundtrip, all_context_combinations_complete,
}
use industrial_context_aware.Context.Conditions.{
  exact, overshoot, unrealizable, resolve_condition_architectures, sorted_set, is_exact, extra_of,
  is_overshoot, same_set, arm_lt, rank_lt, pick, resolve_exact, resolve_overshoot,
  resolve_unrealizable,
}
use industrial_context_aware.Context.Conditions.Choice.{
  resolve_exact_least, resolve_overshoot_least,
}
use industrial_context_aware.Context.Conditions.Reach.{resolve-unrealizable_iff}

-- What a historian alone provides.
abbrev history : ContextCombination
history = combination (c4_temporal ∷ c5_operational ∷ c7_historical ∷ [])

abbrev temporal : ContextCombination
temporal = combination (c4_temporal ∷ [])

abbrev arms : List String
arms = "mqtt" ∷ "historian" ∷ []

history_is_exact : (resolve_condition_architectures history arms).status ≡ exact
unfolding sort distinct min_from str_lt provided_dimensions is_supported architectures_supporting
    combination resolve_condition_architectures sorted_set is_exact extra_of is_overshoot same_set
    arm_lt rank_lt pick resolve_exact resolve_overshoot resolve_unrealizable nonempty_subsets
history_is_exact = refl

resolve_exact_least_example :
    (best : List String) × ((resolve_condition_architectures history arms).architectures
      ≡ some best)
    × IsSub best (sorted_set arms)
    × (is_exact history.dimensions best ≡ true)
    × ((s : List String)
        → IsSub s (sorted_set arms)
        → 1 ≤ length s
        → is_exact history.dimensions s ≡ true
        → length best ≤ length s)
resolve_exact_least_example = resolve_exact_least history arms history_is_exact

temporal_is_overshoot : (resolve_condition_architectures temporal arms).status ≡ overshoot
unfolding sort distinct min_from str_lt provided_dimensions is_supported architectures_supporting
    combination resolve_condition_architectures sorted_set is_exact extra_of is_overshoot same_set
    arm_lt rank_lt pick resolve_exact resolve_overshoot resolve_unrealizable nonempty_subsets
temporal_is_overshoot = refl

resolve_overshoot_least_example :
    (best : List String) × ((resolve_condition_architectures temporal arms).architectures
      ≡ some best)
    × IsSub best (sorted_set arms)
    × (subset temporal.dimensions (provided_dimensions best) ≡ true)
    × ((s : List String)
        → IsSub s (sorted_set arms)
        → 1 ≤ length s
        → (is_exact temporal.dimensions s ≡ false)
          × (subset temporal.dimensions (provided_dimensions s) ≡ true
              → length (extra_of temporal.dimensions best)
                ≤ length (extra_of temporal.dimensions s)))
resolve_overshoot_least_example = resolve_overshoot_least temporal arms temporal_is_overshoot

some_dimension : temporal.dimensions ≢ []
unfolding combination
some_dimension = cons≢nil

one_given : (c4_temporal ∷ []) ≢ []
one_given = cons≢nil

resolve-unrealizable_iff_example :
    ((resolve_condition_architectures temporal ("mqtt" ∷ [])).status ≡ unrealizable)
    ↔ (unsupported_dimensions temporal.dimensions ("mqtt" ∷ []) ≢ [])
resolve-unrealizable_iff_example = resolve-unrealizable_iff temporal ("mqtt" ∷ []) some_dimension

combination_for_dimensions_total_example :
    combination_for_dimensions (c4_temporal ∷ [])
    ≡ ok (combination (canonical_order (c4_temporal ∷ [])))
combination_for_dimensions_total_example =
    combination_for_dimensions_total (c4_temporal ∷ []) one_given

swapped :
    (d : ContextDimension)
    → contains (c1_semantic ∷ c4_temporal ∷ []) d ≡ contains (c4_temporal ∷ c1_semantic ∷ []) d
swapped d = ground arith

one_kept : IsSub (c1_semantic ∷ []) canonical_dimension_order
one_kept =
    IsSub.keep
      (IsSub.skip (IsSub.skip (IsSub.skip (IsSub.skip (IsSub.skip (IsSub.skip IsSub.done))))))

one_dimension : 1 ≤ length (c1_semantic ∷ [])
one_dimension = omega arith

first_listed : Memᴰ (combination (c1_semantic ∷ [])) all_context_combinations
unfolding all_context_combinations nonempty_subsets
first_listed = Memᴰ.head refl

all_context_combinations_complete_example :
    Memᴰ (combination (c1_semantic ∷ [])) all_context_combinations
all_context_combinations_complete_example =
    all_context_combinations_complete (c1_semantic ∷ []) one_kept one_dimension

combination_for_id_roundtrip_example :
    combination_for_id (combination (c1_semantic ∷ [])).combination_id
    ≡ ok (combination (c1_semantic ∷ []))
combination_for_id_roundtrip_example =
    combination_for_id_roundtrip (combination (c1_semantic ∷ [])) first_listed

some_arms : subset ("mqtt" ∷ []) arms ≡ true
some_arms = refl
