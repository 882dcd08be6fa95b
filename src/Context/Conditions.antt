-- ===== src/Context/Conditions.antt =====
-- tasks/context_conditions.py: which architecture arm realises a context combination. The texts of
-- `reason` are left out.
pub mod Choice
pub mod Reach
use industrial_context_aware.Base.{
  ℕ, ◌≡◌, Bool, true, false, ◌&&◌, ◌||◌, not, String, Option, none, some, List, [], ◌∷◌, ◌++◌, map,
  ltb, leb, if◌then◌else◌, filter, length, contains, subset, any, is_empty, string_eq,
  nonempty_subsets, count_if, Result, ok, err, ◌>>=◌,
}
use industrial_context_aware.Base.Sort.{sort, distinct, min_from, str_lt, texts_lt}
use industrial_context_aware.Context.Dimensions.{
  ContextDimension, dimension_eq, canonical_dimension_order, provided_dimensions,
}
use industrial_context_aware.Context.Combinations.{ContextCombination, combination_for_dimensions}

pub data ConditionStatus : Type 0 where
  exact overshoot unrealizable : ConditionStatus

pub record ArchitectureResolution : Type 0 where
  pub combination_id : String
  pub requested_dimensions : List ContextDimension
  pub status : ConditionStatus
  pub architectures : Option (List String)
  pub provided : List ContextDimension
  pub extra_dimensions : List ContextDimension

-- `==` on sets of dimensions.
unfoldable pub same_set : List ContextDimension → List ContextDimension → Bool
same_set xs ys = subset xs ys && subset ys xs

-- `sorted(set(available_architectures))`
unfoldable pub sorted_set : List String → List String
sorted_set available = sort str_lt (distinct available)

-- `provided - target`, for the dimensions that an arm provides.
unfoldable pub extra_of : List ContextDimension → List String → List ContextDimension
extra_of target arm = filter (λ d. not (contains target d)) (provided_dimensions arm)

unfoldable pub is_exact : List ContextDimension → List String → Bool
is_exact target arm = same_set (provided_dimensions arm) target

-- The `elif` of the loop.
unfoldable pub is_overshoot : List ContextDimension → List String → Bool
is_overshoot target arm = not (is_exact target arm) && subset target (provided_dimensions arm)

-- `key=lambda subset: (len(subset), subset)`
unfoldable pub arm_lt : List String → List String → Bool
arm_lt a b =
    if ltb (length a) (length b)
    then true
    else if ltb (length b) (length a)
    then false
    else texts_lt a b

-- `_rank`
unfoldable pub rank_lt : List ContextDimension → List String → List String → Bool
rank_lt target a b =
    if ltb (length (extra_of target a)) (length (extra_of target b))
    then true
    else if ltb (length (extra_of target b)) (length (extra_of target a))
    then false
    else arm_lt a b

unfoldable pub resolve_exact : ContextCombination → List String → ArchitectureResolution
resolve_exact c best = record {
  combination_id = c.combination_id;
  requested_dimensions = c.dimensions;
  status = exact;
  architectures = some best;
  provided = c.dimensions;
  extra_dimensions = [];
}

unfoldable pub resolve_overshoot : ContextCombination → List String → ArchitectureResolution
resolve_overshoot c best = record {
  combination_id = c.combination_id;
  requested_dimensions = c.dimensions;
  status = overshoot;
  architectures = some best;
  provided = filter (contains (provided_dimensions best)) canonical_dimension_order;
  extra_dimensions = filter (contains (extra_of c.dimensions best)) canonical_dimension_order;
}

unfoldable pub resolve_unrealizable : ContextCombination → ArchitectureResolution
resolve_unrealizable c = record {
  combination_id = c.combination_id;
  requested_dimensions = c.dimensions;
  status = unrealizable;
  architectures = none;
  provided = [];
  extra_dimensions = [];
}

-- What follows the loop, on the two lists of candidates.
unfoldable pub pick :
    ContextCombination → List (List String) → List (List String) → ArchitectureResolution
pick c (a ∷ arms) overs = resolve_exact c (min_from arm_lt a arms)
pick c [] (a ∷ arms) = resolve_overshoot c (min_from (rank_lt c.dimensions) a arms)
pick c [] [] = resolve_unrealizable c

unfoldable pub resolve_condition_architectures :
    ContextCombination → List String → ArchitectureResolution
resolve_condition_architectures c available =
    let arms = nonempty_subsets (sorted_set available) in
    pick c (filter (is_exact c.dimensions) arms) (filter (is_overshoot c.dimensions) arms)

-- The loop of `realizable_combinations` over the arms, with the values and keys of `seen` so far.
unfoldable pub collect_seen :
    List (List String)
    → List (List ContextDimension × ContextCombination)
    → Result (List (List ContextDimension × ContextCombination))
collect_seen [] seen = ok seen
collect_seen (arm ∷ arms) seen =
    elim (is_empty (provided_dimensions arm)
      || any
          (λ (entry : List ContextDimension × ContextCombination).
            same_set entry.0 (provided_dimensions arm))
          seen) [
            | true ↦ collect_seen arms seen
            | false ↦ do
              c ← combination_for_dimensions (provided_dimensions arm)
              collect_seen arms (seen ++ (provided_dimensions arm, c) ∷ [])
          ]

-- The sort key `(cardinality, combination_id)`.
unfoldable pub combination_lt : ContextCombination → ContextCombination → Bool
combination_lt a b =
    if ltb a.cardinality b.cardinality
    then true
    else if ltb b.cardinality a.cardinality
    then false
    else str_lt a.combination_id b.combination_id

unfoldable pub realizable_combinations : List String → Result (List ContextCombination)
realizable_combinations available = do
  seen ← collect_seen (nonempty_subsets (sorted_set available)) []
  ok (
      sort combination_lt
        (map (λ (entry : List ContextDimension × ContextCombination). entry.1) seen))
