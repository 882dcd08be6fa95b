-- ===== src/Context/Combinations.antt =====
-- tasks/context_combinations.py: the 127 non-empty combinations and their canonical ids.
pub mod Space
pub mod Lookup
use industrial_context_aware.Base.{
  ℕ, ◌≡◌, refl, Bool, String, ◌<>◌, Option, none, some, List, [], ◌∷◌, map, ◌==◌, string_eq, filter,
  length, contains, nonempty_subsets, Result, ok, err, key_error, value_error, ◌>>=◌, find,
  is_empty, if◌then◌else◌,
}
use industrial_context_aware.Context.Dimensions.{
  ContextDimension, canonical_dimension_order, value, label, dimension_eq,
}

pub record ContextCombination : Type 0 where
  pub combination_id : String
  pub dimensions : List ContextDimension
  pub cardinality : ℕ
  pub name : String

-- `sep.join(texts)`
unfoldable pub join : String → List String → String
join sep [] = ""
join sep (t ∷ []) = t
join sep (t ∷ u ∷ ts) = t <> (sep <> join sep (u ∷ ts))

unfoldable pub combination_id_of : List ContextDimension → String
combination_id_of dims = join "+" (map value dims)

unfoldable pub combination_name : List ContextDimension → String
combination_name dims = join " + " (map label dims)

-- Repetitions dropped, in the fixed order.
unfoldable pub canonical_order : List ContextDimension → List ContextDimension
canonical_order dims = filter (contains dims) canonical_dimension_order

-- The entry for one subset.
unfoldable pub combination : List ContextDimension → ContextCombination
combination dims = record {
  combination_id = combination_id_of dims;
  dimensions = dims;
  cardinality = length dims;
  name = combination_name dims;
}

unfoldable pub all_context_combinations : List ContextCombination
all_context_combinations = map combination (nonempty_subsets canonical_dimension_order)

unfoldable pub combination_for_id : String → Result ContextCombination
combination_for_id id = elim (find (λ c. c.combination_id == id) all_context_combinations) [
  | none ↦ err key_error
  | some c ↦ ok c
]

unfoldable pub combination_id_for : List ContextDimension → Result String
combination_id_for dims =
    if is_empty (canonical_order dims)
    then err value_error
    else ok (combination_id_of (canonical_order dims))

unfoldable pub combination_for_dimensions : List ContextDimension → Result ContextCombination
combination_for_dimensions dims = do id ← combination_id_for dims; combination_for_id id
