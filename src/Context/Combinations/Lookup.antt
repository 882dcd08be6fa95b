-- ===== src/Context/Combinations/Lookup.antt =====
-- About the lookup of a selection of dimensions in tasks/context_combinations.py.
use mathlib.Core.List.Memᴰ
use mathlib.Core.List.{Memᴰ, cons≢nil}
use mathlib.Core.Path.{fun_ext}
use industrial_context_aware.Base.Sort.{all_distinct, find_of_all_distinct}
use industrial_context_aware.Base.{
  ◌≡◌, refl, ◌≢◌, ap, ◌≤◌, true, false, List, [], ◌∷◌, map, arith, filter, length, contains,
  contains_of_mem, contains-mem, nonempty_subsets, nonempty_subsets_complete, filter-IsSub,
  mem-filter, mem-filter_of_mem, Error, ok, err, value_error, string_eq, is_empty,
}
use industrial_context_aware.Context.Dimensions.{
  value, ContextDimension, canonical_dimension_order, dimension_eq, c1_semantic, c2_asset_hierarchy,
  c3_relational, c4_temporal, c5_operational, c6_procedural, c7_historical,
}
use industrial_context_aware.Context.Combinations.{
  ContextCombination, combination, combination_id_of, canonical_order, all_context_combinations,
  combination_for_id, combination_id_for, combination_for_dimensions, join,
}

ids_distinct :
    all_distinct (map (λ (c : ContextCombination). c.combination_id) all_context_combinations)
    ≡ true
unfolding all_context_combinations nonempty_subsets combination combination_id_of join value
ids_distinct = refl

-- Each dimension stands in the fixed order.
pub mem-canonical : (d : ContextDimension) → Memᴰ d canonical_dimension_order
mem-canonical d = contains-mem d canonical_dimension_order (all_listed d)
  where
    all_listed : (d : ContextDimension) → contains canonical_dimension_order d ≡ true
    all_listed c1_semantic = refl
    all_listed c2_asset_hierarchy = refl
    all_listed c3_relational = refl
    all_listed c4_temporal = refl
    all_listed c5_operational = refl
    all_listed c6_procedural = refl
    all_listed c7_historical = refl

pub mem-canonical_order :
    {d : ContextDimension} (dims : List ContextDimension)
    → Memᴰ d dims
    → Memᴰ d (canonical_order dims)
unfolding canonical_order
mem-canonical_order {d} dims m =
    mem-filter_of_mem (contains dims) canonical_dimension_order (mem-canonical d)
      (contains_of_mem dims m)

pub canonical_order-mem :
    {d : ContextDimension} (dims : List ContextDimension)
    → Memᴰ d (canonical_order dims)
    → Memᴰ d dims
unfolding canonical_order
canonical_order-mem {d} dims m =
    contains-mem d dims (mem-filter (contains dims) canonical_dimension_order m).1

length_pos_of_mem {ℓ} : {A : Type ℓ} {a : A} (xs : List A) → Memᴰ a xs → 1 ≤ length xs
length_pos_of_mem [] m = elim m [ ]
length_pos_of_mem (x ∷ xs) m = omega arith

is_empty_of_pos {ℓ} : {A : Type ℓ} (xs : List A) → 1 ≤ length xs → is_empty xs ≡ false
is_empty_of_pos [] h = absurd (omega arith)
is_empty_of_pos (x ∷ xs) h = refl

canonical_order-pos : (dims : List ContextDimension) → dims ≢ [] → 1 ≤ length (canonical_order dims)
canonical_order-pos [] h = absurd (h refl)
canonical_order-pos (d ∷ dims) h =
    length_pos_of_mem _ (mem-canonical_order (d ∷ dims) (Memᴰ.head refl))

-- A non-empty selection in canonical order is found under its own id.
pub combination_for_id-combination :
    (dims : List ContextDimension)
    → Memᴰ dims (nonempty_subsets canonical_dimension_order)
    → combination_for_id (combination_id_of dims) ≡ ok (combination dims)
unfolding combination_for_id all_context_combinations combination
combination_for_id-combination dims m = rw (
  find_of_all_distinct (λ (c : ContextCombination). c.combination_id) all_context_combinations
      ids_distinct (Memᴰ.map combination m),
  combination_for_id,
)

canonical_order-listed :
    (dims : List ContextDimension)
    → dims ≢ []
    → Memᴰ (canonical_order dims) (nonempty_subsets canonical_dimension_order)
canonical_order-listed dims h =
    nonempty_subsets_complete
      (unfold canonical_order in filter-IsSub (contains dims) canonical_dimension_order)
      (canonical_order-pos dims h)

-- The ids are total: any non-empty list of dimensions, repeated and in any order, has an entry,
-- and it is the entry of exactly those dimensions in the fixed order.
pub combination_for_dimensions_total :
    (dims : List ContextDimension)
    → dims ≢ []
    → combination_for_dimensions dims ≡ ok (combination (canonical_order dims))
unfolding combination_for_dimensions combination_id_for
combination_for_dimensions_total dims h =
    rw (is_empty_of_pos (canonical_order dims) (canonical_order-pos dims h))
      (combination_for_id-combination (canonical_order dims) (canonical_order-listed dims h))

-- Nothing but the empty selection is refused, and as a `ValueError`.
pub combination_for_dimensions-eq-err :
    (dims : List ContextDimension) (e : Error)
    → combination_for_dimensions dims ≡ err e
    → (dims ≡ []) × (e ≡ value_error)
unfolding combination_for_dimensions combination_id_for canonical_order
combination_for_dimensions-eq-err [] e h = (refl, cc)
combination_for_dimensions-eq-err (d ∷ dims) e h =
    absurd (cc (h, combination_for_dimensions_total (d ∷ dims) cons≢nil))

pub canonical_order_cong :
    (xs ys : List ContextDimension)
    → ((d : ContextDimension) → contains xs d ≡ contains ys d)
    → canonical_order xs ≡ canonical_order ys
unfolding canonical_order
canonical_order_cong xs ys h = ap (λ p. filter p canonical_dimension_order) (fun_ext h)

-- Two lists of dimensions with the same members have the same combination and the same id.
pub combination_for_dimensions_cong :
    (xs ys : List ContextDimension)
    → ((d : ContextDimension) → contains xs d ≡ contains ys d)
    → (combination_for_dimensions xs ≡ combination_for_dimensions ys)
      × (combination_id_for xs ≡ combination_id_for ys)
unfolding combination_for_dimensions combination_id_for
combination_for_dimensions_cong xs ys h =
    (rw (canonical_order_cong xs ys h), rw (canonical_order_cong xs ys h))
