-- ===== src/Context/Conditions/Reach.antt =====
-- About the branch of `resolve_condition_architectures` that offers no arm.
use mathlib.Core.List.{Memᴰ}
use industrial_context_aware.Base.{
  ◌≡◌, refl, ◌≢◌, ◌↔◌, ◌≤◌, true, String, List, [], ◌∷◌, arith, filter, contains, subset, length,
  nonempty_subsets, nonempty_subsets_complete, IsSub, IsSub-refl, IsSub-mem, filter-eq-nil,
  all_of_mem, all-mem, contains-mem, contains_of_mem, string_eq,
}
use industrial_context_aware.Base.Sort.{
  sort-mem, mem-sort, distinct-mem, mem-distinct, str_lt, distinct,
}
use industrial_context_aware.Context.Dimensions.{
  ContextDimension, dimension_eq, provided_dimensions, unsupported_dimensions, is_supported,
  architectures_supporting,
}
use industrial_context_aware.Context.Dimensions.Coverage.{
  unsupported_dimensions-eq-nil_iff, provided_dimensions_mono,
}
use industrial_context_aware.Context.Combinations.{ContextCombination}
use industrial_context_aware.Context.Conditions.{
  ConditionStatus, exact, overshoot, unrealizable, sorted_set, is_exact, is_overshoot, same_set,
  resolve_condition_architectures,
}
use industrial_context_aware.Context.Conditions.Choice.{
  pick-unrealizable, is_overshoot_of, resolve_exact_least, resolve_overshoot_least,
}

subset_trans :
    (xs ys zs : List ContextDimension)
    → subset xs ys ≡ true
    → subset ys zs ≡ true
    → subset xs zs ≡ true
subset_trans xs ys zs h k =
    all_of_mem (contains zs) xs
      λ d m. all-mem (contains zs) ys k (contains-mem d ys (all-mem (contains ys) xs h m))

mem-sorted_set : {a : String} (xs : List String) → Memᴰ a (sorted_set xs) → Memᴰ a xs
unfolding sorted_set
mem-sorted_set xs m = mem-distinct xs (mem-sort str_lt (distinct xs) m)

sorted_set-mem : {a : String} (xs : List String) → Memᴰ a xs → Memᴰ a (sorted_set xs)
unfolding sorted_set
sorted_set-mem xs m = sort-mem str_lt (distinct xs) (distinct-mem xs m)

-- A part of the sorted architectures provides no more than all of them.
pub provided-sub :
    {arm : List String} (available : List String)
    → IsSub arm (sorted_set available)
    → subset (provided_dimensions arm) (provided_dimensions available) ≡ true
provided-sub {arm} available sub = provided_dimensions_mono arm available (
    all_of_mem (contains available) arm
      (λ a m. contains_of_mem available (mem-sorted_set available (IsSub-mem sub m))))

provided-sorted_set :
    (available : List String)
    → subset (provided_dimensions available) (provided_dimensions (sorted_set available)) ≡ true
provided-sorted_set available = provided_dimensions_mono available (sorted_set available) (
    all_of_mem (contains (sorted_set available)) available
      (λ a m. contains_of_mem (sorted_set available) (sorted_set-mem available m)))

provided-nil : provided_dimensions [] ≡ []
unfolding provided_dimensions is_supported architectures_supporting
provided-nil = refl

pub subset-nil : (xs : List ContextDimension) → subset xs [] ≡ true → xs ≡ []
subset-nil [] h = refl
subset-nil (x ∷ xs) h = cc

length_pos_of_covers :
    (target : List ContextDimension) (arm : List String)
    → target ≢ []
    → subset target (provided_dimensions arm) ≡ true
    → 1 ≤ length arm
length_pos_of_covers target [] some_target h =
    absurd (some_target (subset-nil target (rw provided-nil at h)))
length_pos_of_covers target (a ∷ arm) some_target h = omega arith

unrealizable_misses :
    (c : ContextCombination) (available : List String)
    → c.dimensions ≢ []
    → (resolve_condition_architectures c available).status ≡ unrealizable
    → unsupported_dimensions c.dimensions available ≢ []
unfolding resolve_condition_architectures
unrealizable_misses c available some_target h supported =
    let all_arms = sorted_set available in
    let arms = nonempty_subsets all_arms in
    let (no_exact, no_over) =
      pick-unrealizable c (filter (is_exact c.dimensions) arms)
        (filter (is_overshoot c.dimensions) arms) h in
    let covers =
      subset_trans c.dimensions (provided_dimensions available) (provided_dimensions all_arms)
        ((unsupported_dimensions-eq-nil_iff c.dimensions available).0 supported)
        (provided-sorted_set available) in
    let here =
      nonempty_subsets_complete (IsSub-refl all_arms)
        (length_pos_of_covers c.dimensions all_arms some_target covers) in
    let inexact = filter-eq-nil (is_exact c.dimensions) arms no_exact here in
    cc (
      filter-eq-nil (is_overshoot c.dimensions) arms no_over here,
      is_overshoot_of c.dimensions all_arms inexact covers,
    )

covers_of_exact :
    (target : List ContextDimension) (arm : List String)
    → is_exact target arm ≡ true
    → subset target (provided_dimensions arm) ≡ true
unfolding is_exact same_set
covers_of_exact target arm h = ground arith

missing_unrealizable :
    (c : ContextCombination) (available : List String) (s : ConditionStatus)
    → (resolve_condition_architectures c available).status ≡ s
    → unsupported_dimensions c.dimensions available ≢ []
    → s ≡ unrealizable
missing_unrealizable c available exact h missing =
    let (best, named, sub, fits, least) = resolve_exact_least c available h in
    absurd (
      missing (
        (unsupported_dimensions-eq-nil_iff c.dimensions available).1 (
          subset_trans c.dimensions (provided_dimensions best) (provided_dimensions available)
            (covers_of_exact c.dimensions best fits) (provided-sub available sub))))
missing_unrealizable c available overshoot h missing =
    let (best, named, sub, covers, least) = resolve_overshoot_least c available h in
    absurd (
      missing (
        (unsupported_dimensions-eq-nil_iff c.dimensions available).1 (
          subset_trans c.dimensions (provided_dimensions best) (provided_dimensions available)
            covers (provided-sub available sub))))
missing_unrealizable c available unrealizable h missing = refl

-- A combination of at least one dimension is `unrealizable` exactly if the available architectures
-- leave one of its dimensions unsupported.
pub resolve-unrealizable_iff :
    (c : ContextCombination) (available : List String)
    → c.dimensions ≢ []
    → ((resolve_condition_architectures c available).status ≡ unrealizable)
      ↔ (unsupported_dimensions c.dimensions available ≢ [])
resolve-unrealizable_iff c available some_target = (
  unrealizable_misses c available some_target,
  missing_unrealizable c available (resolve_condition_architectures c available).status refl,
)
