-- ===== src/Context/Conditions/Choice.antt =====
-- About the arm that `resolve_condition_architectures` of tasks/context_conditions.py picks.
use mathlib.Core.List.{Memᴰ}
use industrial_context_aware.Base.{
  ℕ, ◌≡◌, refl, ◌≤◌, true, false, String, some, List, [], ◌∷◌, arith, filter, subset, length,
  mem-filter, mem-filter_of_mem, filter-eq-nil, nonempty_subsets, mem-nonempty_subsets,
  nonempty_subsets_complete, IsSub, string_eq,
}
use industrial_context_aware.Base.Sort.{min_from, mem-min_from, min_from-le}
use industrial_context_aware.Context.Dimensions.{
  ContextDimension, dimension_eq, provided_dimensions,
}
use industrial_context_aware.Context.Combinations.{ContextCombination}
use industrial_context_aware.Context.Conditions.{
  exact, overshoot, unrealizable, ArchitectureResolution, sorted_set, extra_of, is_exact,
  is_overshoot, arm_lt, rank_lt, resolve_exact, resolve_overshoot, resolve_unrealizable, pick,
  resolve_condition_architectures,
}

arm_lt_less : (a b : List String) → arm_lt a b ≡ true → length a ≤ length b
unfolding arm_lt
arm_lt_less a b h = ground arith

arm_lt_more : (a b : List String) → arm_lt a b ≡ false → length b ≤ length a
unfolding arm_lt
arm_lt_more a b h = ground arith

module _ (target : List ContextDimension) where
  rank_lt_less :
      (a b : List String)
      → rank_lt target a b ≡ true
      → length (extra_of target a) ≤ length (extra_of target b)
  unfolding rank_lt
  rank_lt_less a b h = ground arith

  rank_lt_more :
      (a b : List String)
      → rank_lt target a b ≡ false
      → length (extra_of target b) ≤ length (extra_of target a)
  unfolding rank_lt
  rank_lt_more a b h = ground arith

  pub is_overshoot_iff :
      (s : List String)
      → is_overshoot target s ≡ true
      → (is_exact target s ≡ false) × (subset target (provided_dimensions s) ≡ true)
  unfolding is_overshoot
  is_overshoot_iff s h = ground arith

  pub is_overshoot_of :
      (s : List String)
      → is_exact target s ≡ false
      → subset target (provided_dimensions s) ≡ true
      → is_overshoot target s ≡ true
  unfolding is_overshoot
  is_overshoot_of s h k = rw (h, k)

module _ (c : ContextCombination) where
  -- A least arm of `arms` by `size`, as the resolution `r` names it.
  abbrev pub Picks : ArchitectureResolution → List (List String) → (List String → ℕ) → Type 0
  Picks r arms size =
      (best : List String) × (r.architectures ≡ some best)
      × Memᴰ best arms
      × ((s : List String) → Memᴰ s arms → size best ≤ size s)

  pick-exact :
      (es os : List (List String)) → (pick c es os).status ≡ exact → Picks (pick c es os) es length
  unfolding pick resolve_exact resolve_overshoot resolve_unrealizable
  pick-exact [] [] h = cc
  pick-exact [] (o ∷ os) h = cc
  pick-exact (a ∷ es) os h = (
    min_from arm_lt a es,
    refl,
    mem-min_from arm_lt a es,
    λ s m. min_from-le arm_lt length arm_lt_less arm_lt_more a es m,
  )

  pick-overshoot :
      (es os : List (List String))
      → (pick c es os).status ≡ overshoot
      → (es ≡ []) × Picks (pick c es os) os (λ s. length (extra_of c.dimensions s))
  unfolding pick resolve_exact resolve_overshoot resolve_unrealizable
  pick-overshoot [] [] h = cc
  pick-overshoot [] (a ∷ os) h = (
    refl,
    (
      min_from (rank_lt c.dimensions) a os,
      refl,
      mem-min_from (rank_lt c.dimensions) a os,
      λ s m.
          min_from-le (rank_lt c.dimensions) (λ s. length (extra_of c.dimensions s))
            (rank_lt_less c.dimensions) (rank_lt_more c.dimensions) a os m,
    ),
  )
  pick-overshoot (a ∷ es) os h = cc

  pub pick-unrealizable :
      (es os : List (List String)) → (pick c es os).status ≡ unrealizable → (es ≡ []) × (os ≡ [])
  unfolding pick resolve_exact resolve_overshoot resolve_unrealizable
  pick-unrealizable [] [] h = (refl, refl)
  pick-unrealizable [] (o ∷ os) h = cc
  pick-unrealizable (a ∷ es) os h = cc

-- An `exact` answer names a part of the sorted available architectures that provides the target
-- and nothing else, and no smaller non-empty part does.
pub resolve_exact_least :
    (c : ContextCombination) (available : List String)
    → (resolve_condition_architectures c available).status ≡ exact
    → (best : List String) × ((resolve_condition_architectures c available).architectures
        ≡ some best)
      × IsSub best (sorted_set available)
      × (is_exact c.dimensions best ≡ true)
      × ((s : List String)
          → IsSub s (sorted_set available)
          → 1 ≤ length s
          → is_exact c.dimensions s ≡ true
          → length best ≤ length s)
unfolding resolve_condition_architectures
resolve_exact_least c available h =
    let arms = nonempty_subsets (sorted_set available) in
    let (best, named, m, least) =
      pick-exact c (filter (is_exact c.dimensions) arms) (filter (is_overshoot c.dimensions) arms)
        h in
    let (listed, fits) = mem-filter (is_exact c.dimensions) arms m in
    (
      best,
      named,
      mem-nonempty_subsets (sorted_set available) listed,
      fits,
      λ s sub low good.
          least s (
            mem-filter_of_mem (is_exact c.dimensions) arms (nonempty_subsets_complete sub low)
              good),
    )

-- An `overshoot` answer names a part of the sorted available architectures that covers the target,
-- when no non-empty part provides it exactly; no other part that covers it brings fewer extra
-- dimensions.
pub resolve_overshoot_least :
    (c : ContextCombination) (available : List String)
    → (resolve_condition_architectures c available).status ≡ overshoot
    → (best : List String) × ((resolve_condition_architectures c available).architectures
        ≡ some best)
      × IsSub best (sorted_set available)
      × (subset c.dimensions (provided_dimensions best) ≡ true)
      × ((s : List String)
          → IsSub s (sorted_set available)
          → 1 ≤ length s
          → (is_exact c.dimensions s ≡ false)
            × (subset c.dimensions (provided_dimensions s) ≡ true
                → length (extra_of c.dimensions best) ≤ length (extra_of c.dimensions s)))
unfolding resolve_condition_architectures
resolve_overshoot_least c available h =
    let arms = nonempty_subsets (sorted_set available) in
    let (no_exact, picked) =
      pick-overshoot c (filter (is_exact c.dimensions) arms)
        (filter (is_overshoot c.dimensions) arms) h in
    let (best, named, m, least) = picked in
    let (listed, fits) = mem-filter (is_overshoot c.dimensions) arms m in
    (
      best,
      named,
      mem-nonempty_subsets (sorted_set available) listed,
      (is_overshoot_iff c.dimensions best fits).1,
      λ s sub low.
          let here = nonempty_subsets_complete sub low in
          let inexact = filter-eq-nil (is_exact c.dimensions) arms no_exact here in
          (
            inexact,
            λ covers. least s (
                mem-filter_of_mem (is_overshoot c.dimensions) arms here
                  (is_overshoot_of c.dimensions s inexact covers)),
          ),
    )
