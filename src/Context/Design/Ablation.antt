-- ===== src/Context/Design/Ablation.antt =====
-- About the progressive and the ablation strategies of tasks/experiment_design.py.
use mathlib.Core.List.Memᴰ
use mathlib.Core.List.{Memᴰ, cons≢nil}
use mathlib.Core.Path.{subst}
use industrial_context_aware.Base.{
  suc, ◌≡◌, ◌≢◌, ◌↔◌, refl, sym, ap, ◌∙◌, arith, true, not, some, List, [], ◌∷◌, ◌++◌, map, length,
  ◌==◌, inl, inr, mem-filter, length-map, ok, map_ok_of_all,
}
use industrial_context_aware.Context.Dimensions.{ContextDimension, dimension_eq}
use industrial_context_aware.Context.Combinations.{
  ContextCombination, combination, canonical_order, combination_for_dimensions,
}
use industrial_context_aware.Context.Combinations.Lookup.{combination_for_dimensions_total}
use industrial_context_aware.Context.Design.{
  prefixes, is_permutation, progressive_along, progressive_conditions, without,
  condition_of_remaining, ablated, ablation_conditions,
}

-- The combination of exactly some dimensions.
abbrev pub exactly : List ContextDimension → ContextCombination
exactly dims = combination (canonical_order dims)

-- What is appended for the dimensions that remain.
remaining_conditions : List ContextDimension → List ContextCombination
remaining_conditions [] = []
remaining_conditions (d ∷ dims) = exactly (d ∷ dims) ∷ []

condition_of_remaining_total :
    (dims : List ContextDimension) → condition_of_remaining dims ≡ ok (remaining_conditions dims)
unfolding condition_of_remaining remaining_conditions
condition_of_remaining_total [] = refl
condition_of_remaining_total (d ∷ dims) = rw (combination_for_dimensions_total (d ∷ dims) cons≢nil)

all_remaining : List ContextDimension → List ContextDimension → List ContextCombination
all_remaining dims [] = []
all_remaining dims (removed ∷ others) =
    remaining_conditions (without removed dims) ++ all_remaining dims others

ablated_total :
    (dims others : List ContextDimension) → ablated dims others ≡ ok (all_remaining dims others)
unfolding ablated all_remaining
ablated_total dims [] = refl
ablated_total dims (removed ∷ others) =
    rw (condition_of_remaining_total (without removed dims), ablated_total dims others)

mem-remaining_conditions :
    (c : ContextCombination) (dims : List ContextDimension)
    → Memᴰ c (remaining_conditions dims)
    → (dims ≢ []) × (c ≡ exactly dims)
unfolding remaining_conditions
mem-remaining_conditions c [] m = elim m [ ]
mem-remaining_conditions c (d ∷ dims) m = (cons≢nil, Memᴰ.eq_of_singleton m)

remaining_conditions-mem :
    (c : ContextCombination) (dims : List ContextDimension)
    → dims ≢ []
    → c ≡ exactly dims
    → Memᴰ c (remaining_conditions dims)
unfolding remaining_conditions
remaining_conditions-mem c [] some_left e = absurd (some_left refl)
remaining_conditions-mem c (d ∷ dims) some_left e = Memᴰ.head e

module _ (dims : List ContextDimension) (c : ContextCombination) where
  -- `c` is what remains when one of the dimensions is removed, and something does remain.
  abbrev pub IsAblated : List ContextDimension → Type 0
  IsAblated others =
      (removed : ContextDimension) × Memᴰ removed others
      × (without removed dims ≢ [])
      × (c ≡ exactly (without removed dims))

  mem-all_remaining :
      (others : List ContextDimension) → Memᴰ c (all_remaining dims others) → IsAblated others
  unfolding all_remaining
  mem-all_remaining [] m = elim m [ ]
  mem-all_remaining (removed ∷ others) m =
      elim (Memᴰ.append_cases (remaining_conditions (without removed dims)) m) [
        | inl here ↦
            let (left, e) = mem-remaining_conditions c (without removed dims) here in
            (removed, Memᴰ.head refl, left, e)
        | inr later ↦
            let (other, listed, left, e) = mem-all_remaining others later in
            (other, Memᴰ.tail listed, left, e)
      ]

  all_remaining-mem :
      (others : List ContextDimension) → IsAblated others → Memᴰ c (all_remaining dims others)
  unfolding all_remaining
  all_remaining-mem [] (removed, m, left, e) = elim m [ ]
  all_remaining-mem (first ∷ others) (removed, Memᴰ.head same, left, e) =
      Memᴰ.append_left (all_remaining dims others) (
        remaining_conditions-mem c (without first dims) (subst (λ d. without d dims ≢ []) same left)
          (subst (λ d. c ≡ exactly (without d dims)) same e))
  all_remaining-mem (first ∷ others) (removed, Memᴰ.tail m, left, e) =
      Memᴰ.append_right (remaining_conditions (without first dims))
        (all_remaining-mem others (removed, m, left, e))

-- An ablation never fails: it returns the baseline, and then exactly the combinations of the
-- dimensions that remain when one of the baseline's is removed and something is left.
pub ablation_conditions_total :
    (baseline : ContextCombination)
    → (conditions : List ContextCombination) × (ablation_conditions baseline
        ≡ ok (baseline ∷ conditions))
      × ((c : ContextCombination)
          → Memᴰ c conditions ↔ IsAblated baseline.dimensions c baseline.dimensions)
unfolding ablation_conditions
ablation_conditions_total baseline = (
  all_remaining baseline.dimensions baseline.dimensions,
  rw (ablated_total baseline.dimensions baseline.dimensions),
  (λ c. (
    mem-all_remaining baseline.dimensions c baseline.dimensions,
    all_remaining-mem baseline.dimensions c baseline.dimensions,
  )),
)

-- No condition that an ablation appends has the dimension that was removed for it.
without-contains :
    (removed : ContextDimension) (dims : List ContextDimension)
    → Memᴰ removed (without removed dims)
    → ⊥
unfolding without
without-contains removed dims m =
    let (listed, other) = mem-filter (λ d. not (d == removed)) dims m in
    absurd (cc (other, (dimension_eq.beq_iff removed removed).1 refl))

length-prefixes : (dims : List ContextDimension) → length (prefixes dims) ≡ length dims
unfolding prefixes
length-prefixes [] = refl
length-prefixes (d ∷ dims) =
    ap suc (length-map (λ rest. d ∷ rest) (prefixes dims) ∙ length-prefixes dims)

mem-prefixes : (p dims : List ContextDimension) → Memᴰ p (prefixes dims) → p ≢ []
unfolding prefixes
mem-prefixes p [] m = elim m [ ]
mem-prefixes p (d ∷ dims) m = elim (Memᴰ.cases_cons m) [
  | inl whole ↦ (λ e. cons≢nil (sym whole ∙ e))
  | inr longer ↦
      let (rest, m', same) = Memᴰ.of_map (λ rest. d ∷ rest) (prefixes dims) longer in
      (λ e. cons≢nil (same ∙ e))
]

permutation-length :
    (order : List ContextDimension) → is_permutation order ≡ true → length order ≡ 7
unfolding is_permutation
permutation-length order h = ground arith

-- An order of all seven dimensions gives seven conditions, those of its prefixes.
pub progressive_conditions_total :
    (order : List ContextDimension)
    → is_permutation order ≡ true
    → (progressive_conditions (some order) ≡ ok (map exactly (prefixes order)))
      × (length (map exactly (prefixes order)) ≡ 7)
unfolding progressive_conditions progressive_along
progressive_conditions_total order h = (
  rw (h, progressive_along)
      (map_ok_of_all combination_for_dimensions exactly (prefixes order)
        (λ p m. combination_for_dimensions_total p (mem-prefixes p order m))),
  length-map exactly (prefixes order) ∙ (length-prefixes order ∙ permutation-length order h),
)
