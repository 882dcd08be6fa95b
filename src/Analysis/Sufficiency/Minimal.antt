-- ===== src/Analysis/Sufficiency/Minimal.antt =====
-- About `_minimal_sufficient_conditions` of analysis/sufficiency.py.
use mathlib.Core.List.Memᴰ
use mathlib.Core.List.{Memᴰ}
use mathlib.Core.Path.{subst}
use industrial_context_aware.Base.{
  not-true, not-false, ℕ, zero, suc, ◌<◌, ◌≡◌, refl, sym, ap, ◌∙◌, ◌==◌, string_eq, Bool, true,
  false, ◌&&◌, not, String, List, map, filter, length, contains, subset, contains-mem,
  contains_of_mem, all-mem, all-false, all_of_mem, arith, inl, inr, Bool-cases, Option-cases,
  any-mem, any_of_mem, mem-filter, mem-filter_of_mem, find, find-mem, Result, ok, err, >>=-eq-ok,
  map_ok, map_ok-mem, mem-map_ok, ok_inj, length-filter_strict, map_ok_total,
}
use industrial_context_aware.Base.Sort.{sort, mem-sort, sort-mem, mem-distinct, distinct-mem}
use industrial_context_aware.Context.Dimensions.{
  ContextDimension, dimension_eq, canonical_dimension_order,
}
use industrial_context_aware.Context.Combinations.{
  ContextCombination, combination_for_id, all_context_combinations,
}
use industrial_context_aware.Context.Combinations.Lookup.{mem-canonical}
use industrial_context_aware.Context.Conditions.{combination_lt}
use industrial_context_aware.Analysis.Sufficiency.{
  ConditionResult, is_proper_subset, is_minimal, sufficient_ids, minimal_sufficient_conditions,
}

-- The combination found under an id carries that id.
combination_for_id-id :
    (id : String) {c : ContextCombination} → combination_for_id id ≡ ok c → c.combination_id ≡ id
unfolding combination_for_id
combination_for_id-id id {c} h =
    elim (Option-cases
      (find (λ (x : ContextCombination). x.combination_id == id) all_context_combinations)) [
        | inl missing ↦ absurd (cc (rw (missing, combination_for_id) at h))
        | inr (x, found) ↦
            let (m, same) =
              find-mem (λ (x : ContextCombination). x.combination_id == id) all_context_combinations
                found in
            ap (λ (r : Result ContextCombination). elim r [ ok y ↦ y.combination_id | err e ↦ id ])
              (sym (rw (found, combination_for_id) at h))
            ∙ (string_eq.beq_iff x.combination_id id).0 same
      ]

-- The number of dimensions in a set.
unfoldable size : List ContextDimension → ℕ
size dims = length (filter (contains dims) canonical_dimension_order)

subset_trans :
    (xs ys zs : List ContextDimension)
    → subset xs ys ≡ true
    → subset ys zs ≡ true
    → subset xs zs ≡ true
subset_trans xs ys zs h k =
    all_of_mem (contains zs) xs
      (λ d m. all-mem (contains zs) ys k (contains-mem d ys (all-mem (contains ys) xs h m)))

subset_refl : (xs : List ContextDimension) → subset xs xs ≡ true
subset_refl xs = all_of_mem (contains xs) xs (λ d m. contains_of_mem xs m)

and-cases : (a b : Bool) → (a && not b) ≡ true → (a ≡ true) × (b ≡ false)
and-cases true false h = (refl, refl)
and-cases true true h = absurd (cc h)
and-cases false b h = absurd (cc h)

size-lt :
    (xs ys : List ContextDimension) → subset xs ys ≡ true → subset ys xs ≡ false → size xs < size ys
unfolding size
size-lt xs ys within fails =
    let (d, m, fresh) = all-false (contains xs) ys fails in
    length-filter_strict (contains xs) (contains ys)
      (λ x h. all-mem (contains ys) xs within (contains-mem x xs h)) canonical_dimension_order
      (mem-canonical d) fresh (contains_of_mem ys m)

proper_subset-cases :
    (xs ys : List ContextDimension)
    → is_proper_subset xs ys ≡ true
    → (subset xs ys ≡ true) × (size xs < size ys)
unfolding is_proper_subset
proper_subset-cases xs ys h =
    let (within, fails) = and-cases (subset xs ys) (subset ys xs) h in
    (within, size-lt xs ys within fails)

and_intro : (a b : Bool) → a ≡ false → b ≡ true → (not a && b) ≡ true
and_intro a b h k = ground (arith, h, k)

and_right : (a b : Bool) → (not a && b) ≡ true → b ≡ true
and_right a b h = ground (arith, h)

not_proper_refl : (xs : List ContextDimension) → is_proper_subset xs xs ≡ false
not_proper_refl xs = elim (Bool-cases (is_proper_subset xs xs)) [
  | inl holds ↦ let (within, less) = proper_subset-cases xs xs holds in absurd (omega (arith, less))
  | inr fails ↦ fails
]

-- `o` beats `c` as a minimal combination.
abbrev beats : ContextCombination → ContextCombination → Bool
beats c o = not (o.combination_id == c.combination_id) && is_proper_subset o.dimensions c.dimensions

module _ (sufficient : List ContextCombination) where
  not-minimal :
      (c : ContextCombination)
      → is_minimal sufficient c ≡ false
      → (o : ContextCombination) × Memᴰ o sufficient
        × (is_proper_subset o.dimensions c.dimensions ≡ true)
  unfolding is_minimal
  not-minimal c h =
      let (o, m, e) = any-mem (beats c) sufficient (not-false h) in
      (o, m, and_right (o.combination_id == c.combination_id) _ e)

  minimal-blocks :
      (c o : ContextCombination)
      → is_minimal sufficient c ≡ true
      → Memᴰ o sufficient
      → (o.combination_id == c.combination_id) ≡ false
      → is_proper_subset o.dimensions c.dimensions ≡ false
  unfolding is_minimal
  minimal-blocks c o h m other = elim (Bool-cases (is_proper_subset o.dimensions c.dimensions)) [
    | inr apart ↦ apart
    | inl within ↦ absurd (
        cc (
          not-true h,
          any_of_mem (beats c) sufficient m
              (and_intro (o.combination_id == c.combination_id) _ other within),
        ))
  ]

  -- Below each combination stands a minimal one.
  minimal_below :
      (n : ℕ) (c : ContextCombination)
      → size c.dimensions < n
      → Memᴰ c sufficient
      → (b : ContextCombination) × Memᴰ b sufficient
        × (is_minimal sufficient b ≡ true)
        × (subset b.dimensions c.dimensions ≡ true)
  minimal_below zero c small m = absurd (omega arith)
  minimal_below (suc n) c small m = elim (Bool-cases (is_minimal sufficient c)) [
    | inl least ↦ (c, m, least, subset_refl c.dimensions)
    | inr beaten ↦
        let (o, m', within) = not-minimal c beaten in
        let (sub, less) = proper_subset-cases o.dimensions c.dimensions within in
        let (b, listed, least, below) = minimal_below n o (omega (arith, less, small)) m' in
        (b, listed, least, subset_trans b.dimensions o.dimensions c.dimensions below sub)
  ]

-- Combinations found under ids that are the same are the same.
same_id :
    (a b : String) {c d : ContextCombination}
    → combination_for_id a ≡ ok c
    → combination_for_id b ≡ ok d
    → d.combination_id ≡ c.combination_id
    → d ≡ c
same_id a b {c} {d} at_a at_b same =
    let b_is_a = sym (combination_for_id-id b at_b) ∙ (same ∙ combination_for_id-id a at_a) in
    ok_inj (sym at_b ∙ (ap combination_for_id b_is_a ∙ at_a))

no_smaller :
    {sufficient : List ContextCombination} (a b : String) {c d : ContextCombination}
    → is_minimal sufficient c ≡ true
    → Memᴰ d sufficient
    → combination_for_id a ≡ ok c
    → combination_for_id b ≡ ok d
    → is_proper_subset d.dimensions c.dimensions ≡ false
no_smaller {sufficient} a b {c} {d} least m at_a at_b =
    elim (Bool-cases (d.combination_id == c.combination_id)) [
      | inr other ↦ minimal-blocks sufficient c d least m other
      | inl same ↦
          subst (λ (x : ContextCombination). is_proper_subset x.dimensions c.dimensions ≡ false)
            (sym (
              same_id a b at_a at_b ((string_eq.beq_iff d.combination_id c.combination_id).0 same)))
            (not_proper_refl c.dimensions)
    ]

module _ {N : Type 0} (conditions : List (ConditionResult N)) where
  mem-sufficient_ids :
      {id : String}
      → Memᴰ id (sufficient_ids conditions)
      → (x : ConditionResult N) × Memᴰ x conditions
        × (x.meets_threshold ≡ true)
        × (x.context_combination_id ≡ id)
  unfolding sufficient_ids
  mem-sufficient_ids m =
      let (x, m', e) =
        Memᴰ.of_map (λ (c : ConditionResult N). c.context_combination_id) _ (mem-distinct _ m) in
      let (listed, meets) =
        mem-filter (λ (c : ConditionResult N). c.meets_threshold) conditions m' in
      (x, listed, meets, e)

  sufficient_ids-mem :
      (x : ConditionResult N)
      → Memᴰ x conditions
      → x.meets_threshold ≡ true
      → Memᴰ x.context_combination_id (sufficient_ids conditions)
  unfolding sufficient_ids
  sufficient_ids-mem x m meets = distinct-mem _ (
      Memᴰ.map (λ (c : ConditionResult N). c.context_combination_id)
        (mem-filter_of_mem (λ (c : ConditionResult N). c.meets_threshold) conditions m meets))

  -- The combinations behind the returned ids.
  returned :
      {ids : List String}
      → minimal_sufficient_conditions conditions ≡ ok ids
      → (sufficient : List ContextCombination) × (map_ok combination_for_id
            (sufficient_ids conditions)
          ≡ ok sufficient)
        × (map
              (λ (c : ContextCombination). c.combination_id)
              (sort combination_lt (filter (is_minimal sufficient) sufficient))
            ≡ ids)
  unfolding minimal_sufficient_conditions
  returned h =
      let (sufficient, found, last) =
        >>=-eq-ok (map_ok combination_for_id (sufficient_ids conditions)) _ h in
      (sufficient, found, ok_inj last)

  -- Each id that is returned belongs to a sufficient condition, and no sufficient condition has a
  -- proper subset of its dimensions.
  pub minimal_sufficient_conditions-minimal :
      (ids : List String)
      → minimal_sufficient_conditions conditions ≡ ok ids
      → (id : String) → Memᴰ id ids
      → (c : ContextCombination) × (combination_for_id id ≡ ok c)
        × ((x : ConditionResult N) × Memᴰ x conditions
            × (x.meets_threshold ≡ true)
            × (x.context_combination_id ≡ id))
        × ((y : ConditionResult N) (d : ContextCombination)
            → Memᴰ y conditions
            → y.meets_threshold ≡ true
            → combination_for_id y.context_combination_id ≡ ok d
            → is_proper_subset d.dimensions c.dimensions ≡ false)
  minimal_sufficient_conditions-minimal ids h id m =
      let (sufficient, found, e) = returned h in
      let (c, sorted, same) =
        Memᴰ.of_map (λ (x : ContextCombination). x.combination_id) _ (subst (Memᴰ id) (sym e) m) in
      let (listed, least) =
        mem-filter (is_minimal sufficient) sufficient (mem-sort combination_lt _ sorted) in
      let (source, among, at_source) =
        mem-map_ok combination_for_id (sufficient_ids conditions) found listed in
      let source_is = sym (combination_for_id-id source at_source) ∙ same in
      (
        c,
        ap combination_for_id (sym source_is) ∙ at_source,
        mem-sufficient_ids (subst (λ a. Memᴰ a (sufficient_ids conditions)) source_is among),
        (λ y d m' meets at_y.
            let (o, o_listed, at_o) =
              map_ok-mem combination_for_id _ found (sufficient_ids-mem y m' meets) in
            subst (λ (x : ContextCombination). is_proper_subset x.dimensions c.dimensions ≡ false)
              (ok_inj (sym at_o ∙ at_y))
              (no_smaller source y.context_combination_id least o_listed at_source at_o)),
      )

  -- If every sufficient condition carries a known id, the ids of the minimal ones are returned,
  -- and each sufficient condition includes the dimensions of one of them.
  pub minimal_sufficient_conditions-covers :
      ((x : ConditionResult N)
        → Memᴰ x conditions
        → x.meets_threshold ≡ true
        → (c : ContextCombination) × (combination_for_id x.context_combination_id ≡ ok c))
      → (ids : List String) × (minimal_sufficient_conditions conditions ≡ ok ids)
        × ((x : ConditionResult N) (c : ContextCombination)
            → Memᴰ x conditions
            → x.meets_threshold ≡ true
            → combination_for_id x.context_combination_id ≡ ok c
            → (id : String) × (b : ContextCombination) × Memᴰ id ids
              × (combination_for_id id ≡ ok b)
              × (subset b.dimensions c.dimensions ≡ true))
  unfolding minimal_sufficient_conditions
  minimal_sufficient_conditions-covers known =
      let (sufficient, found) = map_ok_total combination_for_id (sufficient_ids conditions) (λ id m.
        let (x, listed, meets, same) = mem-sufficient_ids m in
        subst (λ a. (c : ContextCombination) × (combination_for_id a ≡ ok c)) same
          (known x listed meets)) in
      (
        map (λ (c : ContextCombination). c.combination_id)
            (sort combination_lt (filter (is_minimal sufficient) sufficient)),
        rw (found, minimal_sufficient_conditions) refl,
        (λ x c m meets at_x.
            let (o, o_listed, at_o) =
              map_ok-mem combination_for_id _ found (sufficient_ids-mem x m meets) in
            let (b, b_listed, least, below) =
              minimal_below sufficient (suc (size o.dimensions)) o (omega arith) o_listed in
            let (source, among, at_source) =
              mem-map_ok combination_for_id (sufficient_ids conditions) found b_listed in
            (
              b.combination_id,
              b,
              Memᴰ.map (λ (y : ContextCombination). y.combination_id)
                  (sort-mem combination_lt _
                    (mem-filter_of_mem (is_minimal sufficient) sufficient b_listed least)),
              ap combination_for_id (combination_for_id-id source at_source) ∙ at_source,
              subst (λ (y : ContextCombination). subset b.dimensions y.dimensions ≡ true)
                  (ok_inj (sym at_o ∙ at_x)) below,
            )),
      )
