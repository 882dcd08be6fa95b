-- ===== src/Evaluation/Grounded/Scores.antt =====
-- About the scores of evaluation/grounded.py, as failure_taxonomy.py reads them. Of floats it is
-- used that a ratio of counts up to a limit is below 1.0 only if the counts differ, that what is left
-- of 1.0 after such a ratio is below 1.0 only if the ratio is not zero, and that 1.0 is not below
-- itself; 2 ** 53 is such a limit for Python's.
use mathlib.Core.List.Memᴰ
use mathlib.Core.List.{Memᴰ}
use industrial_context_aware.Base.{
  ℕ, ◌≤◌, ◌<◌, ◌≡◌, refl, sym, ap, ◌↔◌, Bool, true, false, List, [], ◌∷◌, filter, ltb, length,
  length-filter-le, arith, mem-filter, mem-filter_of_mem, ltb→lt, lt→ltb, some_item, item_some, ◌∙◌,
}
use industrial_context_aware.Base.Float.{Float}
use industrial_context_aware.Evaluation.Grounded.{passed, ratio_of, grounding_score_of}

-- An entry that failed.
abbrev pub Failed : {A : Type 0} → List (A × Bool) → Type 0
Failed {A} hits = (hit : A × Bool) × Memᴰ hit hits × (hit.1 ≡ false)

module _ {A : Type 0} where
  passed_le : (hits : List (A × Bool)) → passed hits ≤ length hits
  unfolding passed
  passed_le hits = length-filter-le (λ hit. hit.1) hits

  passed_less : (hits : List (A × Bool)) → passed hits < length hits → Failed hits
  unfolding passed
  passed_less [] less = absurd (omega (arith, less))
  passed_less ((a, true) ∷ hits) less =
      let (hit, m, e) = passed_less hits (omega (arith, less)) in (hit, Memᴰ.tail m, e)
  passed_less ((a, false) ∷ hits) less = ((a, false), Memᴰ.head refl, refl)

  less_passed :
      (hits : List (A × Bool)) {hit : A × Bool}
      → Memᴰ hit hits
      → hit.1 ≡ false
      → passed hits < length hits
  unfolding passed
  less_passed [] m e = elim m [ ]
  less_passed (h ∷ hits) {hit} (Memᴰ.head same) e =
      ground (arith, passed_le hits, ap (λ (x : A × Bool). x.1) same)
  less_passed (h ∷ hits) (Memᴰ.tail m) e = ground (arith, less_passed hits m e)

module _ (N : Type 0) ⦃f : Float N⦄ (limit : ℕ)
    (ratio_below_one : (h n : ℕ)
      → h ≤ n
      → 0 < n
      → n ≤ limit
      → f.lt (f.ratio h n) (f.of_nat 1) ≡ ltb h n)
    (one_not_below : f.lt (f.of_nat 1) (f.of_nat 1) ≡ false) where
  -- A score of checks is below 1.0 exactly if a check failed.
  pub ratio_of-below_one_iff :
      {A : Type 0} (hits : List (A × Bool))
      → length hits ≤ limit
      → (f.lt (ratio_of hits) (f.of_nat 1) ≡ true) ↔ Failed hits
  unfolding ratio_of
  ratio_of-below_one_iff [] small =
      (λ h. cc (one_not_below, h), λ (hit, m, e). absurd (Memᴰ.not-nil m))
  ratio_of-below_one_iff (h ∷ hits) small =
      let law =
        ratio_below_one (passed (h ∷ hits)) (length (h ∷ hits)) (passed_le (h ∷ hits)) (omega arith)
          small in
      (
        λ below. passed_less (h ∷ hits) (ltb→lt _ _ (sym law ∙ below)),
        λ (hit, m, e). law ∙ lt→ltb (less_passed (h ∷ hits) m e),
      )

module _ {N : Type 0} ⦃f : Float N⦄ (limit : ℕ)
    (rest_below_one : (u n : ℕ)
      → u ≤ n
      → 0 < n
      → n ≤ limit
      → f.lt (f.sub (f.of_nat 1) (f.ratio u n)) (f.of_nat 1) ≡ ltb 0 u)
    (one_not_below : f.lt (f.of_nat 1) (f.of_nat 1) ≡ false) where
  -- The grounding is below 1.0 exactly if a number fails the test.
  pub grounding_score-below_one_iff :
      (p : N → Bool) (numbers : List N)
      → length numbers ≤ limit
      → (f.lt (grounding_score_of (filter p numbers) numbers) (f.of_nat 1) ≡ true)
        ↔ ((n : N) × Memᴰ n numbers × (p n ≡ true))
  unfolding grounding_score_of
  grounding_score-below_one_iff p [] small =
      (λ h. cc (one_not_below, h), λ (hit, m, e). absurd (Memᴰ.not-nil m))
  grounding_score-below_one_iff p (n ∷ numbers) small =
      let law =
        rest_below_one (length (filter p (n ∷ numbers))) (length (n ∷ numbers))
          (length-filter-le p (n ∷ numbers)) (omega arith) small in
      (
        λ below.
            let (x, m) = some_item (filter p (n ∷ numbers)) (ltb→lt _ _ (sym law ∙ below)) in
            let (k, e) = mem-filter p (n ∷ numbers) m in (x, k, e),
        λ (x, m, e). law ∙ lt→ltb (item_some (mem-filter_of_mem p (n ∷ numbers) m e)),
      )
