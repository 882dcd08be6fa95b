-- ===== src/Analysis/Necessity/Partition.antt =====
-- About the division of the tested combinations by `analyze_context_necessity` of analysis/necessity.py.
use mathlib.Core.List.Memᴰ
use mathlib.Core.List.{Memᴰ}
use industrial_context_aware.Base.{
  suc, ◌≡◌, refl, sym, ap, ◌∙◌, subst, ◌⊎◌, inl, inr, Bool, true, false, not, String, List, [], ◌∷◌,
  ◌+◌, length, ok, ok_inj, >>=-eq-ok, arith,
}
use industrial_context_aware.Analysis.Necessity.{keep_if, ids_where}
use industrial_context_aware.Context.Combinations.{ContextCombination, combination_for_id}
use industrial_context_aware.Context.Dimensions.{ContextDimension, dimension_eq}

-- An id of the table, of a combination whose dimensions pass a test.
abbrev pub IsOf : (List ContextDimension → Bool) → String → Type 0
IsOf p id = (c : ContextCombination) × (combination_for_id id ≡ ok c) × (p c.dimensions ≡ true)

keep_if-mem :
    (b : Bool) (id : String) (rest : List String) {x : String}
    → Memᴰ x (keep_if b id rest)
    → ((x ≡ id) × (b ≡ true)) ⊎ Memᴰ x rest
unfolding keep_if
keep_if-mem true id rest m = elim (Memᴰ.cases_cons m) [ inl e ↦ inl (e, refl) | inr n ↦ inr n ]
keep_if-mem false id rest m = inr m

keep_if-keeps :
    (b : Bool) (id : String) (rest : List String) {x : String}
    → Memᴰ x rest
    → Memᴰ x (keep_if b id rest)
unfolding keep_if
keep_if-keeps true id rest m = Memᴰ.tail m
keep_if-keeps false id rest m = m

keep_if-head :
    (b : Bool) (id : String) (rest : List String) → b ≡ true → Memᴰ id (keep_if b id rest)
unfolding keep_if
keep_if-head true id rest h = Memᴰ.head refl
keep_if-head false id rest h = cc

keep_if-length :
    (b : Bool) (id : String) (xs ys : List String)
    → length (keep_if b id xs) + length (keep_if (not b) id ys) ≡ suc (length xs + length ys)
unfolding keep_if
keep_if-length true id xs ys = omega arith
keep_if-length false id xs ys = omega arith

module _ (p : List ContextDimension → Bool) where
  ids_where-cons :
      (id : String) (ids : List String) {kept : List String}
      → ids_where p (id ∷ ids) ≡ ok kept
      → (c : ContextCombination) × (rest : List String) × (combination_for_id id ≡ ok c)
        × (ids_where p ids ≡ ok rest)
        × (keep_if (p c.dimensions) id rest ≡ kept)
  unfolding ids_where
  ids_where-cons id ids h =
      let (c, found, later) = >>=-eq-ok (combination_for_id id) _ h in
      let (rest, there, last) = >>=-eq-ok (ids_where p ids) _ later in
      (c, rest, found, there, ok_inj last)

  pub ids_where-mem :
      (ids : List String) {kept : List String} {x : String}
      → ids_where p ids ≡ ok kept
      → Memᴰ x kept
      → Memᴰ x ids × IsOf p x
  unfolding ids_where
  ids_where-mem [] {kept} {x} h m = absurd (Memᴰ.not-nil (subst (Memᴰ x) (sym (ok_inj h)) m))
  ids_where-mem (id ∷ ids) {kept} {x} h m =
      let (c, rest, found, there, e) = ids_where-cons id ids h in
      elim (keep_if-mem (p c.dimensions) id rest (subst (Memᴰ x) (sym e) m)) [
        | inl (same, passed) ↦ (Memᴰ.head same, (c, ap combination_for_id same ∙ found, passed))
        | inr n ↦ let (k, of_p) = ids_where-mem ids there n in (Memᴰ.tail k, of_p)
      ]

  pub mem-ids_where :
      (ids : List String) {kept : List String} {x : String}
      → ids_where p ids ≡ ok kept
      → Memᴰ x ids
      → IsOf p x
      → Memᴰ x kept
  mem-ids_where [] h m of_p = absurd (Memᴰ.not-nil m)
  mem-ids_where (id ∷ ids) {kept} {x} h m (c, found, passed) =
      let (d, rest, found_d, there, e) = ids_where-cons id ids h in
      subst (Memᴰ x) e (elim (Memᴰ.cases_cons m) [
        | inl same ↦
            let agree : c ≡ d = ok_inj (sym found ∙ ap combination_for_id same ∙ found_d) in
            subst (λ y. Memᴰ y (keep_if (p d.dimensions) id rest)) (sym same)
              (keep_if-head (p d.dimensions) id rest
                (ap (λ (k : ContextCombination). p k.dimensions) (sym agree) ∙ passed))
        | inr n ↦
            keep_if-keeps (p d.dimensions) id rest (mem-ids_where ids there n (c, found, passed))
      ])

-- The ids that pass a test and those that fail it are as many as the ids.
pub ids_where-length :
    (p : List ContextDimension → Bool) (ids : List String) {kept dropped : List String}
    → ids_where p ids ≡ ok kept
    → ids_where (λ dimensions. not (p dimensions)) ids ≡ ok dropped
    → length kept + length dropped ≡ length ids
unfolding ids_where
ids_where-length p [] h k = rw (sym (ok_inj h), sym (ok_inj k)) refl
ids_where-length p (id ∷ ids) {kept} {dropped} h k =
    let (c, xs, found_c, there, e) = ids_where-cons p id ids h in
    let (d, ys, found_d, there_too, e2) =
      ids_where-cons (λ dimensions. not (p dimensions)) id ids k in
    let agree : d ≡ c = ok_inj (sym found_d ∙ found_c) in
    let same : length (keep_if (not (p c.dimensions)) id ys) ≡ length dropped =
      ap (λ (x : ContextCombination). length (keep_if (not (p x.dimensions)) id ys)) (sym agree)
      ∙ ap length e2 in
    omega (
      arith,
      ap length e,
      same,
      keep_if-length (p c.dimensions) id xs ys,
      ids_where-length p ids there there_too,
    )
