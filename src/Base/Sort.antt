-- ===== src/Base/Sort.antt =====
-- `sorted`, `min` and `set` of Python: a stable sort by a strict order, the first least item, and
-- the distinct items of a list.
use Prim.Native.Nat.{ℕ, suc, ◌+◌, ◌≤◌}
use Prim.Native.String.{String, compare}
use mathlib.Core.Path.{◌≡◌, refl, subst, sym}
use mathlib.Core.Logic.{inl, inr}
use mathlib.Core.Bool.{Bool, true, false, not, ◌&&◌}
use mathlib.Core.Option.{some}
use mathlib.Core.List.Memᴰ
use mathlib.Core.List.{List, [], ◌∷◌, map, Memᴰ}
use native.Mathlib.Omega.{arith}
use text.Mathlib.Text.{is_lt}
use industrial_context_aware.Base.Tests.{if◌then◌else◌, Bool-cases}
use industrial_context_aware.Base.Equality.{Eq, ◌==◌, string_eq, ==_refl}
use industrial_context_aware.Base.Lists.{
  length, contains, contains-mem, contains_of_mem, find, sum_by,
}
use text.Mathlib.TextEquality.{eq_iff}

-- `<` on texts, by code points.
unfoldable pub str_lt : String → String → Bool
str_lt s t = is_lt (compare s t)

-- `<` on lists of texts, as on tuples: the first difference decides, and a prefix is less.
unfoldable pub texts_lt : List String → List String → Bool
unfolding str_lt
texts_lt [] [] = false
texts_lt [] (t ∷ ts) = true
texts_lt (s ∷ ss) [] = false
texts_lt (s ∷ ss) (t ∷ ts) =
    let rest = texts_lt ss ts in if str_lt s t then true else if str_lt t s then false else rest

module _ {ℓ} {A : Type ℓ} (lt : A → A → Bool) where
  unfoldable pub insort : A → List A → List A
  insort x [] = x ∷ []
  insort x (y ∷ ys) = let rest = insort x ys in if lt y x then y ∷ rest else x ∷ y ∷ ys

  -- `sorted(xs, key=…)`, where `lt` compares the keys.
  unfoldable pub sort : List A → List A
  unfolding insort
  sort [] = []
  sort (x ∷ xs) = insort x (sort xs)

  mem-insort : {a : A} (x : A) (ys : List A) → Memᴰ a (insort x ys) → Memᴰ a (x ∷ ys)
  unfolding insort
  mem-insort x [] m = m
  mem-insort {a} x (y ∷ ys) m = elim (Bool-cases (lt y x)) [
    | inl later ↦ elim (Memᴰ.cases_cons (rw later at m)) [
      | inl e ↦ Memᴰ.tail (Memᴰ.head e)
      | inr m' ↦ elim (Memᴰ.cases_cons (mem-insort {a = a} x ys m')) [
        | inl e ↦ Memᴰ.head e
        | inr m'' ↦ Memᴰ.tail (Memᴰ.tail m'')
      ]
    ]
    | inr here ↦ rw here at m
  ]

  insort-mem : {a : A} (x : A) (ys : List A) → Memᴰ a (x ∷ ys) → Memᴰ a (insort x ys)
  unfolding insort
  insort-mem x [] m = m
  insort-mem {a} x (y ∷ ys) m = elim (Bool-cases (lt y x)) [
    | inl later ↦ rw later (elim (Memᴰ.cases_cons m) [
      | inl e ↦ Memᴰ.tail (insort-mem x ys (Memᴰ.head e))
      | inr m' ↦ elim (Memᴰ.cases_cons m') [
        | inl e ↦ Memᴰ.head e
        | inr m'' ↦ Memᴰ.tail (insort-mem {a = a} x ys (Memᴰ.tail m''))
      ]
    ])
    | inr here ↦ rw here m
  ]

  length-insort : (x : A) (ys : List A) → length (insort x ys) ≡ suc (length ys)
  unfolding insort
  length-insort x [] = refl
  length-insort x (y ∷ ys) = ground (arith, length-insort x ys)

  -- Sorting keeps the items.
  pub mem-sort : {a : A} (xs : List A) → Memᴰ a (sort xs) → Memᴰ a xs
  unfolding sort
  mem-sort [] m = m
  mem-sort {a} (x ∷ xs) m = elim (Memᴰ.cases_cons (mem-insort x (sort xs) m)) [
    | inl e ↦ Memᴰ.head e
    | inr m' ↦ Memᴰ.tail (mem-sort {a = a} xs m')
  ]

  pub sort-mem : {a : A} (xs : List A) → Memᴰ a xs → Memᴰ a (sort xs)
  unfolding sort
  sort-mem [] m = m
  sort-mem {a} (x ∷ xs) m = insort-mem x (sort xs) (elim (Memᴰ.cases_cons m) [
    | inl e ↦ Memᴰ.head e
    | inr m' ↦ Memᴰ.tail (sort-mem {a = a} xs m')
  ])

  sum_by-insort :
      (size : A → ℕ) (x : A) (ys : List A) → sum_by size (insort x ys) ≡ size x + sum_by size ys
  unfolding insort
  sum_by-insort size x [] = refl
  sum_by-insort size x (y ∷ ys) = ground (arith, sum_by-insort size x ys)

  -- Sorting keeps the sum of a measure.
  pub sum_by-sort : (size : A → ℕ) (xs : List A) → sum_by size (sort xs) ≡ sum_by size xs
  unfolding sort
  sum_by-sort size [] = refl
  sum_by-sort size (x ∷ xs) = omega (arith, sum_by-insort size x (sort xs), sum_by-sort size xs)

  pub length-sort : (xs : List A) → length (sort xs) ≡ length xs
  unfolding sort
  length-sort [] = refl
  length-sort (x ∷ xs) = omega (arith, length-insort x (sort xs), length-sort xs)

  -- `min(best, *xs, key=…)`: the first of the least items.
  unfoldable pub min_from : A → List A → A
  min_from best [] = best
  min_from best (x ∷ xs) = min_from (if lt x best then x else best) xs

  pub mem-min_from : (best : A) (xs : List A) → Memᴰ (min_from best xs) (best ∷ xs)
  unfolding min_from
  mem-min_from best [] = Memᴰ.head refl
  mem-min_from best (x ∷ xs) = elim (Bool-cases (lt x best)) [
    | inl less ↦ rw less (Memᴰ.tail (mem-min_from x xs))
    | inr not_less ↦ rw not_less (elim (Memᴰ.cases_cons (mem-min_from best xs)) [
      | inl e ↦ Memᴰ.head e
      | inr m ↦ Memᴰ.tail (Memᴰ.tail m)
    ])
  ]

  -- A measure that the order respects is least at the result.
  pub min_from-le :
      (size : A → ℕ)
      → ((x y : A) → lt x y ≡ true → size x ≤ size y)
      → ((x y : A) → lt x y ≡ false → size y ≤ size x)
      → (best : A) (xs : List A) {a : A} → Memᴰ a (best ∷ xs)
      → size (min_from best xs) ≤ size a
  unfolding min_from
  min_from-le size less more best [] {a} m =
      subst (λ b. size best ≤ size b) (sym (Memᴰ.eq_of_singleton m)) (omega arith)
  min_from-le size less more best (x ∷ xs) {a} m = elim (Bool-cases (lt x best)) [
    | inl l ↦ rw l (elim (Memᴰ.cases_cons m) [
      | inl e ↦
          rw e (omega (arith, less x best l, min_from-le size less more x xs (Memᴰ.head refl)))
      | inr m' ↦ min_from-le size less more x xs m'
    ])
    | inr g ↦ rw g (elim (Memᴰ.cases_cons m) [
      | inl e ↦ min_from-le size less more best xs (Memᴰ.head e)
      | inr m' ↦ elim (Memᴰ.cases_cons m') [
        | inl e ↦
            rw e (omega (arith, more x best g, min_from-le size less more best xs (Memᴰ.head refl)))
        | inr m'' ↦ min_from-le size less more best xs (Memᴰ.tail m'')
      ]
    ])
  ]

module _ {ℓ} {A : Type ℓ} ⦃e : Eq A⦄ where
  -- `set(xs)`, as the list of its items without repetition.
  unfoldable pub distinct : List A → List A
  distinct [] = []
  distinct (x ∷ xs) = let rest = distinct xs in if contains rest x then rest else x ∷ rest

  pub mem-distinct : {a : A} (xs : List A) → Memᴰ a (distinct xs) → Memᴰ a xs
  unfolding distinct
  mem-distinct [] m = m
  mem-distinct {a} (x ∷ xs) m = elim (Bool-cases (contains (distinct xs) x)) [
    | inl old ↦ Memᴰ.tail (mem-distinct {a = a} xs (rw old at m))
    | inr new ↦ elim (Memᴰ.cases_cons (rw new at m)) [
      | inl same ↦ Memᴰ.head same
      | inr m' ↦ Memᴰ.tail (mem-distinct {a = a} xs m')
    ]
  ]

  pub distinct-mem : {a : A} (xs : List A) → Memᴰ a xs → Memᴰ a (distinct xs)
  unfolding distinct
  distinct-mem [] m = m
  distinct-mem {a} (x ∷ xs) m = elim (Bool-cases (contains (distinct xs) x)) [
    | inl old ↦ rw old (elim (Memᴰ.cases_cons m) [
      | inl same ↦ rw same (contains-mem x (distinct xs) old)
      | inr m' ↦ distinct-mem {a = a} xs m'
    ])
    | inr new ↦ rw new (elim (Memᴰ.cases_cons m) [
      | inl same ↦ Memᴰ.head same
      | inr m' ↦ Memᴰ.tail (distinct-mem {a = a} xs m')
    ])
  ]

-- No item is repeated.
abbrev pub all_distinct : List String → Bool
all_distinct [] = true
all_distinct (x ∷ xs) = not (contains xs x) && all_distinct xs

module _ {ℓ} {A : Type ℓ} (key : A → String) where
  -- The first item with the key of `x` is `x`, where no key is repeated.
  pub find_of_all_distinct :
      (xs : List A) {x : A}
      → all_distinct (map key xs) ≡ true
      → Memᴰ x xs
      → find (λ y. key y == key x) xs ≡ some x
  find_of_all_distinct [] u m = elim m [ ]
  find_of_all_distinct (y ∷ xs) {x} u (Memᴰ.head e) = rw (e, ==_refl (key y))
  find_of_all_distinct (y ∷ xs) {x} u (Memᴰ.tail m) = elim (Bool-cases (key y == key x)) [
    | inl same ↦
        let e : key x ≡ key y = sym ((eq_iff (key y) (key x)).0 same) in
        let here : contains (map key xs) (key x) ≡ true =
          contains_of_mem (map key xs) (Memᴰ.map key m) in
        ground (arith, rw e at here)
    | inr other ↦ rw other (find_of_all_distinct xs {x = x} (ground arith) m)
  ]
