-- ===== src/Base/Lists.antt =====
-- Lists measured by native numbers, Boolean filters and searches, and membership in their results.
use Prim.Native.Nat.{ℕ, suc, ◌+◌, ◌≤◌, ◌<◌}
use mathlib.Core.Path.{◌≡◌, refl, ap, sym, subst}
use mathlib.Core.Logic.{◌↔◌, inl, inr}
use mathlib.Core.Bool.{Bool, true, false, ◌&&◌, ◌||◌, not}
use mathlib.Core.Option.{Option, none, some}
use mathlib.Core.List.Memᴰ
use mathlib.Core.List.{List, [], ◌∷◌, ◌++◌, map, Memᴰ}
use native.Mathlib.Omega.{arith}
use industrial_context_aware.Base.Tests.{if◌then◌else◌, Bool-cases}
use industrial_context_aware.Base.Equality.{Eq, ◌==◌}

module _ {ℓ} {A : Type ℓ} where
  abbrev pub length : List A → ℕ
  length [] = 0
  length (x ∷ xs) = suc (length xs)

  abbrev pub filter : (A → Bool) → List A → List A
  filter p [] = []
  filter p (x ∷ xs) = let rest = filter p xs in if p x then x ∷ rest else rest

  -- `any(p(x) for x in xs)`
  abbrev pub any : (A → Bool) → List A → Bool
  any p [] = false
  any p (x ∷ xs) = p x || any p xs

  -- `all(p(x) for x in xs)`
  abbrev pub all : (A → Bool) → List A → Bool
  all p [] = true
  all p (x ∷ xs) = p x && all p xs

  abbrev pub is_empty : List A → Bool
  is_empty [] = true
  is_empty (x ∷ xs) = false

  -- The first item that passes the test.
  abbrev pub find : (A → Bool) → List A → Option A
  find p [] = none
  find p (x ∷ xs) = let rest = find p xs in if p x then some x else rest

  -- `sum(1 for x in xs if p(x))`
  abbrev pub count_if : (A → Bool) → List A → ℕ
  count_if p xs = length (filter p xs)

  -- `sum(size(x) for x in xs)`
  abbrev pub sum_by : (A → ℕ) → List A → ℕ
  sum_by size [] = 0
  sum_by size (x ∷ xs) = size x + sum_by size xs

  -- The items that pass a test and those that fail it are all items.
  pub count_if-complement :
      (p : A → Bool) (xs : List A) → count_if p xs + count_if (λ x. not (p x)) xs ≡ length xs
  count_if-complement p [] = refl
  count_if-complement p (x ∷ xs) = ground (arith, count_if-complement p xs)

  pub length-append : (xs ys : List A) → length (xs ++ ys) ≡ length xs + length ys
  length-append [] ys = omega arith
  length-append (x ∷ xs) ys = omega (arith, length-append xs ys)

  pub length-filter-le : (p : A → Bool) (xs : List A) → length (filter p xs) ≤ length xs
  length-filter-le p [] = omega arith
  length-filter-le p (x ∷ xs) = ground (arith, length-filter-le p xs)

  pub filter-append :
      (p : A → Bool) (xs ys : List A) → filter p (xs ++ ys) ≡ filter p xs ++ filter p ys
  filter-append p [] ys = refl
  filter-append p (x ∷ xs) ys = ground (arith, filter-append p xs ys)

  abbrev pub All {κ} : (A → Type κ) → List A → Type κ
  All P [] = Unit
  All P (x ∷ xs) = P x × All P xs

  pub All-of_mem {κ} : (P : A → Type κ) (xs : List A) → ((x : A) → Memᴰ x xs → P x) → All P xs
  All-of_mem P [] h = tt
  All-of_mem P (x ∷ xs) h = (h x (Memᴰ.head refl), All-of_mem P xs (λ y m. h y (Memᴰ.tail m)))

  pub All-snoc {κ} : (P : A → Type κ) (xs : List A) {x : A} → All P xs → P x → All P (xs ++ x ∷ [])
  All-snoc P [] h p = (p, tt)
  All-snoc P (y ∷ xs) h p = (h.0, All-snoc P xs h.1 p)

  pub All-mem {κ} : (P : A → Type κ) {x : A} (xs : List A) → All P xs → Memᴰ x xs → P x
  All-mem P [] h m = elim m [ ]
  All-mem P (y ∷ xs) h (Memᴰ.head e) = subst P (sym e) h.0
  All-mem P (y ∷ xs) h (Memᴰ.tail m) = All-mem P xs h.1 m

module _ {ℓ} {A : Type ℓ} (p : A → Bool) where
  pub mem-filter : {x : A} (xs : List A) → Memᴰ x (filter p xs) → Memᴰ x xs × (p x ≡ true)
  mem-filter [] m = elim m [ ]
  mem-filter {x} (y ∷ xs) m = elim (Bool-cases (p y)) [
    | inl kept ↦ elim (Memᴰ.cases_cons (rw kept at m)) [
      | inl e ↦ (Memᴰ.head e, rw e kept)
      | inr m' ↦ let (n, h) = mem-filter xs m' in (Memᴰ.tail n, h)
    ]
    | inr dropped ↦ let (n, h) = mem-filter {x = x} xs (rw dropped at m) in (Memᴰ.tail n, h)
  ]

  pub mem-filter_of_mem : {x : A} (xs : List A) → Memᴰ x xs → p x ≡ true → Memᴰ x (filter p xs)
  mem-filter_of_mem [] m h = elim m [ ]
  mem-filter_of_mem (y ∷ xs) (Memᴰ.head e) h = rw (← e, h) (Memᴰ.head refl)
  mem-filter_of_mem (y ∷ xs) (Memᴰ.tail m) h = elim (Bool-cases (p y)) [
    | inl kept ↦ rw kept (Memᴰ.tail (mem-filter_of_mem xs m h))
    | inr dropped ↦ rw dropped (mem-filter_of_mem xs m h)
  ]

  pub filter-eq-nil : {x : A} (xs : List A) → filter p xs ≡ [] → Memᴰ x xs → p x ≡ false
  filter-eq-nil {x} xs h m = elim (Bool-cases (p x)) [
    | inl holds ↦ absurd (Memᴰ.not-nil (subst (Memᴰ x) h (mem-filter_of_mem xs m holds)))
    | inr fails ↦ fails
  ]

  pub any_of_mem : {x : A} (xs : List A) → Memᴰ x xs → p x ≡ true → any p xs ≡ true
  any_of_mem [] m h = elim m [ ]
  any_of_mem (y ∷ xs) (Memᴰ.head e) h = rw (← e, h)
  any_of_mem (y ∷ xs) (Memᴰ.tail m) h = ground (arith, any_of_mem xs m h)

  pub any-mem : (xs : List A) → any p xs ≡ true → (x : A) × Memᴰ x xs × (p x ≡ true)
  any-mem [] h = cc
  any-mem (y ∷ xs) h = elim (Bool-cases (p y)) [
    | inl yes_y ↦ (y, Memᴰ.head refl, yes_y)
    | inr no_y ↦ let (x, m, e) = any-mem xs (rw no_y at h) in (x, Memᴰ.tail m, e)
  ]

  pub find-mem : (xs : List A) {x : A} → find p xs ≡ some x → Memᴰ x xs × (p x ≡ true)
  find-mem [] h = absurd (cc h)
  find-mem (y ∷ xs) {x} h = elim (Bool-cases (p y)) [
    | inl yes_y ↦
        let e = ap (λ (o : Option A). elim o [ none ↦ y | some z ↦ z ]) (rw yes_y at h) in
        (Memᴰ.head (sym e), subst (λ z. p z ≡ true) e yes_y)
    | inr no_y ↦ let (m, e) = find-mem xs {x = x} (rw no_y at h) in (Memᴰ.tail m, e)
  ]

  pub all-mem : {x : A} (xs : List A) → all p xs ≡ true → Memᴰ x xs → p x ≡ true
  all-mem [] h m = elim m [ ]
  all-mem (y ∷ xs) h (Memᴰ.head e) = rw e (ground arith)
  all-mem (y ∷ xs) h (Memᴰ.tail m) = all-mem xs (ground arith) m

  pub all-false : (xs : List A) → all p xs ≡ false → (x : A) × Memᴰ x xs × (p x ≡ false)
  all-false [] h = absurd (cc h)
  all-false (y ∷ xs) h = elim (Bool-cases (p y)) [
    | inl yes_y ↦ let (x, m, e) = all-false xs (rw yes_y at h) in (x, Memᴰ.tail m, e)
    | inr no_y ↦ (y, Memᴰ.head refl, no_y)
  ]

  pub all_of_mem : (xs : List A) → ((x : A) → Memᴰ x xs → p x ≡ true) → all p xs ≡ true
  all_of_mem [] h = refl
  all_of_mem (y ∷ xs) h = rw (h y (Memᴰ.head refl)) (all_of_mem xs (λ x m. h x (Memᴰ.tail m)))

module _ {ℓ} {A : Type ℓ} (p q : A → Bool) (h : (x : A) → p x ≡ true → q x ≡ true) where
  pub length-filter_mono : (xs : List A) → length (filter p xs) ≤ length (filter q xs)
  length-filter_mono [] = omega arith
  length-filter_mono (x ∷ xs) = ground (arith, length-filter_mono xs, h x)

  -- A test that fails where the other holds lets fewer items through.
  pub length-filter_strict :
      (xs : List A) {x : A}
      → Memᴰ x xs
      → p x ≡ false
      → q x ≡ true
      → length (filter p xs) < length (filter q xs)
  length-filter_strict [] m f t = elim m [ ]
  length-filter_strict (y ∷ xs) {x} (Memᴰ.head e) f t =
      ground (arith, length-filter_mono xs, ap p e, ap q e, f, t)
  length-filter_strict (y ∷ xs) (Memᴰ.tail m) f t =
      ground (arith, length-filter_strict xs m f t, h y)

-- `a in xs`, and the reading of a list as a set by its tests alone.
module _ {ℓ} {A : Type ℓ} ⦃e : Eq A⦄ where
  abbrev pub contains : List A → A → Bool
  contains xs a = any (λ x. a == x) xs

  -- `xs <= ys`, between sets.
  abbrev pub subset : List A → List A → Bool
  subset xs ys = all (contains ys) xs

  pub contains_of_mem : {a : A} (xs : List A) → Memᴰ a xs → contains xs a ≡ true
  contains_of_mem {a} xs m = any_of_mem (λ x. a == x) xs m ((e.beq_iff a a).1 refl)

  pub contains-mem : (a : A) (xs : List A) → contains xs a ≡ true → Memᴰ a xs
  contains-mem a xs h =
      let (x, m, same) = any-mem (λ x. a == x) xs h in
      subst (λ y. Memᴰ y xs) (sym ((e.beq_iff a x).0 same)) m

pub length-map {ℓ κ} :
    {A : Type ℓ} {B : Type κ} (f : A → B) (xs : List A) → length (map f xs) ≡ length xs
length-map f [] = refl
length-map f (x ∷ xs) = ap suc (length-map f xs)

module _ {ℓ κ} {A : Type ℓ} {P : A → Type κ} (p : A → Bool) (xs : List A) where
  pub any_iff : ((x : A) → (p x ≡ true) ↔ P x) → (any p xs ≡ true) ↔ ((x : A) × Memᴰ x xs × P x)
  any_iff h = (
    λ k. let (x, m, e) = any-mem p xs k in (x, m, (h x).0 e),
    λ (x, m, q). any_of_mem p xs m ((h x).1 q),
  )

module _ {ℓ} {A : Type ℓ} where
  pub some_item : (xs : List A) → 0 < length xs → (x : A) × Memᴰ x xs
  some_item [] h = absurd (omega (arith, h))
  some_item (x ∷ xs) h = (x, Memᴰ.head refl)

  pub item_some : {x : A} {xs : List A} → Memᴰ x xs → 0 < length xs
  item_some (Memᴰ.head e) = omega arith
  item_some (Memᴰ.tail m) = omega arith
