-- ===== src/Base/Subsets.antt =====
-- `itertools.combinations`, and its comparison with sublists given by an inductive relation.
use Prim.Native.Nat.{ℕ, zero, suc, ◌≤◌}
use mathlib.Core.Path.{◌≡◌, refl, ap, subst, sym}
use mathlib.Core.Logic.{inl, inr}
use mathlib.Core.List.Memᴰ
use mathlib.Core.List.{List, [], ◌∷◌, ◌++◌, map, Memᴰ}
use native.Mathlib.Decide.{dec_le}
use native.Mathlib.Omega.{arith}
use industrial_context_aware.Base.Lists.{length, filter}
use industrial_context_aware.Base.Tests.{Bool-cases}
use mathlib.Core.Bool.{Bool}

module _ {ℓ} {A : Type ℓ} where
  -- `combinations(xs, r)`: the sublists of length `r`, in lexicographic order of positions.
  unfoldable pub combinations : List A → ℕ → List (List A)
  combinations xs zero = [] ∷ []
  combinations [] (suc r) = []
  combinations (x ∷ xs) (suc r) = map (λ s. x ∷ s) (combinations xs r) ++ combinations xs (suc r)

  -- `for r in range(1, n + 1): for s in combinations(xs, r)`, for the lengths up to `n`.
  unfoldable pub combinations_upto : List A → ℕ → List (List A)
  combinations_upto xs zero = []
  combinations_upto xs (suc n) = combinations_upto xs n ++ combinations xs (suc n)

  -- Every non-empty sublist, by length.
  unfoldable pub nonempty_subsets : List A → List (List A)
  unfolding combinations combinations_upto
  nonempty_subsets xs = combinations_upto xs (length xs)

  -- `s` is `xs` with some items left out.
  pub data IsSub : List A → List A → Type ℓ where
    done : IsSub [] []
    keep : {x : A} {s xs : List A} → IsSub s xs → IsSub (x ∷ s) (x ∷ xs)
    skip : {x : A} {s xs : List A} → IsSub s xs → IsSub s (x ∷ xs)

  pub IsSub-nil : (xs : List A) → IsSub [] xs
  IsSub-nil [] = done
  IsSub-nil (x ∷ xs) = skip (IsSub-nil xs)

  pub IsSub-refl : (xs : List A) → IsSub xs xs
  IsSub-refl [] = done
  IsSub-refl (x ∷ xs) = keep (IsSub-refl xs)

  pub IsSub-mem : {a : A} {s xs : List A} → IsSub s xs → Memᴰ a s → Memᴰ a xs
  IsSub-mem done m = m
  IsSub-mem (keep h) (Memᴰ.head e) = Memᴰ.head e
  IsSub-mem (keep h) (Memᴰ.tail m) = Memᴰ.tail (IsSub-mem h m)
  IsSub-mem (skip h) m = Memᴰ.tail (IsSub-mem h m)

  pub filter-IsSub : (p : A → Bool) (xs : List A) → IsSub (filter p xs) xs
  filter-IsSub p [] = done
  filter-IsSub p (x ∷ xs) = elim (Bool-cases (p x)) [
    | inl kept ↦ rw kept (keep (filter-IsSub p xs))
    | inr dropped ↦ rw dropped (skip (filter-IsSub p xs))
  ]

  length-IsSub-le : {s xs : List A} → IsSub s xs → length s ≤ length xs
  length-IsSub-le done = omega arith
  length-IsSub-le (keep h) = omega (arith, length-IsSub-le h)
  length-IsSub-le (skip h) = omega (arith, length-IsSub-le h)

module _ {ℓ} {A : Type ℓ} where
  -- What `combinations` yields is a sublist of the given length.
  mem-combinations :
      (xs : List A) (r : ℕ) {s : List A} → Memᴰ s (combinations xs r) → IsSub s xs × (length s ≡ r)
  unfolding combinations
  mem-combinations xs zero m =
      let e = Memᴰ.eq_of_singleton m in
      (subst (λ t. IsSub t xs) (sym e) (IsSub-nil xs), ap length e)
  mem-combinations [] (suc r) m = elim m [ ]
  mem-combinations (x ∷ xs) (suc r) {s} m =
      elim (Memᴰ.append_cases (map (λ t. x ∷ t) (combinations xs r)) m) [
        | inl front ↦
            let (t, m', e) = Memᴰ.of_map (λ (t : List A). x ∷ t) (combinations xs r) front in
            let (h, n) = mem-combinations xs r m' in
            (subst (λ u. IsSub u (x ∷ xs)) e (keep h), omega (arith, ap length e))
        | inr back ↦ let (h, n) = mem-combinations xs (suc r) {s = s} back in (skip h, n)
      ]

  -- Every sublist of that length is yielded.
  combinations_complete :
      {s xs : List A} → IsSub s xs → (r : ℕ) → length s ≡ r → Memᴰ s (combinations xs r)
  unfolding combinations
  combinations_complete done zero e = Memᴰ.head refl
  combinations_complete done (suc r) e = absurd (omega arith)
  combinations_complete (keep h) zero e = absurd (omega arith)
  combinations_complete (keep {x = x} {xs = xs} h) (suc r) e =
      Memᴰ.append_left (combinations xs (suc r))
        (Memᴰ.map (λ t. x ∷ t) (combinations_complete h r (omega arith)))
  combinations_complete (skip {s = []} h) zero e = Memᴰ.head refl
  combinations_complete (skip {s = y ∷ s} h) zero e = absurd (omega arith)
  combinations_complete (skip {x = x} {xs = xs} h) (suc r) e =
      Memᴰ.append_right (map (λ t. x ∷ t) (combinations xs r)) (combinations_complete h (suc r) e)

  mem-combinations_upto :
      {s : List A} (xs : List A) (n : ℕ) → Memᴰ s (combinations_upto xs n) → IsSub s xs
  unfolding combinations_upto
  mem-combinations_upto xs zero m = elim m [ ]
  mem-combinations_upto {s} xs (suc n) m = elim (Memᴰ.append_cases (combinations_upto xs n) m) [
    | inl early ↦ mem-combinations_upto {s = s} xs n early
    | inr now ↦ (mem-combinations xs (suc n) now).0
  ]

  combinations_upto_complete :
      {s xs : List A} (n : ℕ)
      → IsSub s xs
      → 1 ≤ length s
      → length s ≤ n
      → Memᴰ s (combinations_upto xs n)
  unfolding combinations_upto
  combinations_upto_complete zero h low high = absurd (omega arith)
  combinations_upto_complete {s} {xs} (suc n) h low high = elim (dec_le (length s) n) [
    | yes short ↦
        Memᴰ.append_left (combinations xs (suc n)) (combinations_upto_complete n h low short)
    | no long ↦
        Memᴰ.append_right (combinations_upto xs n) (combinations_complete h (suc n) (omega arith))
  ]

  pub mem-nonempty_subsets : {s : List A} (xs : List A) → Memᴰ s (nonempty_subsets xs) → IsSub s xs
  unfolding nonempty_subsets
  mem-nonempty_subsets xs m = mem-combinations_upto xs (length xs) m

  pub nonempty_subsets_complete :
      {s xs : List A} → IsSub s xs → 1 ≤ length s → Memᴰ s (nonempty_subsets xs)
  unfolding nonempty_subsets
  nonempty_subsets_complete {xs} h low =
      combinations_upto_complete (length xs) h low (length-IsSub-le h)
