-- ===== src/Base/Additions.antt =====
-- Sets kept as lists to which items are added.
use Prim.Native.Nat.{◌<◌}
use mathlib.Core.Path.{◌≡◌, refl}
use mathlib.Core.Logic.{◌⊎◌, inl, inr}
use mathlib.Core.Bool.{false}
use mathlib.Core.List.Memᴰ
use mathlib.Core.List.{List, [], ◌∷◌, ◌++◌, Memᴰ}
use native.Mathlib.Omega.{arith}
use industrial_context_aware.Base.Tests.{Bool-cases}
use industrial_context_aware.Base.Equality.{Eq, ◌==◌}
use industrial_context_aware.Base.Lists.{contains, contains-mem}
use industrial_context_aware.Base.Dict.{add}

module _ {ℓ} {A : Type ℓ} ⦃e : Eq A⦄ where
  -- No item is repeated.
  abbrev pub AllDifferent : List A → Type 0
  AllDifferent [] = 0 < 1
  AllDifferent (x ∷ xs) = (contains xs x ≡ false) × AllDifferent xs

  pub contains-append :
      (x y : A) (xs : List A)
      → contains xs y ≡ false
      → (x == y) ≡ false
      → contains (xs ++ x ∷ []) y ≡ false
  contains-append x y [] h other = ground (arith, e.beq_iff x y, e.beq_iff y x)
  contains-append x y (z ∷ xs) h other = ground (arith, contains-append x y xs)

  pub AllDifferent-append :
      (x : A) (xs : List A) → AllDifferent xs → contains xs x ≡ false → AllDifferent (xs ++ x ∷ [])
  AllDifferent-append x [] h new = (refl, omega arith)
  AllDifferent-append x (y ∷ xs) (fresh, h) new = (
    contains-append x y xs fresh (ground (arith, new)),
    AllDifferent-append x xs h (ground (arith, new)),
  )

  pub add-AllDifferent : (x : A) (xs : List A) → AllDifferent xs → AllDifferent (add x xs)
  unfolding add
  add-AllDifferent x xs h = elim (Bool-cases (contains xs x)) [
    | inl old ↦ rw old h
    | inr new ↦ rw new (AllDifferent-append x xs h new)
  ]

  pub mem-add : (x : A) (xs : List A) {y : A} → Memᴰ y (add x xs) → (y ≡ x) ⊎ Memᴰ y xs
  unfolding add
  mem-add x xs {y} m = elim (Bool-cases (contains xs x)) [
    | inl old ↦ inr (rw old at m)
    | inr new ↦ elim (Memᴰ.append_cases xs (rw new at m)) [
      | inl before ↦ inr before
      | inr last ↦ inl (Memᴰ.eq_of_singleton last)
    ]
  ]

  pub add-mem : (x : A) (xs : List A) → Memᴰ x (add x xs)
  unfolding add
  add-mem x xs = elim (Bool-cases (contains xs x)) [
    | inl old ↦ rw old (contains-mem x xs old)
    | inr new ↦ rw new (Memᴰ.append_right xs (Memᴰ.head refl))
  ]

  pub add-keeps : (x : A) (xs : List A) {y : A} → Memᴰ y xs → Memᴰ y (add x xs)
  unfolding add
  add-keeps x xs m = elim (Bool-cases (contains xs x)) [
    | inl old ↦ rw old m
    | inr new ↦ rw new (Memᴰ.append_left (x ∷ []) m)
  ]
