-- ===== src/Base/Comprehensions.antt =====
-- Dict and set comprehensions, whose keys stand where they were first added.
use Prim.Native.Nat.{suc, ◌+◌, ◌≤◌}
use mathlib.Core.Path.{◌≡◌, sym, subst}
use mathlib.Core.Logic.{◌⊎◌, inl, inr}
use mathlib.Core.List.Memᴰ
use mathlib.Core.List.{List, [], ◌∷◌, map, Memᴰ}
use native.Mathlib.Omega.{arith}
use industrial_context_aware.Base.Tests.{Bool-cases}
use industrial_context_aware.Base.Equality.{Eq}
use industrial_context_aware.Base.Lists.{contains, length, length-append, length-map}
use industrial_context_aware.Base.Additions.{mem-add, add-mem, add-keeps}
use industrial_context_aware.Base.Dict.{add}

module _ {ℓ} {A : Type ℓ} ⦃e : Eq A⦄ where
  unfoldable pub add_all : List A → List A → List A
  add_all [] s = s
  add_all (x ∷ xs) s = add_all xs (add x s)

  mem-add_all : {a : A} (xs s : List A) → Memᴰ a (add_all xs s) → Memᴰ a s ⊎ Memᴰ a xs
  unfolding add_all
  mem-add_all [] s m = inl m
  mem-add_all {a} (x ∷ xs) s m = elim (mem-add_all {a = a} xs (add x s) m) [
    | inr later ↦ inr (Memᴰ.tail later)
    | inl here ↦ elim (mem-add x s here) [ inr old ↦ inl old | inl new ↦ inr (Memᴰ.head new) ]
  ]

  add_all-mem_old : {a : A} (xs s : List A) → Memᴰ a s → Memᴰ a (add_all xs s)
  unfolding add_all
  add_all-mem_old [] s m = m
  add_all-mem_old (x ∷ xs) s m = add_all-mem_old xs (add x s) (add-keeps x s m)

  pub add_all-mem : {a : A} (xs s : List A) → Memᴰ a xs → Memᴰ a (add_all xs s)
  unfolding add_all
  add_all-mem [] s m = elim m [ ]
  add_all-mem {a} (x ∷ xs) s (Memᴰ.head same) =
      add_all-mem_old xs (add x s) (subst (λ y. Memᴰ y (add x s)) (sym same) (add-mem x s))
  add_all-mem (x ∷ xs) s (Memᴰ.tail m) = add_all-mem xs (add x s) m

  -- `{x: f(x) for x in xs}`
  unfoldable pub dict_of {κ} : {B : Type κ} → (A → B) → List A → List (A × B)
  dict_of f xs = map (λ x. (x, f x)) (add_all xs [])

  -- Each item is a key, with its value.
  pub dict_of-mem {κ} :
      {B : Type κ} (f : A → B) (xs : List A) {a : A} → Memᴰ a xs → Memᴰ (a, f a) (dict_of f xs)
  unfolding dict_of
  dict_of-mem f xs m = Memᴰ.map (λ x. (x, f x)) (add_all-mem xs [] m)

  -- Each entry belongs to an item.
  pub mem-dict_of {κ} :
      {B : Type κ} (f : A → B) (xs : List A) {p : A × B}
      → Memᴰ p (dict_of f xs)
      → (a : A) × Memᴰ a xs × ((a, f a) ≡ p)
  unfolding dict_of
  mem-dict_of f xs m =
      let (a, n, same) = Memᴰ.of_map (λ x. (x, f x)) (add_all xs []) m in
      elim (mem-add_all {a = a} xs [] n) [
        | inl none_yet ↦ absurd (Memᴰ.not-nil none_yet)
        | inr k ↦ (a, k, same)
      ]

  length-add : (x : A) (s : List A) → length (add x s) ≤ suc (length s)
  unfolding add
  length-add x s = elim (Bool-cases (contains s x)) [
    | inl old ↦ rw old (omega arith)
    | inr new ↦ rw new (omega (arith, length-append s (x ∷ [])))
  ]

  length-add_all : (xs s : List A) → length (add_all xs s) ≤ length xs + length s
  unfolding add_all
  length-add_all [] s = omega arith
  length-add_all (x ∷ xs) s = omega (arith, length-add_all xs (add x s), length-add x s)

  -- A dict has no more entries than it was given items.
  pub length-dict_of {κ} :
      {B : Type κ} (f : A → B) (xs : List A) → length (dict_of f xs) ≤ length xs
  unfolding dict_of
  length-dict_of {B = B} f xs =
      omega (arith, length-map {B = A × B} (λ x. (x, f x)) (add_all xs []), length-add_all xs [])
