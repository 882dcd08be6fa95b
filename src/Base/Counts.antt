-- ===== src/Base/Counts.antt =====
-- Dicts of counts, in insertion order.
use Prim.Native.Nat.{ℕ, suc, ◌+◌}
use mathlib.Core.Path.{◌≡◌, refl}
use mathlib.Core.Bool.{Bool, true, false}
use mathlib.Core.Option.{Option, none, some}
use mathlib.Core.List.{List, [], ◌∷◌}
use native.Mathlib.Omega.{arith}
use industrial_context_aware.Base.Tests.{if◌then◌else◌}
use industrial_context_aware.Base.Equality.{Eq, ◌==◌}
use industrial_context_aware.Base.Lists.{count_if}

abbrev pub add_to : ℕ → Option ℕ → Option ℕ
add_to k none = none
add_to k (some n) = some (n + k)

add_to_zero : (o : Option ℕ) → o ≡ add_to 0 o
add_to_zero none = refl
add_to_zero (some n) = ground arith

add_to_add :
    (b : Bool) (k : ℕ) (o : Option ℕ)
    → add_to k (add_to (if b then 1 else 0) o) ≡ add_to (if b then suc k else k) o
add_to_add true k none = refl
add_to_add true k (some n) = ground arith
add_to_add false k none = refl
add_to_add false k (some n) = ground arith

module _ {ℓ} {A : Type ℓ} ⦃e : Eq A⦄ where
  -- `counts.get(key)`
  unfoldable pub count_at : A → List (A × ℕ) → Option ℕ
  count_at key [] = none
  count_at key ((k, n) ∷ counts) =
      let rest = count_at key counts in if k == key then some n else rest

  -- `counts[key] += 1` at a key that the dict has; at another key nothing is changed here.
  unfoldable pub increment : A → List (A × ℕ) → List (A × ℕ)
  increment key [] = []
  increment key ((k, n) ∷ counts) =
      let rest = increment key counts in if k == key then (k, n + 1) ∷ counts else (k, n) ∷ rest

  unfoldable pub increment_all : List A → List (A × ℕ) → List (A × ℕ)
  increment_all [] counts = counts
  increment_all (key ∷ keys) counts = increment_all keys (increment key counts)

  count_at-increment :
      (key s : A) (counts : List (A × ℕ))
      → count_at key (increment s counts) ≡ add_to (if s == key then 1 else 0) (count_at key counts)
  unfolding count_at increment
  count_at-increment key s [] = refl
  count_at-increment key s ((t, n) ∷ counts) =
      ground
        (arith, count_at-increment key s counts, e.beq_iff t s, e.beq_iff t key, e.beq_iff s key)

  abbrev occurrences : A → List A → ℕ
  occurrences key keys = count_if (λ s. s == key) keys

  occurrences-cons :
      (key s : A) (keys : List A)
      → occurrences key (s ∷ keys)
        ≡ (if s == key then suc (occurrences key keys) else occurrences key keys)
  occurrences-cons key s keys = ground arith

  -- Each count grows by the number of times that its key occurs.
  pub count_at-increment_all :
      (key : A) (keys : List A) (counts : List (A × ℕ))
      → count_at key (increment_all keys counts)
        ≡ add_to (count_if (λ s. s == key) keys) (count_at key counts)
  unfolding increment_all
  count_at-increment_all key [] counts = add_to_zero (count_at key counts)
  count_at-increment_all key (s ∷ keys) counts = rw (
    count_at-increment_all key keys (increment s counts),
    count_at-increment key s counts,
    add_to_add (s == key) (occurrences key keys) (count_at key counts),
    occurrences-cons key s keys,
  )
