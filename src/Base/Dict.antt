-- ===== src/Base/Dict.antt =====
-- `d.setdefault(key, default)` followed by a change of the value, over a dict in insertion order.
use mathlib.Core.Path.{◌≡◌, refl}
use mathlib.Core.List.{List, [], ◌∷◌, ◌++◌, map}
use native.Mathlib.Omega.{arith}
use industrial_context_aware.Base.Tests.{if◌then◌else◌}
use industrial_context_aware.Base.Equality.{Eq, ◌==◌, string_eq}
use industrial_context_aware.Base.Lists.{contains}

-- `s.add(x)`
unfoldable pub add {ℓ} : {A : Type ℓ} ⦃e : Eq A⦄ → A → List A → List A
add x s = if contains s x then s else s ++ x ∷ []

module _ {κ ℓ} {A : Type κ} ⦃e : Eq A⦄ {V : Type ℓ} where
  unfoldable pub setdefault_then : A → V → (V → V) → List (A × V) → List (A × V)
  setdefault_then key default f [] = (key, f default) ∷ []
  setdefault_then key default f ((k, v) ∷ dict) =
      let rest = setdefault_then key default f dict in
      if key == k then (k, f v) ∷ dict else (k, v) ∷ rest

  unfoldable pub keys : List (A × V) → List A
  keys dict = map (λ (entry : A × V). entry.0) dict

  -- The keys are changed like a set.
  pub keys-setdefault_then :
      (key : A) (default : V) (f : V → V) (dict : List (A × V))
      → keys (setdefault_then key default f dict) ≡ add key (keys dict)
  unfolding keys setdefault_then add
  keys-setdefault_then key default f [] = refl
  keys-setdefault_then key default f ((k, v) ∷ dict) =
      ground (arith, keys-setdefault_then key default f dict)
