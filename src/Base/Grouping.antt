-- ===== src/Base/Grouping.antt =====
-- Grouping by a key, `groups.setdefault(key, []).append(x)`, read as a filter.
use Prim.Native.Nat.{ℕ, suc}
use mathlib.Core.Path.{◌≡◌, refl, sym, subst, ap}
use mathlib.Core.Logic.{inl, inr}
use mathlib.Core.List.Memᴰ
use mathlib.Core.List.{List, [], ◌∷◌, ◌++◌, Memᴰ}
use native.Mathlib.Omega.{arith}
use industrial_context_aware.Base.Tests.{if◌then◌else◌, Bool-cases}
use industrial_context_aware.Base.Equality.{Eq, ◌==◌}
use industrial_context_aware.Base.Lists.{length, sum_by, length-append, contains_of_mem}
use industrial_context_aware.Base.Dict.{add, setdefault_then, keys, keys-setdefault_then}
use industrial_context_aware.Base.Additions.{AllDifferent, add-AllDifferent}

module _ {κ ℓ} {A : Type κ} ⦃e : Eq A⦄ {V : Type ℓ} where
  -- `groups.setdefault(key, []).append(x)`
  unfoldable pub append_at : A → V → List (A × List V) → List (A × List V)
  append_at key x groups = setdefault_then key [] (λ vs. vs ++ x ∷ []) groups

  -- `groups.get(key, [])`
  unfoldable pub entry_at : A → List (A × List V) → List V
  entry_at key [] = []
  entry_at key ((k, vs) ∷ groups) = let rest = entry_at key groups in if k == key then vs else rest

  pub entry_at-append_at :
      (k key : A) (x : V) (groups : List (A × List V))
      → entry_at k (append_at key x groups)
        ≡ (if key == k then entry_at k groups ++ x ∷ [] else entry_at k groups)
  unfolding append_at setdefault_then entry_at
  entry_at-append_at k key x [] = ground arith
  entry_at-append_at k key x ((j, vs) ∷ groups) =
      ground
        (arith, entry_at-append_at k key x groups, e.beq_iff key j, e.beq_iff j k, e.beq_iff key k)

  -- With different keys, an entry is what its key finds.
  pub entry_at_of_mem :
      (groups : List (A × List V)) {key : A} {vs : List V}
      → AllDifferent (keys groups)
      → Memᴰ (key, vs) groups
      → entry_at key groups ≡ vs
  unfolding entry_at keys
  entry_at_of_mem [] different m = elim m [ ]
  entry_at_of_mem ((k, ws) ∷ groups) {key} {vs} (fresh, different) m = elim (Memᴰ.cases_cons m) [
    | inl same ↦
        rw ((e.beq_iff k key).1 (sym (ap (λ (p : A × List V). p.0) same)))
          (sym (ap (λ (p : A × List V). p.1) same))
    | inr later ↦ elim (Bool-cases (k == key)) [
      | inl equal ↦ absurd (
          cc (
            fresh,
            rw (sym ((e.beq_iff k key).0 equal)) at
                (contains_of_mem (keys groups) (Memᴰ.map (λ (p : A × List V). p.0) later)),
          ))
      | inr other ↦ rw other (entry_at_of_mem groups different later)
    ]
  ]

  -- The number of grouped values.
  abbrev pub total : List (A × List V) → ℕ
  total groups = sum_by (λ (p : A × List V). length p.1) groups

  pub total-append_at :
      (key : A) (x : V) (groups : List (A × List V))
      → total (append_at key x groups) ≡ suc (total groups)
  unfolding append_at setdefault_then
  total-append_at key x [] = refl
  total-append_at key x ((k, vs) ∷ groups) = elim (Bool-cases (key == k)) [
    | inl same ↦ rw same (omega (arith, length-append vs (x ∷ [])))
    | inr other ↦ rw other (omega (arith, total-append_at key x groups))
  ]

  pub keys-append_at :
      (key : A) (x : V) (groups : List (A × List V))
      → keys (append_at key x groups) ≡ add key (keys groups)
  unfolding append_at
  keys-append_at key x groups = keys-setdefault_then key [] (λ vs. vs ++ x ∷ []) groups

  -- Grouping keeps the keys different.
  pub append_at-AllDifferent :
      (key : A) (x : V) (groups : List (A × List V))
      → AllDifferent (keys groups)
      → AllDifferent (keys (append_at key x groups))
  append_at-AllDifferent key x groups different =
      subst AllDifferent (sym (keys-append_at key x groups))
        (add-AllDifferent key (keys groups) different)
