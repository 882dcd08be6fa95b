-- ===== src/Base/Tests.antt =====
-- Boolean tests on the native numbers, the conditional, and splits that keep an equation.
use Prim.Native.Nat.{ℕ, ◌≤◌, ◌<◌, compare, Ordering}
use mathlib.Core.Path.{◌≡◌, refl}
use mathlib.Core.Logic.{◌↔◌, ◌⊎◌, inl, inr}
use mathlib.Core.Bool.{Bool, true, false, not, ◌&&◌, ◌||◌}
use mathlib.Core.Option.{Option, none, some}
use native.Mathlib.Omega.{arith}

abbrev pub ltb : ℕ → ℕ → Bool
ltb a b = elim (compare a b) [ Ordering.lt ↦ true | _ ↦ false ]

abbrev pub leb : ℕ → ℕ → Bool
leb a b = elim (compare a b) [ Ordering.gt ↦ false | _ ↦ true ]

abbrev pub nat_beq : ℕ → ℕ → Bool
nat_beq a b = elim (compare a b) [ Ordering.eq ↦ true | _ ↦ false ]

infix 1 if◌then◌else◌
abbrev pub if◌then◌else◌ {ℓ} : {A : Type ℓ} → Bool → A → A → A
if true then x else y = x
if false then x else y = y

pub ltb→lt : (a b : ℕ) → ltb a b ≡ true → a < b
ltb→lt a b h = ground arith

pub lt→ltb : {a b : ℕ} → a < b → ltb a b ≡ true
lt→ltb h = ground arith

pub leb→le : (a b : ℕ) → leb a b ≡ true → a ≤ b
leb→le a b h = ground arith

pub nat_beq_iff : (a b : ℕ) → (nat_beq a b ≡ true) ↔ (a ≡ b)
nat_beq_iff a b = ground arith

pub Bool-cases : (b : Bool) → (b ≡ true) ⊎ (b ≡ false)
Bool-cases true = inl refl
Bool-cases false = inr refl

pub Option-cases {ℓ} : {A : Type ℓ} (o : Option A) → (o ≡ none) ⊎ ((a : A) × (o ≡ some a))
Option-cases none = inl refl
Option-cases (some a) = inr (a, refl)

pub not-true : {b : Bool} → not b ≡ true → b ≡ false
not-true h = ground arith

pub not-false : {b : Bool} → not b ≡ false → b ≡ true
not-false h = ground arith

-- Boolean connectives read as propositions.
module _ {ℓ κ} {P : Type ℓ} {Q : Type κ} {a b : Bool} where
  pub both_iff : (a ≡ true) ↔ P → (b ≡ true) ↔ Q → (a && b ≡ true) ↔ (P × Q)
  both_iff p q =
      (λ h. let (x, y) = parts a b h in (p.0 x, q.0 y), λ (x, y). together (p.1 x) (q.1 y))
    where
      parts : (a b : Bool) → a && b ≡ true → (a ≡ true) × (b ≡ true)
      parts a b h = ground arith

      together : {a b : Bool} → a ≡ true → b ≡ true → a && b ≡ true
      together x y = ground arith

  pub either_iff : (a ≡ true) ↔ P → (b ≡ true) ↔ Q → (a || b ≡ true) ↔ (P ⊎ Q)
  either_iff p q = (
    λ h. elim (parts a b h) [ inl x ↦ inl (p.0 x) | inr y ↦ inr (q.0 y) ],
    λ s. elim s [ inl x ↦ left a b (p.1 x) | inr y ↦ right a b (q.1 y) ],
  )
    where
      parts : (a b : Bool) → a || b ≡ true → (a ≡ true) ⊎ (b ≡ true)
      parts true b h = inl refl
      parts false b h = inr h

      left : (a b : Bool) → a ≡ true → a || b ≡ true
      left a b h = ground arith

      right : (a b : Bool) → b ≡ true → a || b ≡ true
      right a b h = ground arith
