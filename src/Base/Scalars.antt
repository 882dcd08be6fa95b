-- ===== src/Base/Scalars.antt =====
-- The values that a record is grouped or compared by: `str | int | float | None`, with `==` and
-- `str`. A dimension or a control has values of one of these kinds, so `==` between an integer and a
-- float does not occur.
use Prim.Native.Nat.{ℕ}
use Prim.Native.String.{String}
use mathlib.Core.Path.{◌≡◌, refl, ap}
use mathlib.Core.Logic.{◌↔◌}
use mathlib.Core.Bool.{Bool, true, false}
use mathlib.Core.Option.{Option, none, some}
use industrial_context_aware.Base.Decimal.{decimal}
use industrial_context_aware.Base.Equality.{Eq, ◌==◌, string_eq, nat_eq}
use industrial_context_aware.Base.Float.{Float}

pub data Scalar (N : Type 0) : Type 0 where
  nothing : Scalar N
  text : String → Scalar N
  integer : ℕ → Scalar N
  number : N → Scalar N

unfoldable pub of_option : {A N : Type 0} → (A → Scalar N) → Option A → Scalar N
of_option f none = nothing
of_option f (some a) = f a

-- `str(value)`
unfoldable pub show : {N : Type 0} ⦃f : Float N⦄ → Scalar N → String
show nothing = "None"
show (text s) = s
show (integer n) = decimal n
show ⦃f⦄ (number x) = f.show x

module _ {N : Type 0} ⦃e : Eq N⦄ where
  abbrev pub scalar_beq : Scalar N → Scalar N → Bool
  scalar_beq nothing nothing = true
  scalar_beq (text s) (text t) = s == t
  scalar_beq (integer m) (integer n) = m == n
  scalar_beq (number x) (number y) = x == y
  scalar_beq a b = false

  pub scalar_beq_iff : (a b : Scalar N) → (scalar_beq a b ≡ true) ↔ (a ≡ b)
  scalar_beq_iff nothing nothing = (λ h. refl, λ h. refl)
  scalar_beq_iff (text s) (text t) = (
    λ h. ap text ((string_eq.beq_iff s t).0 h),
    λ h. (string_eq.beq_iff s t).1 (ap (λ (a : Scalar N). elim a [ text u ↦ u | _ ↦ s ]) h),
  )
  scalar_beq_iff (integer m) (integer n) = (
    λ h. ap integer ((nat_eq.beq_iff m n).0 h),
    λ h. (nat_eq.beq_iff m n).1 (ap (λ (a : Scalar N). elim a [ integer k ↦ k | _ ↦ m ]) h),
  )
  scalar_beq_iff (number x) (number y) = (
    λ h. ap number ((e.beq_iff x y).0 h),
    λ h. (e.beq_iff x y).1 (ap (λ (a : Scalar N). elim a [ number z ↦ z | _ ↦ x ]) h),
  )
  scalar_beq_iff a b = (λ h. cc, λ h. cc)

  instance abbrev pub scalar_eq : Eq (Scalar N)
  scalar_eq = record { beq = scalar_beq; beq_iff = scalar_beq_iff }
