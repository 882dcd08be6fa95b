-- ===== src/Base/DictOfSets.antt =====
-- Dicts of sets: what is kept under a key, without repetition.
use mathlib.Core.List.Memᴰ
use mathlib.Core.Path.{◌≡◌, refl, sym, ap, ◌∙◌}
use mathlib.Core.Logic.{◌≢◌, inl, inr}
use mathlib.Core.Bool.{true}
use mathlib.Core.List.{List, [], ◌∷◌, Memᴰ}
use native.Mathlib.Omega.{arith}
use Prim.Native.String.{String}
use industrial_context_aware.Base.Tests.{if◌then◌else◌, ltb, Bool-cases}
use industrial_context_aware.Base.Equality.{◌==◌, string_eq}
use industrial_context_aware.Base.Lists.{contains_of_mem, length}
use industrial_context_aware.Base.Additions.{AllDifferent}
use industrial_context_aware.Base.Dict.{add, setdefault_then}

-- The set kept under a key, empty where there is none.
unfoldable pub under : String → List (String × List String) → List String
under id [] = []
under id ((k, xs) ∷ used) = let rest = under id used in if k == id then xs else rest

pub under-setdefault_then :
    (id key x : String) (used : List (String × List String))
    → under id (setdefault_then key [] (add x) used)
      ≡ (if key == id then add x (under id used) else under id used)
unfolding under setdefault_then
under-setdefault_then id key x [] = refl
under-setdefault_then id key x ((k, xs) ∷ used) = ground (
  arith,
  under-setdefault_then id key x used,
  string_eq.beq_iff key k,
  string_eq.beq_iff k id,
  string_eq.beq_iff key id,
)

pub under-mem :
    (id : String) {x : String} (used : List (String × List String))
    → Memᴰ x (under id used)
    → Memᴰ (id, under id used) used
unfolding under
under-mem id [] m = elim m [ ]
under-mem id {x} ((k, xs) ∷ used) m = elim (Bool-cases (k == id)) [
  | inl same ↦
      rw same (Memᴰ.head (ap (λ (i : String). (i, xs)) (sym ((string_eq.beq_iff k id).0 same))))
  | inr other ↦ rw other (Memᴰ.tail (under-mem id {x = x} used (rw other at m)))
]

-- Two different members.
pub two_of_long :
    (xs : List String)
    → AllDifferent xs
    → ltb 1 (length xs) ≡ true
    → (x y : String) × Memᴰ x xs × Memᴰ y xs × (x ≢ y)
two_of_long [] different long = absurd (cc long)
two_of_long (x ∷ []) different long = absurd (cc long)
two_of_long (x ∷ y ∷ xs) (fresh, different) long = (
  x,
  y,
  Memᴰ.head refl,
  Memᴰ.tail (Memᴰ.head refl),
  (λ e. absurd (cc (fresh, contains_of_mem (y ∷ xs) (Memᴰ.head e)))),
)

pub long_of_two :
    (xs : List String) {x y : String} → Memᴰ x xs → Memᴰ y xs → x ≢ y → ltb 1 (length xs) ≡ true
long_of_two [] m n other = elim m [ ]
long_of_two (z ∷ []) m n other =
    absurd (other (Memᴰ.eq_of_singleton m ∙ sym (Memᴰ.eq_of_singleton n)))
long_of_two (z ∷ w ∷ xs) m n other = ground arith
