-- ===== src/Context/Dimensions/Coverage.antt =====
-- About `provided_dimensions` and `unsupported_dimensions` of tasks/context_dimensions.py.
use mathlib.Core.List.{Memᴰ}
use industrial_context_aware.Base.{
  ◌≡◌, refl, ◌↔◌, true, String, List, [], ◌∷◌, arith, contains, subset, inl, inr, any-mem,
  any_of_mem, all_of_mem, all-mem, mem-filter, mem-filter_of_mem, contains-mem, contains_of_mem,
  string_eq, Bool-cases,
}
use industrial_context_aware.Context.Dimensions.{
  ContextDimension, dimension_eq, canonical_dimension_order, architectures_supporting, is_supported,
  provided_dimensions, unsupported_dimensions, c1_semantic,
}

pub mem-provided_dimensions :
    {d : ContextDimension} (arm : List String)
    → Memᴰ d (provided_dimensions arm)
    → is_supported arm d ≡ true
unfolding provided_dimensions
mem-provided_dimensions arm m = (mem-filter (is_supported arm) canonical_dimension_order m).1

all_dimensions : (d : ContextDimension) → contains canonical_dimension_order d ≡ true
all_dimensions c1_semantic = refl
all_dimensions _ = refl

pub provided_dimensions-mem :
    {d : ContextDimension} (arm : List String)
    → is_supported arm d ≡ true
    → Memᴰ d (provided_dimensions arm)
unfolding provided_dimensions
provided_dimensions-mem {d} arm h =
    mem-filter_of_mem (is_supported arm) canonical_dimension_order
      (contains-mem d canonical_dimension_order (all_dimensions d)) h

pub is_supported_mono :
    (xs ys : List String) (d : ContextDimension)
    → ((a : String) → Memᴰ a xs → Memᴰ a ys)
    → is_supported xs d ≡ true
    → is_supported ys d ≡ true
unfolding is_supported
is_supported_mono xs ys d sub h =
    let (a, m, c) = any-mem (contains xs) (architectures_supporting d) h in
    any_of_mem (contains ys) (architectures_supporting d) m
      (contains_of_mem ys (sub a (contains-mem a xs c)))

-- More architectures never provide fewer dimensions.
pub provided_dimensions_mono :
    (xs ys : List String)
    → subset xs ys ≡ true
    → subset (provided_dimensions xs) (provided_dimensions ys) ≡ true
provided_dimensions_mono xs ys h =
    all_of_mem (contains (provided_dimensions ys)) (provided_dimensions xs) λ d m.
      contains_of_mem (provided_dimensions ys) (
        provided_dimensions-mem ys (
          is_supported_mono xs ys d (λ a n. contains-mem a ys (all-mem (contains ys) xs h n))
            (mem-provided_dimensions xs m)))

unsupported-nil-subset :
    (required : List ContextDimension) (available : List String)
    → unsupported_dimensions required available ≡ []
    → subset required (provided_dimensions available) ≡ true
unfolding unsupported_dimensions
unsupported-nil-subset [] available h = refl
unsupported-nil-subset (d ∷ required) available h = elim (Bool-cases (is_supported available d)) [
  | inl found ↦
      rw (contains_of_mem (provided_dimensions available) (provided_dimensions-mem available found))
        (unsupported-nil-subset required available (rw found at h))
  | inr missing ↦ cc (rw missing at h)
]

unsupported_of_subset :
    (required : List ContextDimension) (available : List String)
    → subset required (provided_dimensions available) ≡ true
    → unsupported_dimensions required available ≡ []
unfolding unsupported_dimensions
unsupported_of_subset [] available h = refl
unsupported_of_subset (d ∷ required) available h =
    let found : contains (provided_dimensions available) d ≡ true = ground arith in
    rw (mem-provided_dimensions available (contains-mem d (provided_dimensions available) found))
      (unsupported_of_subset required available (ground arith))

-- `unsupported_dimensions` and `provided_dimensions` agree: a task lacks nothing exactly if what
-- it requires is among what its architectures provide.
pub unsupported_dimensions-eq-nil_iff :
    (required : List ContextDimension) (available : List String)
    → (unsupported_dimensions required available ≡ [])
      ↔ (subset required (provided_dimensions available) ≡ true)
unsupported_dimensions-eq-nil_iff required available =
    (unsupported-nil-subset required available, unsupported_of_subset required available)
