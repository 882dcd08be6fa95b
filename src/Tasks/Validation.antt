-- ===== src/Tasks/Validation.antt =====
-- About the validators of scenarios/models.py and tasks/benchmark_task.py.
use mathlib.Core.List.{Memᴰ}
use industrial_context_aware.Base.{
  not-false, string_eq, ◌≡◌, refl, subst, ◌∙◌, ◌⊎◌, inl, inr, Bool, true, false, ◌&&◌, ◌||◌, not,
  String, List, [], ◌∷◌, is_empty, any, any_of_mem, contains, contains-mem, Bool-cases, ok,
  >>=-eq-ok, ok_inj, arith,
}
use industrial_context_aware.Base.Codes.{codes, lower, occurs}
use industrial_context_aware.Context.Dimensions.{
  ContextDimension, dimension_eq, c3_relational, c4_temporal, c6_procedural, c7_historical,
  unsupported_dimensions, is_supported, architectures_supporting,
}
use industrial_context_aware.Tasks.Scenarios.{
  FaultSchedule, BenchmarkScenario, mentions, validate_scenario,
}
use industrial_context_aware.Tasks.BenchmarkTasks.{
  BenchmarkTask, check_supportable, check_temporal, check_relational, validate_task,
}
use industrial_context_aware.Base.{filter-eq-nil, any-mem}

any-false {ℓ} :
    {A : Type ℓ} (p : A → Bool) (xs : List A) {x : A} → any p xs ≡ false → Memᴰ x xs → p x ≡ false
any-false p xs {x} h m = elim (Bool-cases (p x)) [
  | inl holds ↦ absurd (cc (any_of_mem p xs m holds, h))
  | inr fails ↦ fails
]

-- An available architecture that supplies the dimension.
abbrev pub IsSupplied : List String → ContextDimension → Type 0
IsSupplied available d = (a : String) × Memᴰ a (architectures_supporting d) × Memᴰ a available

is_supported-IsSupplied :
    (available : List String) (d : ContextDimension)
    → is_supported available d ≡ true
    → IsSupplied available d
unfolding is_supported
is_supported-IsSupplied available d h =
    let (a, m, e) = any-mem (contains available) (architectures_supporting d) h in
    (a, m, contains-mem a available e)

is_empty-nil {ℓ} : {A : Type ℓ} (xs : List A) → is_empty xs ≡ true → xs ≡ []
is_empty-nil [] h = refl
is_empty-nil (x ∷ xs) h = cc

module _ {N : Type 0} where
  leak_free :
      (s : BenchmarkScenario N) {checked : BenchmarkScenario N}
      → validate_scenario s ≡ ok checked
      → (any (mentions s.objective) s.faults ≡ false) × (s ≡ checked)
  unfolding validate_scenario
  leak_free s {checked} h = elim (Bool-cases (any (mentions s.objective) s.faults)) [
    | inl leaks ↦ absurd (cc (rw leaks at h))
    | inr silent ↦ (silent, ok_inj (rw silent at h))
  ]

  -- No fault of a scenario that passes validation is named in its objective, in any case of letters.
  pub validate_scenario_silent :
      (s : BenchmarkScenario N) {checked : BenchmarkScenario N} {fault : FaultSchedule N}
      → validate_scenario s ≡ ok checked
      → Memᴰ fault checked.faults
      → occurs (lower (codes fault.disturbance)) (lower (codes checked.objective)) ≡ false
  unfolding mentions
  validate_scenario_silent s {checked} {fault} h m =
      let (silent, same) = leak_free s h in
      any-false (mentions checked.objective) checked.faults
        (subst (λ (t : BenchmarkScenario N). any (mentions t.objective) t.faults ≡ false) same
          silent)
        m

  supportable :
      (t : BenchmarkTask N) {u : BenchmarkTask N}
      → check_supportable t ≡ ok u
      → (t ≡ u)
        × (unsupported_dimensions t.required_context_dimensions t.available_architectures ≡ [])
  unfolding check_supportable
  supportable t h =
      elim (Bool-cases (
        is_empty
          (unsupported_dimensions t.required_context_dimensions t.available_architectures))) [
            | inl none_left ↦ (ok_inj (rw none_left at h), is_empty-nil _ none_left)
            | inr some_left ↦ absurd (cc (rw some_left at h))
          ]

  timed : (t : BenchmarkTask N) {u : BenchmarkTask N} → check_temporal t ≡ ok u → t ≡ u
  unfolding check_temporal
  timed t h =
      elim (Bool-cases (
        t.expected_temporal_evidence
        && not (
            contains t.required_context_dimensions c4_temporal
            || contains t.required_context_dimensions c7_historical))) [
              | inl bad ↦ absurd (cc (rw bad at h))
              | inr good ↦ ok_inj (rw good at h)
            ]

  -- The dimensions that carry relationships are required where relationships are expected.
  related :
      (t : BenchmarkTask N) {u : BenchmarkTask N}
      → check_relational t ≡ ok u
      → (t ≡ u)
        × (is_empty t.expected_relationships ≡ false
            → (contains t.required_context_dimensions c3_relational ≡ true)
              ⊎ (contains t.required_context_dimensions c6_procedural ≡ true))
  unfolding check_relational
  related t h =
      elim (Bool-cases (
        not (is_empty t.expected_relationships)
        && not (
            contains t.required_context_dimensions c3_relational
            || contains t.required_context_dimensions c6_procedural))) [
              | inl bad ↦ absurd (cc (rw bad at h))
              | inr good ↦ (ok_inj (rw good at h), λ expected. one_of _ _ _ expected good)
            ]
    where
      one_of : (e a b : Bool) → e ≡ false → not e && not (a || b) ≡ false → (a ≡ true) ⊎ (b ≡ true)
      one_of e true b h k = inl refl
      one_of e false true h k = inr refl
      one_of e false false h k = absurd (ground arith)

  -- A task that passes validation permits, for each dimension that it requires, an architecture that
  -- supplies it.
  pub validate_task-IsSupplied :
      (t : BenchmarkTask N) {checked : BenchmarkTask N}
      → validate_task t ≡ ok checked
      → (d : ContextDimension) → Memᴰ d checked.required_context_dimensions
      → IsSupplied checked.available_architectures d
  unfolding validate_task unsupported_dimensions
  validate_task-IsSupplied t {checked} h d m =
      let (a, first, h1) = >>=-eq-ok (check_supportable t) _ h in
      let (b, second, last) = >>=-eq-ok (check_temporal a) _ h1 in
      let (same, nothing_left) = supportable t first in
      let whole : t ≡ checked = same ∙ (timed a second ∙ (related b last).0) in
      is_supported-IsSupplied checked.available_architectures d (
        not-false (
          filter-eq-nil (λ d. not (is_supported checked.available_architectures d))
            checked.required_context_dimensions
            (subst
              (λ (u : BenchmarkTask N).
                unsupported_dimensions u.required_context_dimensions u.available_architectures ≡ [])
              whole nothing_left)
            m))

  -- A task that passes validation and expects relationships permits an architecture that supplies
  -- relational or procedural context.
  pub validate_task_related :
      (t : BenchmarkTask N) {checked : BenchmarkTask N}
      → validate_task t ≡ ok checked
      → is_empty checked.expected_relationships ≡ false
      → IsSupplied checked.available_architectures c3_relational
        ⊎ IsSupplied checked.available_architectures c6_procedural
  unfolding validate_task
  validate_task_related t {checked} h expected =
      let (a, first, h1) = >>=-eq-ok (check_supportable t) _ h in
      let (b, second, last) = >>=-eq-ok (check_temporal a) _ h1 in
      let (same, covered) = related b last in
      elim (subst
        (λ (u : BenchmarkTask N).
          (is_empty u.expected_relationships ≡ false)
          → (contains u.required_context_dimensions c3_relational ≡ true)
            ⊎ (contains u.required_context_dimensions c6_procedural ≡ true))
        same covered expected) [
          | inl r ↦ inl (
              validate_task-IsSupplied t h c3_relational
                (contains-mem c3_relational checked.required_context_dimensions r))
          | inr p ↦ inr (
              validate_task-IsSupplied t h c6_procedural
                (contains-mem c6_procedural checked.required_context_dimensions p))
        ]
