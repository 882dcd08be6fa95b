-- ===== src/Evaluation/InformationFlow/Architectures.antt =====
-- Which measurements a report lists as redundant.
use mathlib.Core.List.Memᴰ
use mathlib.Core.List.{Memᴰ}
use mathlib.Core.Path.{subst}
use industrial_context_aware.Base.{
  ◌≡◌, ◌≢◌, ◌↔◌, refl, sym, ◌∙◌, arith, ◌==◌, Bool, true, false, String, List, [], ◌∷◌, map, filter,
  length, if◌then◌else◌, ltb, string_eq, inl, inr, Bool-cases, mem-filter, mem-filter_of_mem,
}
use industrial_context_aware.Base.Dict.{add, setdefault_then}
use industrial_context_aware.Base.Sort.{str_lt, mem-sort, sort-mem}
use industrial_context_aware.Agent.Trace.{TraceEvent}
use industrial_context_aware.Evaluation.Report.{AcquisitionRecord}
use industrial_context_aware.Evaluation.InformationFlow.{
  nothing_yet, read_trace, architectures_used, report_of, analyze,
}
use industrial_context_aware.Base.Additions.{
  AllDifferent, add-AllDifferent, mem-add, add-mem, add-keeps,
}
use industrial_context_aware.Base.DictOfSets.{
  under, under-setdefault_then, under-mem, two_of_long, long_of_two,
}

-- The architecture of each acquisition is kept under its measurement.
architectures_used-keeps :
    (acquisitions : List AcquisitionRecord) (used : List (String × List String)) (id : String)
    {x : String}
    → Memᴰ x (under id used)
    → Memᴰ x (under id (architectures_used acquisitions used))
unfolding architectures_used
architectures_used-keeps [] used id m = m
architectures_used-keeps (a ∷ acquisitions) used id {x} m =
    architectures_used-keeps acquisitions _ id (
      rw (under-setdefault_then id a.canonical_id a.architecture used)
        (kept (a.canonical_id == id)))
  where
    kept : (b : Bool) → Memᴰ x (if b then add a.architecture (under id used) else under id used)
    kept true = add-keeps a.architecture (under id used) m
    kept false = m

architectures_used-mem :
    (acquisitions : List AcquisitionRecord) (used : List (String × List String))
    (a : AcquisitionRecord)
    → Memᴰ a acquisitions
    → Memᴰ a.architecture (under a.canonical_id (architectures_used acquisitions used))
unfolding architectures_used
architectures_used-mem [] used a m = elim m [ ]
architectures_used-mem (b ∷ acquisitions) used a (Memᴰ.tail m) =
    architectures_used-mem acquisitions _ a m
architectures_used-mem (b ∷ acquisitions) used a (Memᴰ.head same) =
    subst
      (λ (c : AcquisitionRecord). Memᴰ c.architecture (
        under c.canonical_id (
          architectures_used acquisitions
            (setdefault_then b.canonical_id [] (add b.architecture) used))))
      (sym same)
      (architectures_used-keeps acquisitions _ b.canonical_id (
        rw
          (
            under-setdefault_then b.canonical_id b.canonical_id b.architecture used,
            (string_eq.beq_iff b.canonical_id b.canonical_id).1 refl,
          )
          (add-mem b.architecture (under b.canonical_id used))))

module _ (all_acquisitions : List AcquisitionRecord) where
  -- An entry of the dict: different architectures, each of an acquisition of the measurement.
  abbrev IsBacked : String × List String → Type 0
  IsBacked entry =
      AllDifferent entry.1
      × ((x : String)
          → Memᴰ x entry.1
          → (a : AcquisitionRecord) × Memᴰ a all_acquisitions
            × (a.canonical_id ≡ entry.0)
            × (a.architecture ≡ x))

  add-IsBacked :
      (a : AcquisitionRecord) (id : String) (xs : List String)
      → Memᴰ a all_acquisitions
      → a.canonical_id ≡ id
      → IsBacked (id, xs)
      → IsBacked (id, add a.architecture xs)
  add-IsBacked a id xs m same (different, backed) = (
    add-AllDifferent a.architecture xs different,
    (λ x n. elim (mem-add a.architecture xs n) [
      | inl new ↦ (a, m, same, sym new)
      | inr old ↦ backed x old
    ]),
  )

  setdefault_then-IsBacked :
      (a : AcquisitionRecord) (used : List (String × List String))
      → Memᴰ a all_acquisitions
      → ((entry : String × List String) → Memᴰ entry used → IsBacked entry)
      → (entry : String × List String)
      → Memᴰ entry (setdefault_then a.canonical_id [] (add a.architecture) used)
      → IsBacked entry
  unfolding setdefault_then
  setdefault_then-IsBacked a [] m h entry n =
      subst IsBacked (sym (Memᴰ.eq_of_singleton n))
        (add-IsBacked a a.canonical_id [] m refl (omega arith, λ x k. elim k [ ]))
  setdefault_then-IsBacked a ((k, xs) ∷ used) m h entry n =
      elim (Bool-cases (a.canonical_id == k)) [
        | inl same ↦ elim (Memᴰ.cases_cons (rw same at n)) [
          | inl first ↦ subst IsBacked (sym first) (
              add-IsBacked a k xs m ((string_eq.beq_iff a.canonical_id k).0 same)
                (h (k, xs) (Memᴰ.head refl)))
          | inr later ↦ h entry (Memᴰ.tail later)
        ]
        | inr other ↦ elim (Memᴰ.cases_cons (rw other at n)) [
          | inl first ↦ h entry (Memᴰ.head first)
          | inr later ↦ setdefault_then-IsBacked a used m (λ e p. h e (Memᴰ.tail p)) entry later
        ]
      ]

  architectures_used-IsBacked :
      (acquisitions : List AcquisitionRecord) (used : List (String × List String))
      → ((a : AcquisitionRecord) → Memᴰ a acquisitions → Memᴰ a all_acquisitions)
      → ((entry : String × List String) → Memᴰ entry used → IsBacked entry)
      → (entry : String × List String) → Memᴰ entry (architectures_used acquisitions used)
      → IsBacked entry
  unfolding architectures_used
  architectures_used-IsBacked [] used sub h entry m = h entry m
  architectures_used-IsBacked (a ∷ acquisitions) used sub h entry m =
      architectures_used-IsBacked acquisitions _ (λ b n. sub b (Memᴰ.tail n))
        (setdefault_then-IsBacked a used (sub a (Memᴰ.head refl)) h) entry m

-- The entries with more than one architecture.
abbrev is_redundant : String × List String → Bool
is_redundant entry = ltb 1 (length entry.1)

redundant_of_two :
    (acquisitions : List AcquisitionRecord) (a b : AcquisitionRecord)
    → Memᴰ a acquisitions
    → Memᴰ b acquisitions
    → b.canonical_id ≡ a.canonical_id
    → a.architecture ≢ b.architecture
    → Memᴰ a.canonical_id (
        map
          (λ (entry : String × List String). entry.0)
          (filter is_redundant (architectures_used acquisitions [])))
redundant_of_two acquisitions a b m n same other =
    let used = architectures_used acquisitions [] in
    let one = architectures_used-mem acquisitions [] a m in
    let two =
      subst (λ id. Memᴰ b.architecture (under id used)) same
        (architectures_used-mem acquisitions [] b n) in
    Memᴰ.map (λ (entry : String × List String). entry.0)
      (mem-filter_of_mem is_redundant used (under-mem a.canonical_id used one)
        (long_of_two (under a.canonical_id used) one two other))

two_of_redundant :
    (acquisitions : List AcquisitionRecord) (id : String)
    → Memᴰ id (
        map
          (λ (entry : String × List String). entry.0)
          (filter is_redundant (architectures_used acquisitions [])))
    → (a : AcquisitionRecord) × (b : AcquisitionRecord) × Memᴰ a acquisitions
      × Memᴰ b acquisitions
      × (a.canonical_id ≡ id)
      × (b.canonical_id ≡ id)
      × (a.architecture ≢ b.architecture)
two_of_redundant acquisitions id m =
    let (entry, kept, named) =
      Memᴰ.of_map (λ (entry : String × List String). entry.0)
        (filter is_redundant (architectures_used acquisitions [])) m in
    let (listed, long) = mem-filter is_redundant (architectures_used acquisitions []) kept in
    let (different, backed) =
      architectures_used-IsBacked acquisitions acquisitions [] (λ a n. n) (λ e n. elim n [ ]) entry
        listed in
    let (x, y, x_in, y_in, other) = two_of_long entry.1 different long in
    let (a, a_in, a_id, a_is) = backed x x_in in
    let (b, b_in, b_id, b_is) = backed y y_in in
    (a, b, a_in, b_in, a_id ∙ named, b_id ∙ named, (λ e. other (sym a_is ∙ (e ∙ b_is))))

module _ (names : List (String × String)) {N : Type 0} (trace : List (TraceEvent N)) where
  -- A report lists a measurement as redundant exactly if it has two acquisitions of it through
  -- different architectures.
  pub analyze-redundant_measurements_iff :
      (id : String)
      → Memᴰ id (analyze names trace).redundant_measurements ↔ (
          (a : AcquisitionRecord) × (b : AcquisitionRecord) × Memᴰ a
            (analyze names trace).acquisitions
          × Memᴰ b (analyze names trace).acquisitions
          × (a.canonical_id ≡ id)
          × (b.canonical_id ≡ id)
          × (a.architecture ≢ b.architecture))
  unfolding analyze report_of
  analyze-redundant_measurements_iff id =
      let acquired = (read_trace names trace nothing_yet).acquisitions in
      (
        (λ m. two_of_redundant acquired id (mem-sort str_lt _ m)),
        (λ (a, b, m, n, here, there, other). sort-mem str_lt _ (
            subst
              (λ i. Memᴰ i (
                map (λ (entry : String × List String). entry.0)
                  (filter is_redundant (architectures_used acquired []))))
              here (redundant_of_two acquired a b m n (there ∙ sym here) other))),
      )
