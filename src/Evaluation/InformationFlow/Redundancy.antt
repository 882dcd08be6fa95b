-- ===== src/Evaluation/InformationFlow/Redundancy.antt =====
-- How many acquisitions were redundant, and where the acquisitions come from.
use industrial_context_aware.Base.{
  suc, ◌+◌, ◌≤◌, ◌≡◌, refl, sym, ap, ◌∙◌, arith, ◌==◌, String, List, [], ◌∷◌, ◌++◌, length,
  string_eq, inl, inr, Bool-cases, length-append, length-map,
}
use industrial_context_aware.Base.Dict.{add, setdefault_then, keys, keys-setdefault_then}
use industrial_context_aware.Base.Sort.{sort, str_lt, length-sort}
use industrial_context_aware.Agent.Trace.{TraceEvent}
use industrial_context_aware.Evaluation.Report.{AcquisitionRecord}
use industrial_context_aware.Evaluation.InformationFlow.{
  nothing_yet, read_trace, architectures_used, group_by_measurement, redundant_count, key_lt,
  report_of, analyze,
}

-- The dicts `architectures_used` and `_group_by_measurement` have the same keys.
same_keys :
    (acquisitions : List AcquisitionRecord) (used : List (String × List String))
    (groups : List (String × List AcquisitionRecord))
    → keys used ≡ keys groups
    → keys (architectures_used acquisitions used) ≡ keys (group_by_measurement acquisitions groups)
unfolding architectures_used group_by_measurement
same_keys [] used groups e = e
same_keys (a ∷ acquisitions) used groups e = same_keys acquisitions _ _ (
    keys-setdefault_then a.canonical_id [] (add a.architecture) used
    ∙ (ap (add a.canonical_id) e
        ∙ sym (keys-setdefault_then a.canonical_id [] (λ records. records ++ a ∷ []) groups)))

-- No group is empty.
abbrev AllFilled : List (String × List AcquisitionRecord) → Type 0
AllFilled [] = 0 ≤ 0
AllFilled ((id, records) ∷ groups) = (1 ≤ length records) × AllFilled groups

-- One more acquisition is one more redundant one, or has a measurement of its own.
setdefault_then-counts :
    (a : AcquisitionRecord) (groups : List (String × List AcquisitionRecord))
    → AllFilled groups
    → AllFilled (setdefault_then a.canonical_id [] (λ records. records ++ a ∷ []) groups)
      × (redundant_count (setdefault_then a.canonical_id [] (λ records. records ++ a ∷ []) groups)
            + length (setdefault_then a.canonical_id [] (λ records. records ++ a ∷ []) groups)
          ≡ suc (redundant_count groups + length groups))
unfolding setdefault_then redundant_count
setdefault_then-counts a [] filled = ((omega arith, omega arith), omega arith)
setdefault_then-counts a ((id, records) ∷ groups) (filled, others) =
    elim (Bool-cases (a.canonical_id == id)) [
      | inl same ↦ rw same (
        (omega (arith, length-append records (a ∷ [])), others),
        omega (arith, filled, length-append records (a ∷ [])),
      )
      | inr other ↦
          let (rest, counts) = setdefault_then-counts a groups others in
          rw other ((filled, rest), omega (arith, counts))
    ]

group_by_measurement-counts :
    (acquisitions : List AcquisitionRecord) (groups : List (String × List AcquisitionRecord))
    → AllFilled groups
    → redundant_count (group_by_measurement acquisitions groups)
        + length (group_by_measurement acquisitions groups)
      ≡ length acquisitions + (redundant_count groups + length groups)
unfolding group_by_measurement
group_by_measurement-counts [] groups filled = omega arith
group_by_measurement-counts (a ∷ acquisitions) groups filled =
    let (rest, counts) = setdefault_then-counts a groups filled in
    omega (arith, group_by_measurement-counts acquisitions _ rest, counts)

length-keys : {V : Type 0} (dict : List (String × V)) → length (keys dict) ≡ length dict
unfolding keys
length-keys dict = length-map (λ entry. entry.0) dict

module _ (names : List (String × String)) {N : Type 0} (trace : List (TraceEvent N)) where
  abbrev acquired : List AcquisitionRecord
  acquired = (read_trace names trace nothing_yet).acquisitions

  abbrev used : List (String × List String)
  used = architectures_used acquired []

  -- Every acquisition is the first one of a measurement that the report lists, or is counted as
  -- redundant.
  pub analyze-redundant_acquisition_count :
      (analyze names trace).redundant_acquisition_count
        + length (analyze names trace).architectures_used_per_measurement
      ≡ length (analyze names trace).acquisitions
  unfolding analyze report_of redundant_count keys
  analyze-redundant_acquisition_count = omega (
    arith,
    group_by_measurement-counts acquired [] (omega arith),
    length-map {B = String × List String}
        (λ (entry : String × List String). (entry.0, sort str_lt entry.1)) (sort key_lt used),
    length-sort key_lt used,
    length-keys used,
    length-keys (group_by_measurement acquired []),
    ap length (same_keys acquired [] [] refl),
  )
