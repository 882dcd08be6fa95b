-- ===== src/Tests/Grades.antt =====
-- Answers that are graded, and the validators of scenarios and tasks.
use mathlib.Core.List.{Memᴰ}
use industrial_context_aware.Base.{
  ℕ, zero, suc, ◌≤◌, ◌<◌, ◌≡◌, ◌↔◌, refl, arith, ltb, true, false, String, some, none, [], ◌∷◌,
}
use industrial_context_aware.Agent.Interface.{InvestigationResult, EvidenceReference}
use industrial_context_aware.Agent.Trace.{TraceEvent}
use industrial_context_aware.Evaluation.Report.{EvaluationReport}
use industrial_context_aware.Evaluation.Grounded.{canonical_id_sources}
use industrial_context_aware.Evaluation.Grounded.Evidence.{IsHit}
use industrial_context_aware.Evaluation.Grounded.Relationships.{Confirms}
use industrial_context_aware.Evaluation.Grounded.Verdicts.{
  canonical_id_score-below_one_iff, relationship_score-below_one_iff, IsSupported,
  grounding_score-unsupported_iff,
}
use industrial_context_aware.Analysis.Taxonomy.{classify_evaluation}
use industrial_context_aware.Analysis.Taxonomy.{reasoning_failure}
use industrial_context_aware.Analysis.Taxonomy.Reasoning.{IsValidlyCited, evaluate-reasoning_iff}
use industrial_context_aware.Analysis.Taxonomy.Graded.{IsMissing, evaluate-IsMissing_iff}
use industrial_context_aware.Tasks.Scenarios.{d3}
use industrial_context_aware.Base.Codes.{
  codes, is_digit, is_small_letter, lower_code, lower, begins, occurs, has_code, after_last,
  replace_code, lstrip, digits_length,
}
use industrial_context_aware.Base.Json.{get}
use industrial_context_aware.Base.Dict.{add}
use industrial_context_aware.Base.Comprehensions.{add_all, dict_of}
use industrial_context_aware.Evaluation.Patterns.{
  drop, take, is_id_start, is_id_code, is_id_rest, is_id_tail, is_canonical_id, fits,
  fraction_length, zone_length, suffix_length, timestamp_length, unsigned_length, after_minus,
  number_length, substitute, find_all, strip_timestamps, numerals,
}
use industrial_context_aware.Evaluation.ToolResults.{
  text_of_json, text_at, objects_among, objects_of_json, objects_at, object_of_json, object_at,
  ids_of,
}
use industrial_context_aware.Evaluation.InformationFlow.{result_fields}
use industrial_context_aware.Evaluation.Observations.{
  is_tool_of, ids_of_result, retrieved_by_event, retrieved_value_ids, string_at, is_confirmation,
  confirms, relationship_confirmed, numbers_in, numbers_in_items, numbers_in_fields,
  observed_numbers,
}
use industrial_context_aware.Evaluation.Mentions.{
  claimed_text, slug, or_zero, disturbance_number, disturbance_names, mentions_disturbance,
}
use industrial_context_aware.Evaluation.Grounded.{
  is_budget_exceeded, passed, ratio_of, float_of_bool, root_cause_component, affected_component,
  average, conclusion_correctness_score, tolerance, is_supported_number, numbers_of_text,
  grounding_score_of, has_provenance, is_temporal, is_given, identified, is_named, acquired_in,
  consumed_in, tools_in, is_hit, check_relationship, canonical_ids, affected_mentioned,
  unsupported_numbers, evaluate_against,
}
use industrial_context_aware.Samples.{thousandths}
use industrial_context_aware.Samples.Tasks.{truth, answer_that_says, trace_of}

numerals_of_a_conclusion :
    numerals "At 2026-04-15T01:15:00.5Z: 12 x 345, -6.75-1000"
    ≡ codes "345" ∷ codes "-6.75" ∷ codes "-1000" ∷ []
unfolding codes is_digit is_small_letter begins digits_length drop take fits fraction_length
    zone_length suffix_length timestamp_length unsigned_length after_minus number_length substitute
    find_all strip_timestamps numerals
numerals_of_a_conclusion = refl

canonical_id_with_newline : is_canonical_id "urn:icab:a:b-c_9\n" ≡ true
unfolding codes is_digit is_small_letter begins drop is_id_start is_id_code is_id_rest is_id_tail
    is_canonical_id
canonical_id_with_newline = refl

slug_of_an_asset : slug "urn:icab:measurement:Reactor_pressure" ≡ codes "reactor pressure"
unfolding codes lower_code lower has_code after_last replace_code slug
slug_of_an_asset = refl

fault_by_its_number : mentions_disturbance "idv_04" (codes "caused by idv(4)") ≡ true
unfolding codes lower_code lower begins occurs has_code after_last replace_code lstrip or_zero
    disturbance_number disturbance_names mentions_disturbance
fault_by_its_number = refl

unsupported_in_answer :
    unsupported_numbers (answer_that_says "It passed 3000 at 2710 and later 9000.") (trace_of "g")
    ≡ 9000000 ∷ []
unfolding codes is_digit is_small_letter begins digits_length drop take fits fraction_length
    zone_length suffix_length timestamp_length unsigned_length after_minus number_length substitute
    find_all strip_timestamps numerals numbers_in numbers_in_items numbers_in_fields result_fields
    observed_numbers tolerance is_supported_number numbers_of_text unsupported_numbers
unsupported_in_answer = refl

-- The laws of ratios, for counts up to two.
ratio_below_one :
    (h n : ℕ)
    → h ≤ n
    → 0 < n
    → n ≤ 2
    → thousandths.lt (thousandths.ratio h n) (thousandths.of_nat 1) ≡ ltb h n
ratio_below_one h zero low pos small = absurd (omega (arith, pos))
ratio_below_one zero (suc zero) low pos small = refl
ratio_below_one (suc zero) (suc zero) low pos small = refl
ratio_below_one (suc (suc h)) (suc zero) low pos small = absurd (omega (arith, low))
ratio_below_one zero (suc (suc zero)) low pos small = refl
ratio_below_one (suc zero) (suc (suc zero)) low pos small = refl
ratio_below_one (suc (suc zero)) (suc (suc zero)) low pos small = refl
ratio_below_one (suc (suc (suc h))) (suc (suc zero)) low pos small = absurd (omega (arith, low))
ratio_below_one h (suc (suc (suc n))) low pos small = absurd (omega (arith, small))

rest_below_one :
    (u n : ℕ)
    → u ≤ n
    → 0 < n
    → n ≤ 2
    → thousandths.lt
        (thousandths.sub (thousandths.of_nat 1) (thousandths.ratio u n))
        (thousandths.of_nat 1)
      ≡ ltb 0 u
rest_below_one u zero low pos small = absurd (omega (arith, pos))
rest_below_one zero (suc zero) low pos small = refl
rest_below_one (suc zero) (suc zero) low pos small = refl
rest_below_one (suc (suc u)) (suc zero) low pos small = absurd (omega (arith, low))
rest_below_one zero (suc (suc zero)) low pos small = refl
rest_below_one (suc zero) (suc (suc zero)) low pos small = refl
rest_below_one (suc (suc zero)) (suc (suc zero)) low pos small = refl
rest_below_one (suc (suc (suc u))) (suc (suc zero)) low pos small = absurd (omega (arith, low))
rest_below_one u (suc (suc (suc n))) low pos small = absurd (omega (arith, small))

abbrev graded_answer : InvestigationResult ℕ
graded_answer = answer_that_says "It passed 3000 at 2710 and later 9000."

-- The feed was read, the pressure cited, and the relationship returned in the generation.
abbrev graded : EvaluationReport ℕ
graded = evaluate_against graded_answer (trace_of "g") "s" none truth d3 (some "g")

evaluate-IsMissing_iff_example : IsMissing (classify_evaluation graded) ↔ (
    (is_budget_exceeded graded_answer.termination ≡ false)
    × ((item : String) × Memᴰ item truth.expected_evidence
        × (IsHit graded_answer (trace_of "g") item → ⊥)))
evaluate-IsMissing_iff_example =
    evaluate-IsMissing_iff 2 ratio_below_one refl graded_answer (trace_of "g") "s" none (some "g")
      truth d3 (omega arith)

canonical_id_score-below_one_iff_example :
    (thousandths.lt graded.canonical_id_score 1000 ≡ true) ↔ (
      (e : EvidenceReference) × Memᴰ e graded_answer.evidence
      × Memᴰ e.source canonical_id_sources
      × (is_canonical_id e.identifier ≡ false))
canonical_id_score-below_one_iff_example =
    canonical_id_score-below_one_iff 2 ratio_below_one refl graded_answer (trace_of "g") "s" none
      (some "g") truth d3 (omega arith)

relationship_score-below_one_iff_example :
    (thousandths.lt graded.relationship_score 1000 ≡ true) ↔ (
      (triple : String × String × String) × Memᴰ triple truth.expected_relationships
      × (((event : TraceEvent ℕ) × Memᴰ event (trace_of "g") × Confirms triple (some "g") event)
          → ⊥))
relationship_score-below_one_iff_example =
    relationship_score-below_one_iff 2 ratio_below_one refl graded_answer (trace_of "g") "s" none
      (some "g") truth d3 (omega arith)

abbrev short_answer : InvestigationResult ℕ
short_answer = answer_that_says "It passed 3000 and later 9000."

numbers_of_short_answer : numbers_of_text {N = ℕ} short_answer.conclusion ≡ 3000000 ∷ 9000000 ∷ []
unfolding codes is_digit is_small_letter begins digits_length drop take fits fraction_length
    zone_length suffix_length timestamp_length unsigned_length after_minus number_length substitute
    find_all strip_timestamps numerals numbers_of_text
numbers_of_short_answer = refl

grounding_score-unsupported_iff_example :
    (thousandths.lt
        (evaluate_against short_answer (trace_of "g") "s" none truth d3 none).grounding_score
        1000
      ≡ true)
    ↔ ((number : ℕ) × Memᴰ number (numbers_of_text {N = ℕ} short_answer.conclusion)
        × (IsSupported short_answer (trace_of "g") number → ⊥))
grounding_score-unsupported_iff_example =
    grounding_score-unsupported_iff 2 rest_below_one refl short_answer (trace_of "g") "s" none none
      truth d3 (rw numbers_of_short_answer (omega arith))

evaluate-reasoning_iff_example :
    (classify_evaluation (evaluate_against short_answer (trace_of "g") "s" none truth d3 none)
      ≡ reasoning_failure)
    ↔ ((is_budget_exceeded short_answer.termination ≡ false)
        × ((item : String)
            → Memᴰ item truth.expected_evidence
            → IsHit short_answer (trace_of "g") item)
        × ((e : EvidenceReference) → Memᴰ e short_answer.evidence → IsValidlyCited e)
        × ((number : ℕ)
            → Memᴰ number (numbers_of_text {N = ℕ} short_answer.conclusion)
            → IsSupported short_answer (trace_of "g") number)
        × (thousandths.lt
              (evaluate_against short_answer
                (trace_of "g")
                "s"
                none
                truth
                d3
                none).conclusion_correctness_score
              1000
            ≡ true))
evaluate-reasoning_iff_example =
    evaluate-reasoning_iff 2 ratio_below_one rest_below_one refl short_answer (trace_of "g") "s"
      none none truth d3 (omega arith) (omega arith) (rw numbers_of_short_answer (omega arith))

-- The grades of the answer: both items are hits, and one of three numbers is unsupported.
graded_scores :
    (graded.required_evidence_score ≡ 1000)
    × (graded.grounding_score ≡ 667)
    × (graded.relationship_score ≡ 1000)
    × (graded.conclusion_correctness_score ≡ 0)
unfolding codes is_digit is_small_letter lower_code lower begins occurs has_code after_last
    replace_code lstrip digits_length get add add_all dict_of drop take is_id_start is_id_code
    is_id_rest is_id_tail is_canonical_id fits fraction_length zone_length suffix_length
    timestamp_length unsigned_length after_minus number_length substitute find_all strip_timestamps
    numerals text_of_json text_at objects_among objects_of_json objects_at object_of_json object_at
    ids_of result_fields is_tool_of ids_of_result retrieved_by_event retrieved_value_ids string_at
    is_confirmation confirms relationship_confirmed numbers_in numbers_in_items numbers_in_fields
    observed_numbers claimed_text slug or_zero disturbance_number disturbance_names
    mentions_disturbance is_budget_exceeded passed ratio_of float_of_bool root_cause_component
    affected_component average conclusion_correctness_score tolerance is_supported_number
    numbers_of_text grounding_score_of has_provenance is_temporal is_given identified is_named
    acquired_in consumed_in tools_in is_hit check_relationship canonical_ids affected_mentioned
    unsupported_numbers evaluate_against
graded_scores = (refl, refl, refl, refl)
