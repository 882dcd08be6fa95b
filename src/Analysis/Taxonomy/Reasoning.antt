-- ===== src/Analysis/Taxonomy/Reasoning.antt =====
-- About evaluation/grounded.py and analysis/failure_taxonomy.py together: the answers whose reasoning
-- is blamed.
use mathlib.Core.List.{Memᴰ}
use industrial_context_aware.Base.{
  ℕ, ◌≡◌, ◌↔◌, ◌⊎◌, inl, inr, Bool, true, false, string_eq, contains, contains-mem, contains_of_mem,
  String, Option, List, ◌++◌, ◌≤◌, ◌<◌, ltb, length, Bool-cases,
}
use industrial_context_aware.Base.Float.{Float}
use industrial_context_aware.Agent.Interface.{EvidenceReference, InvestigationResult}
use industrial_context_aware.Agent.Trace.{TraceEvent}
use industrial_context_aware.Evaluation.Report.{EvaluationReport}
use industrial_context_aware.Evaluation.Patterns.{is_canonical_id}
use industrial_context_aware.Evaluation.Observations.{observed_numbers}
use industrial_context_aware.Evaluation.Grounded.{
  is_budget_exceeded, canonical_id_sources, is_hit, numbers_of_text, is_supported_number,
  evaluate_against,
}
use industrial_context_aware.Evaluation.Grounded.Evidence.{IsHit, is_hit_iff}
use industrial_context_aware.Evaluation.Grounded.Verdicts.{
  IsSupported, IsSupported-iff, required_evidence_score-below_one_iff,
  canonical_id_score-below_one_iff, grounding_score-unsupported_iff,
}
use industrial_context_aware.Tasks.Scenarios.{ScenarioDifficulty, GroundTruth}
use industrial_context_aware.Analysis.Taxonomy.{reasoning_failure, below_one, classify_evaluation}
use industrial_context_aware.Analysis.Taxonomy.Graded.{terminated_properly_iff}
use industrial_context_aware.Analysis.Taxonomy.Priority.{evaluation_reasoning, reasoning_evaluation}

-- A test decides what it stands for.
decided : {P : Type 0} (b : Bool) → (b ≡ true) ↔ P → P ⊎ (P → ⊥)
decided {P} b h = elim (Bool-cases b) [
  | inl t ↦ inl (h.0 t)
  | inr e ↦ inr (λ (p : P). cc (e, h.1 p))
]

-- A score that is low exactly if an item fails is not low exactly if all items pass.
all_pass :
    {A : Type 0} (H : A → Type 0) (decide : (x : A) → H x ⊎ (H x → ⊥)) (xs : List A) (b : Bool)
    → (b ≡ true) ↔ ((x : A) × Memᴰ x xs × (H x → ⊥))
    → (b ≡ false) ↔ ((x : A) → Memᴰ x xs → H x)
all_pass H decide xs b low = (
  λ e x m. elim (decide x) [ inl h ↦ h | inr k ↦ absurd (cc (e, low.1 (x, m, k))) ],
  λ h. elim (Bool-cases b) [ inl t ↦ let (x, m, k) = low.0 t in absurd (k (h x m)) | inr e ↦ e ],
)

-- A piece of evidence that is cited by a valid id, if its source has canonical ids.
abbrev pub IsValidlyCited : EvidenceReference → Type 0
IsValidlyCited e = Memᴰ e.source canonical_id_sources → is_canonical_id e.identifier ≡ true

-- The source has canonical ids, and the id is none.
abbrev IsMiscited : EvidenceReference → Type 0
IsMiscited e = Memᴰ e.source canonical_id_sources × (is_canonical_id e.identifier ≡ false)

cited_or_not : (e : EvidenceReference) → IsValidlyCited e ⊎ IsMiscited e
cited_or_not e = elim (Bool-cases (is_canonical_id e.identifier)) [
  | inl proper ↦ inl (λ from. proper)
  | inr bad ↦ elim (Bool-cases (contains canonical_id_sources e.source)) [
    | inl from ↦ inr (contains-mem e.source canonical_id_sources from, bad)
    | inr other ↦ inl (λ from. absurd (cc (other, contains_of_mem canonical_id_sources from)))
  ]
]

not-cited : (e : EvidenceReference) → IsMiscited e → IsValidlyCited e → ⊥
not-cited e (from, bad) proper = cc (proper from, bad)

module _ {N : Type 0} ⦃f : Float N⦄ (limit : ℕ)
    (ratio_below_one : (h n : ℕ)
      → h ≤ n
      → 0 < n
      → n ≤ limit
      → f.lt (f.ratio h n) (f.of_nat 1) ≡ ltb h n)
    (rest_below_one : (u n : ℕ)
      → u ≤ n
      → 0 < n
      → n ≤ limit
      → f.lt (f.sub (f.of_nat 1) (f.ratio u n)) (f.of_nat 1) ≡ ltb 0 u)
    (one_not_below : f.lt (f.of_nat 1) (f.of_nat 1) ≡ false) (result : InvestigationResult N)
    (trace : List (TraceEvent N)) (scenario_id : String) (task_id generation_id : Option String)
    (truth : GroundTruth) (difficulty : ScenarioDifficulty) where
  abbrev report : EvaluationReport N
  report = evaluate_against result trace scenario_id task_id truth difficulty generation_id

  evidence_full_iff :
      length truth.expected_evidence ≤ limit
      → (below_one report.required_evidence_score ≡ false)
        ↔ ((item : String) → Memᴰ item truth.expected_evidence → IsHit result trace item)
  evidence_full_iff small =
      all_pass (IsHit result trace)
        (λ item. decided (is_hit result trace item) (is_hit_iff result trace item))
        truth.expected_evidence (below_one report.required_evidence_score)
        (required_evidence_score-below_one_iff limit ratio_below_one one_not_below result trace
          scenario_id task_id generation_id truth difficulty small)

  ids_valid_iff :
      length result.evidence ≤ limit
      → (below_one report.canonical_id_score ≡ false)
        ↔ ((e : EvidenceReference) → Memᴰ e result.evidence → IsValidlyCited e)
  ids_valid_iff small =
      let low =
        canonical_id_score-below_one_iff limit ratio_below_one one_not_below result trace
          scenario_id task_id generation_id truth difficulty small in
      all_pass IsValidlyCited
        (λ e. elim (cited_or_not e) [ inl proper ↦ inl proper | inr bad ↦ inr (not-cited e bad) ])
        result.evidence (below_one report.canonical_id_score)
        (
          λ h. let (e, m, from, bad) = low.0 h in (e, m, not-cited e (from, bad)),
          λ (e, m, k). elim (cited_or_not e) [
            | inl proper ↦ absurd (k proper)
            | inr (from, bad) ↦ low.1 (e, m, from, bad)
          ],
        )

  numbers-IsSupported_iff :
      length (numbers_of_text {N = N} result.conclusion) ≤ limit
      → (below_one report.grounding_score ≡ false) ↔ (
          (number : N)
          → Memᴰ number (numbers_of_text result.conclusion)
          → IsSupported result trace number)
  numbers-IsSupported_iff small =
      all_pass (IsSupported result trace)
        (λ number.
          decided
            (is_supported_number (observed_numbers trace ++ numbers_of_text result.objective)
              number)
            (IsSupported-iff result trace number))
        (numbers_of_text result.conclusion) (below_one report.grounding_score)
        (grounding_score-unsupported_iff limit rest_below_one one_not_below result trace scenario_id
          task_id generation_id truth difficulty small)

  -- The reasoning of an answer is blamed exactly if no budget ended its run, each expected item was
  -- retrieved, cited or named, each piece of evidence from a source with canonical ids is cited by a
  -- valid one, each number of the conclusion is near a number of the trace or of the objective, and
  -- the conclusion's score is still below 1.0.
  pub evaluate-reasoning_iff :
      length truth.expected_evidence ≤ limit
      → length result.evidence ≤ limit
      → length (numbers_of_text {N = N} result.conclusion) ≤ limit
      → (classify_evaluation
            (evaluate_against result trace scenario_id task_id truth difficulty generation_id)
          ≡ reasoning_failure)
        ↔ ((is_budget_exceeded result.termination ≡ false)
            × ((item : String) → Memᴰ item truth.expected_evidence → IsHit result trace item)
            × ((e : EvidenceReference) → Memᴰ e result.evidence → IsValidlyCited e)
            × ((number : N)
                → Memᴰ number (numbers_of_text result.conclusion)
                → IsSupported result trace number)
            × (f.lt
                  (evaluate_against result trace scenario_id task_id truth difficulty
                    generation_id).conclusion_correctness_score
                  (f.of_nat 1)
                ≡ true))
  evaluate-reasoning_iff few_items few_references few_numbers =
      let ended =
        terminated_properly_iff result trace scenario_id task_id generation_id truth difficulty in
      let items = evidence_full_iff few_items in
      let ids = ids_valid_iff few_references in
      let numbers = numbers-IsSupported_iff few_numbers in
      (
        λ h.
            let ((done, full, proper, grounded), wrong) = evaluation_reasoning report h in
            (ended.0 done, items.0 full, ids.0 proper, numbers.0 grounded, wrong),
        λ (own, full, proper, grounded, wrong).
            reasoning_evaluation report
              (ended.1 own, items.1 full, ids.1 proper, numbers.1 grounded) wrong,
      )
