-- ===== src/Analysis/Taxonomy/Graded.antt =====
-- About agent/llm/agent.py, evaluation/grounded.py and analysis/failure_taxonomy.py together: a run's
-- answer is graded, and the grade classified.
use mathlib.Core.List.{Memᴰ}
use industrial_context_aware.Base.{
  is_empty, ℕ, ◌≡◌, refl, ◌↔◌, true, false, not, String, Option, List, ◌≤◌, ◌<◌, ◌⊎◌, ltb, length,
  arith, Bool-cases, inl, inr, ap, not-true, not-false,
}
use industrial_context_aware.Base.Float.{Float}
use industrial_context_aware.Agent.Interface.{InvestigationResult}
use industrial_context_aware.Agent.Trace.{TraceEvent}
use industrial_context_aware.Evaluation.Report.{EvaluationReport}
use industrial_context_aware.Evaluation.Grounded.{is_budget_exceeded, evaluate_against}
use industrial_context_aware.Evaluation.Grounded.Evidence.{IsHit}
use industrial_context_aware.Evaluation.Grounded.Verdicts.{required_evidence_score-below_one_iff}
use industrial_context_aware.Tasks.Scenarios.{ScenarioDifficulty, GroundTruth}
use industrial_context_aware.Analysis.Taxonomy.{
  FailureCategory, context_not_discoverable, context_not_retrieved, efficiency_failure, below_one,
  classify_evaluation,
}

-- The two categories of a run that lacks required evidence.
abbrev pub IsMissing : FailureCategory → Type 0
IsMissing c = (c ≡ context_not_discoverable) ⊎ (c ≡ context_not_retrieved)

module _ {N : Type 0} ⦃f : Float N⦄ where
  classify_evaluation-efficiency_iff :
      (e : EvaluationReport N)
      → (classify_evaluation e ≡ efficiency_failure) ↔ (e.terminated_properly ≡ false)
  unfolding classify_evaluation
  classify_evaluation-efficiency_iff e = (λ h. ground arith, λ h. ground arith)

  pub terminated_properly_iff :
      (result : InvestigationResult N) (trace : List (TraceEvent N)) (scenario_id : String)
      (task_id generation_id : Option String) (truth : GroundTruth)
      (difficulty : ScenarioDifficulty)
      → ((evaluate_against result trace scenario_id task_id truth difficulty
            generation_id).terminated_properly
          ≡ true)
        ↔ (is_budget_exceeded result.termination ≡ false)
  unfolding evaluate_against
  terminated_properly_iff result trace scenario_id task_id generation_id truth difficulty =
      (not-true, ap not)

  -- An answer is classified as an efficiency failure exactly if a budget ended its run, whatever
  -- else is wrong with it.
  pub evaluate-efficiency_iff :
      (result : InvestigationResult N) (trace : List (TraceEvent N)) (scenario_id : String)
      (task_id generation_id : Option String) (truth : GroundTruth)
      (difficulty : ScenarioDifficulty)
      → (classify_evaluation
            (evaluate_against result trace scenario_id task_id truth difficulty generation_id)
          ≡ efficiency_failure)
        ↔ (is_budget_exceeded result.termination ≡ true)
  unfolding evaluate_against
  evaluate-efficiency_iff result trace scenario_id task_id generation_id truth difficulty =
      let (out, back) =
        classify_evaluation-efficiency_iff
          (evaluate_against result trace scenario_id task_id truth difficulty generation_id) in
      (λ h. not-false (out h), λ h. back (ap not h))

  IsMissing-from :
      (e : EvaluationReport N)
      → (e.terminated_properly ≡ true) × (below_one e.required_evidence_score ≡ true)
      → IsMissing (classify_evaluation e)
  unfolding classify_evaluation
  IsMissing-from e (done, below) = elim (Bool-cases (is_empty e.context_acquired)) [
    | inl nothing ↦ inl (rw (done, below, nothing) refl)
    | inr some_context ↦ inr (rw (done, below, some_context) refl)
  ]

  classify_evaluation-IsMissing_iff :
      (e : EvaluationReport N)
      → IsMissing (classify_evaluation e)
        ↔ ((e.terminated_properly ≡ true) × (below_one e.required_evidence_score ≡ true))
  unfolding classify_evaluation
  classify_evaluation-IsMissing_iff e = (
    λ h. elim h [ inl c ↦ (ground arith, ground arith) | inr c ↦ (ground arith, ground arith) ],
    IsMissing-from e,
  )

module _ {N : Type 0} ⦃f : Float N⦄ (limit : ℕ)
    (ratio_below_one : (h n : ℕ)
      → h ≤ n
      → 0 < n
      → n ≤ limit
      → f.lt (f.ratio h n) (f.of_nat 1) ≡ ltb h n)
    (one_not_below : f.lt (f.of_nat 1) (f.of_nat 1) ≡ false) where
  -- An answer is classified as lacking context, undiscovered or not retrieved, exactly if no budget
  -- ended its run and an expected item was neither retrieved nor cited nor named.
  pub evaluate-IsMissing_iff :
      (result : InvestigationResult N) (trace : List (TraceEvent N)) (scenario_id : String)
      (task_id generation_id : Option String) (truth : GroundTruth)
      (difficulty : ScenarioDifficulty)
      → length truth.expected_evidence ≤ limit
      → IsMissing (
          classify_evaluation
            (evaluate_against result trace scenario_id task_id truth difficulty generation_id))
        ↔ ((is_budget_exceeded result.termination ≡ false)
            × ((item : String) × Memᴰ item truth.expected_evidence × (IsHit result trace item → ⊥)))
  evaluate-IsMissing_iff result trace scenario_id task_id generation_id truth difficulty small =
      let missing =
        classify_evaluation-IsMissing_iff
          (evaluate_against result trace scenario_id task_id truth difficulty generation_id) in
      let evidence =
        required_evidence_score-below_one_iff limit ratio_below_one one_not_below result trace
          scenario_id task_id generation_id truth difficulty small in
      let ended =
        terminated_properly_iff result trace scenario_id task_id generation_id truth difficulty in
      (
        λ h. let (done, below) = missing.0 h in (ended.0 done, evidence.0 below),
        λ (own, lacking). missing.1 (ended.1 own, evidence.1 lacking),
      )
