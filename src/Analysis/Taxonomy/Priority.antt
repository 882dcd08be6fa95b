-- ===== src/Analysis/Taxonomy/Priority.antt =====
-- What each failure category says of the run.
use industrial_context_aware.Base.{
  ◌≡◌, refl, ◌↔◌, ◌⊎◌, inl, inr, true, false, Option, none, some, arith,
}
use industrial_context_aware.Base.Float.{Float}
use industrial_context_aware.Evaluation.Report.{EvaluationReport}
use industrial_context_aware.Experiment.Models.{
  ExperimentRecord, ExperimentRunStatus, completed, failed,
}
use industrial_context_aware.Analysis.Taxonomy.{
  architecture_connectivity_failure, reasoning_failure, no_failure, below_one, classify_evaluation,
  category_of, classify_one,
}

module _ {N : Type 0} ⦃f : Float N⦄ where
  -- The checks of an evaluation that come before its conclusion is looked at.
  abbrev pub IsRetrieved : EvaluationReport N → Type 0
  IsRetrieved e =
      (e.terminated_properly ≡ true)
      × (below_one e.required_evidence_score ≡ false)
      × (below_one e.canonical_id_score ≡ false)
      × (below_one e.grounding_score ≡ false)

  evaluation_not_connectivity :
      (e : EvaluationReport N) → classify_evaluation e ≡ architecture_connectivity_failure → ⊥
  unfolding classify_evaluation
  evaluation_not_connectivity e h = ground arith

  category_connectivity :
      (s : ExperimentRunStatus) (ev : Option (EvaluationReport N))
      → category_of s ev ≡ architecture_connectivity_failure
      → s ≡ failed
  unfolding category_of
  category_connectivity failed ev h = refl
  category_connectivity completed none h = cc
  category_connectivity completed (some e) h = absurd (evaluation_not_connectivity e h)

  -- A run is blamed on the architecture exactly if it failed: what a failed run was able to record
  -- never counts as a fault of the agent, and no completed run is blamed on the architecture.
  pub classify_one-connectivity_iff :
      (r : ExperimentRecord N)
      → ((classify_one r).category ≡ architecture_connectivity_failure) ↔ (r.status ≡ failed)
  unfolding classify_one
  classify_one-connectivity_iff r =
      (category_connectivity r.status r.evaluation, λ e. rw e (unfold category_of in refl))

  pub evaluation_reasoning :
      (e : EvaluationReport N)
      → classify_evaluation e ≡ reasoning_failure
      → IsRetrieved e × (below_one e.conclusion_correctness_score ≡ true)
  unfolding classify_evaluation
  evaluation_reasoning e h = ground arith

  pub reasoning_evaluation :
      (e : EvaluationReport N)
      → IsRetrieved e
      → below_one e.conclusion_correctness_score ≡ true
      → classify_evaluation e ≡ reasoning_failure
  unfolding classify_evaluation
  reasoning_evaluation e h k = ground arith

  -- An evaluation with the property `P`, of a run that completed.
  abbrev pub Completed :
      (EvaluationReport N → Type 0) → ExperimentRunStatus → Option (EvaluationReport N) → Type 0
  Completed P s ev = (s ≡ completed) × ((e : EvaluationReport N) × (ev ≡ some e) × P e)

  category_reasoning :
      (s : ExperimentRunStatus) (ev : Option (EvaluationReport N))
      → category_of s ev ≡ reasoning_failure
      → Completed (λ e. IsRetrieved e × (below_one e.conclusion_correctness_score ≡ true)) s ev
  unfolding category_of
  category_reasoning failed ev h = cc
  category_reasoning completed none h = cc
  category_reasoning completed (some e) h = (refl, (e, refl, evaluation_reasoning e h))

  -- A run counts as a reasoning failure exactly if it completed with a report of a run that ended on
  -- its own, whose scores of evidence, ids and grounding are not below 1.0 and whose score of the
  -- conclusion is.
  pub classify_one-reasoning_iff :
      (r : ExperimentRecord N)
      → ((classify_one r).category ≡ reasoning_failure)
        ↔ Completed
            (λ e. IsRetrieved e × (below_one e.conclusion_correctness_score ≡ true))
            r.status
            r.evaluation
  unfolding classify_one
  classify_one-reasoning_iff r = (
    category_reasoning r.status r.evaluation,
    λ (done, known).
        let (e, recorded, h) = known in
        rw (done, recorded) (unfold category_of in reasoning_evaluation e h.0 h.1),
  )

  -- Every check passes.
  abbrev pub IsSound : EvaluationReport N → Type 0
  IsSound e =
      IsRetrieved e
      × (below_one e.conclusion_correctness_score ≡ false)
      × (below_one e.relationship_score ≡ false)

  evaluation_no_failure : (e : EvaluationReport N) → classify_evaluation e ≡ no_failure → IsSound e
  unfolding classify_evaluation
  evaluation_no_failure e h = ground arith

  no_failure_evaluation : (e : EvaluationReport N) → IsSound e → classify_evaluation e ≡ no_failure
  unfolding classify_evaluation
  no_failure_evaluation e h = ground arith

  category_no_failure :
      (s : ExperimentRunStatus) (ev : Option (EvaluationReport N))
      → category_of s ev ≡ no_failure
      → (s ≡ completed) × ((ev ≡ none) ⊎ ((e : EvaluationReport N) × (ev ≡ some e) × IsSound e))
  unfolding category_of
  category_no_failure failed ev h = cc
  category_no_failure completed none h = (refl, inl refl)
  category_no_failure completed (some e) h = (refl, inr (e, refl, evaluation_no_failure e h))

  -- A run with no failure signal completed, and has no evaluation or one that passes every check.
  pub classify_one-no_failure :
      (r : ExperimentRecord N)
      → (classify_one r).category ≡ no_failure
      → (r.status ≡ completed)
        × ((r.evaluation ≡ none) ⊎ ((e : EvaluationReport N) × (r.evaluation ≡ some e) × IsSound e))
  unfolding classify_one
  classify_one-no_failure r = category_no_failure r.status r.evaluation
