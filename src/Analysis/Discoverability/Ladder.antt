-- ===== src/Analysis/Discoverability/Ladder.antt =====
-- About the stages of analysis/discoverability.py, and the categories of failure_taxonomy.py.
use industrial_context_aware.Base.{
  ap, ◌≡◌, refl, ◌↔◌, ◌≤◌, true, false, some, arith, is_empty, List, [], ◌∷◌, map, ◌==◌, count_if,
}
use industrial_context_aware.Base.Counts.{count_at, count_at-increment_all}
use industrial_context_aware.Base.Float.{Float}
use industrial_context_aware.Evaluation.Report.{EvaluationReport}
use industrial_context_aware.Experiment.Models.{ExperimentRecord}
use industrial_context_aware.Analysis.Taxonomy.{
  below_one, classify_evaluation, context_not_retrieved, representation_failure, grounding_failure,
}
use industrial_context_aware.Analysis.Discoverability.{
  DiscoverabilityStage, not_reached, discovered_identifier, retrieved_value, used_as_evidence, rank,
  stage_order, stage_eq, stage_of_evaluation, stage_of, classify_one, classify_discoverability,
  discoverability_breakdown,
}

module _ {N : Type 0} ⦃f : Float N⦄ where
  -- The stage of an evaluation is as far as its checks pass in order: context acquired, required
  -- evidence retrieved, valid ids cited, no unsupported number.
  pub stage_of_evaluation_rungs :
      (e : EvaluationReport N)
      → ((2 ≤ rank (stage_of_evaluation e)) ↔ (is_empty e.context_acquired ≡ false))
        × ((3 ≤ rank (stage_of_evaluation e))
            ↔ ((2 ≤ rank (stage_of_evaluation e)) × (below_one e.required_evidence_score ≡ false)))
        × ((4 ≤ rank (stage_of_evaluation e))
            ↔ ((3 ≤ rank (stage_of_evaluation e)) × (below_one e.canonical_id_score ≡ false)))
        × ((5 ≤ rank (stage_of_evaluation e))
            ↔ ((4 ≤ rank (stage_of_evaluation e)) × (below_one e.grounding_score ≡ false)))
  unfolding stage_of_evaluation
  stage_of_evaluation_rungs e = ground arith

  -- The two classifiers agree on a run that ended on its own and acquired some context: missing
  -- evidence, a badly cited id and an unsupported number are each the failure category of exactly
  -- the stage at which the ladder stops.
  pub stage_of_evaluation-classify :
      (e : EvaluationReport N)
      → e.terminated_properly ≡ true
      → is_empty e.context_acquired ≡ false
      → ((classify_evaluation e ≡ context_not_retrieved)
          ↔ (stage_of_evaluation e ≡ discovered_identifier))
        × ((classify_evaluation e ≡ representation_failure)
            ↔ (stage_of_evaluation e ≡ retrieved_value))
        × ((classify_evaluation e ≡ grounding_failure) ↔ (stage_of_evaluation e ≡ used_as_evidence))
  unfolding stage_of_evaluation classify_evaluation
  stage_of_evaluation-classify e ended acquired = ground arith

stages_of :
    {N : Type 0} ⦃f : Float N⦄
    → (records : List (ExperimentRecord N))
    → map (λ c. c.stage_reached) (classify_discoverability records)
      ≡ map (λ r. stage_of r.status r.evaluation) records
unfolding classify_discoverability classify_one
stages_of [] = refl
stages_of (r ∷ records) = rw (stages_of records)

count_at_start :
    (stage : DiscoverabilityStage) → count_at stage (map (λ s. (s, 0)) stage_order) ≡ some 0
unfolding count_at
count_at_start not_reached = refl
count_at_start _ = refl

-- Every stage has a count, which is the number of records that stopped there.
pub count_at-discoverability_breakdown :
    {N : Type 0} ⦃f : Float N⦄
    → (stage : DiscoverabilityStage) (records : List (ExperimentRecord N))
    → count_at stage (discoverability_breakdown records)
      ≡ some (count_if (λ s. s == stage) (map (λ r. stage_of r.status r.evaluation) records))
unfolding discoverability_breakdown
count_at-discoverability_breakdown stage records =
    rw
      (
        count_at-increment_all stage (map (λ c. c.stage_reached) (classify_discoverability records))
            (map (λ s. (s, 0)) stage_order),
        count_at_start stage,
        stages_of records,
      )
      (ap some (omega arith))
