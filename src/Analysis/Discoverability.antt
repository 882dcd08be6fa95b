-- ===== src/Analysis/Discoverability.antt =====
-- analysis/discoverability.py. The texts of `reason` are left out.
pub mod Ladder
use industrial_context_aware.Base.{
  ℕ, ◌≡◌, ◌+◌, Bool, true, false, ◌&&◌, not, String, Option, none, some, List, [], ◌∷◌, map,
  if◌then◌else◌, is_empty, nat_beq, nat_beq_iff, ◌↔◌, Eq, ◌==◌, arith,
}
use industrial_context_aware.Base.Counts.{increment_all}
use industrial_context_aware.Base.Float.{Float, float_lt, float_of}
use industrial_context_aware.Evaluation.Report.{EvaluationReport}
use industrial_context_aware.Experiment.Models.{
  ExperimentRecord, ExperimentRunStatus, completed, failed,
}
use industrial_context_aware.Analysis.Taxonomy.{below_one}

pub data DiscoverabilityStage : Type 0 where
  not_reached exists_in_architecture discovered_identifier : DiscoverabilityStage
  retrieved_value used_as_evidence grounded_in_conclusion : DiscoverabilityStage

-- The position in `STAGE_ORDER`.
abbrev pub rank : DiscoverabilityStage → ℕ
rank not_reached = 0
rank exists_in_architecture = 1
rank discovered_identifier = 2
rank retrieved_value = 3
rank used_as_evidence = 4
rank grounded_in_conclusion = 5

abbrev pub stage_order : List DiscoverabilityStage
stage_order =
    not_reached ∷ exists_in_architecture ∷ discovered_identifier ∷ retrieved_value
    ∷ used_as_evidence ∷ grounded_in_conclusion ∷ []

pub record DiscoverabilityClassification : Type 0 where
  pub run_id : String
  pub stage_reached : DiscoverabilityStage

pub rank_beq_iff : (a b : DiscoverabilityStage) → (nat_beq (rank a) (rank b) ≡ true) ↔ (a ≡ b)
rank_beq_iff a b = ground arith

instance abbrev pub stage_eq : Eq DiscoverabilityStage
stage_eq = record { beq = λ a b. nat_beq (rank a) (rank b); beq_iff = rank_beq_iff }

module _ {N : Type 0} ⦃f : Float N⦄ where
  unfoldable pub stage_of_evaluation : EvaluationReport N → DiscoverabilityStage
  stage_of_evaluation e =
      if is_empty e.context_acquired
      then exists_in_architecture
      else if below_one e.required_evidence_score
      then discovered_identifier
      else if below_one e.canonical_id_score
      then retrieved_value
      else if below_one e.grounding_score
      then used_as_evidence
      else grounded_in_conclusion

  unfoldable pub stage_of : ExperimentRunStatus → Option (EvaluationReport N) → DiscoverabilityStage
  stage_of failed evaluation = not_reached
  stage_of completed none = not_reached
  stage_of completed (some e) = stage_of_evaluation e

  -- `_classify_one`
  unfoldable pub classify_one : ExperimentRecord N → DiscoverabilityClassification
  classify_one r = record { run_id = r.run_id; stage_reached = stage_of r.status r.evaluation }

  unfoldable pub classify_discoverability :
      List (ExperimentRecord N) → List DiscoverabilityClassification
  classify_discoverability = map classify_one

unfoldable pub discoverability_breakdown :
    {N : Type 0} ⦃f : Float N⦄ → List (ExperimentRecord N) → List (DiscoverabilityStage × ℕ)
discoverability_breakdown records =
    increment_all (map (λ c. c.stage_reached) (classify_discoverability records))
      (map (λ s. (s, 0)) stage_order)
