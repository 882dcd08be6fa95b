-- ===== src/Experiment/Runner/Records.antt =====
-- About the records that `_run_prepared` of experiments/runner.py makes.
use industrial_context_aware.Base.{◌≡◌, refl, ◌⊎◌, inl, inr, String, Option, none, some, List}
use industrial_context_aware.Base.Float.{Float}
use industrial_context_aware.Agent.Interface.{InvestigationResult}
use industrial_context_aware.Agent.Trace.{TraceEvent}
use industrial_context_aware.Evaluation.Report.{EvaluationReport}
use industrial_context_aware.Experiment.Models.{
  ExperimentRunStatus, completed, failed, ExperimentConfig, ExperimentRecord,
}
use industrial_context_aware.Experiment.Lab.{Attempt, raises, gives, Lab, status_of, error_of}
use industrial_context_aware.Experiment.Runner.{evaluation_of, record_of_run, run_prepared}
use industrial_context_aware.Tasks.Scenarios.{BenchmarkScenario}
use industrial_context_aware.Tasks.BenchmarkTasks.{BenchmarkTask}

-- A run that completed has a report and no error, and a run that failed an error and no report.
abbrev pub IsSettledAs :
    {N : Type 0} → ExperimentRunStatus → Option (EvaluationReport N) → Option String → Type 0
IsSettledAs {N} status evaluation error =
    ((status ≡ completed) × ((e : EvaluationReport N) × (evaluation ≡ some e)) × (error ≡ none))
    ⊎ ((status ≡ failed) × (evaluation ≡ none) × ((text : String) × (error ≡ some text)))

abbrev pub IsSettled : {N : Type 0} → ExperimentRecord N → Type 0
IsSettled r = IsSettledAs r.status r.evaluation r.error

module _ {N : Type 0} ⦃f : Float N⦄ (lab : Lab N) where
  outcome-IsSettledAs :
      (scenario : BenchmarkScenario N) (task : Option (BenchmarkTask N)) (generation_id : String)
      (result : Attempt (InvestigationResult N)) (trace : List (TraceEvent N))
      → IsSettledAs
          (status_of result)
          (evaluation_of lab scenario task generation_id result trace)
          (error_of result)
  unfolding status_of error_of evaluation_of
  outcome-IsSettledAs scenario task generation_id (raises text) trace =
      inr (refl, refl, (text, refl))
  outcome-IsSettledAs scenario none generation_id (gives result) trace = inl (refl, (_, refl), refl)
  outcome-IsSettledAs scenario (some task) generation_id (gives result) trace =
      inl (refl, (_, refl), refl)

  pub run_prepared-IsSettled :
      (scenario : BenchmarkScenario N) (config : ExperimentConfig N)
      (run_id experiment_id generation_id : String) (task : Option (BenchmarkTask N))
      (versions : Option String × Option String)
      → IsSettled
          (run_prepared lab scenario config run_id experiment_id generation_id task versions).0
  unfolding run_prepared record_of_run
  run_prepared-IsSettled scenario config run_id experiment_id generation_id task versions =
      outcome-IsSettledAs scenario task generation_id _ _
