-- ===== src/Benchmark/Execution/Rules.antt =====
-- The ways in which `run_one` of benchmark/_execution.py ends, and a proof rule over them.
use industrial_context_aware.Base.{
  ℕ, ◌≡◌, refl, subst, ap, ◌||◌, ◌==◌, string_eq, false, Bool-cases, [], inl, inr, String, Option,
  none, some, List, Result, ok, err,
}
use industrial_context_aware.Base.Attempts.{gives_inj}
use industrial_context_aware.Base.Float.{Float}
use industrial_context_aware.Agent.Trace.{TraceEvent}
use industrial_context_aware.Experiment.Models.{ExperimentConfig, ExperimentRecord}
use industrial_context_aware.Experiment.Lab.{Attempt, raises, gives, Lab, or_default}
use industrial_context_aware.Experiment.Runner.{
  run_task, after_preparation, run_prepared, default_run_id,
}
use industrial_context_aware.Benchmark.Execution.{
  RunLabels, constructed, failed_record, settle_attempt, run_in, run_one, with_seed,
  with_fault_version, seed_or_zero, scenario_named, fault_version_for,
}
use industrial_context_aware.Faults.{FaultCatalogEntry}
use industrial_context_aware.Tasks.Scenarios.{BenchmarkScenario}
use industrial_context_aware.Tasks.BenchmarkTasks.{BenchmarkTask}

-- What a property says of an attempt: if it gives a record, the record has the property.
abbrev pub Holds :
    {N : Type 0}
    → (ExperimentRecord N → Type 0)
    → Attempt (ExperimentRecord N × List (TraceEvent N))
    → Type 0
Holds {N} P outcome = (p : ExperimentRecord N × List (TraceEvent N)) → outcome ≡ gives p → P p.0

pub constructed-Holds :
    {N : Type 0} (P : ExperimentRecord N → Type 0) (r : ExperimentRecord N)
    → P r
    → Holds P (constructed r)
unfolding constructed
constructed-Holds {N} P r h p e = elim (Bool-cases (r.run_id == "" || r.experiment_id == "")) [
  | inl empty ↦ absurd (cc (rw empty at e))
  | inr named ↦
      subst (λ (q : ExperimentRecord N × List (TraceEvent N)). P q.0) (gives_inj (rw named at e)) h
]

-- A record with both ids is given.
pub constructed-gives :
    {N : Type 0} (r : ExperimentRecord N)
    → r.run_id == "" || r.experiment_id == "" ≡ false
    → constructed r ≡ gives (r, [])
unfolding constructed
constructed-gives r named = rw named refl

module _ {N : Type 0} ⦃f : Float N⦄ (lab : Lab N) (task : BenchmarkTask N)
    (config : ExperimentConfig N) (labels : RunLabels) where
  abbrev pub attempt_at : BenchmarkScenario N → Attempt (ExperimentRecord N × List (TraceEvent N))
  attempt_at scenario =
      run_task lab task config scenario labels.run_id labels.experiment_id
        (labels.benchmark_version, labels.git_commit)

  pub run_task-raises :
      (scenario : BenchmarkScenario N) {text : String}
      → lab.prepare scenario ≡ raises text
      → attempt_at scenario ≡ raises text
  unfolding run_task after_preparation
  run_task-raises scenario e =
      ap
        (after_preparation lab task config scenario labels.run_id labels.experiment_id
          (labels.benchmark_version, labels.git_commit))
        e

  -- The ids that `run_task` gives a record.
  abbrev pub used_run_id : String
  used_run_id = or_default labels.run_id (default_run_id lab config)

  abbrev pub used_experiment_id : String
  used_experiment_id = or_default labels.experiment_id used_run_id

  pub run_task-gives :
      (scenario : BenchmarkScenario N) {generation_id : String}
      → lab.prepare scenario ≡ gives generation_id
      → attempt_at scenario
        ≡ gives (
            run_prepared lab scenario config used_run_id used_experiment_id generation_id
              (some task)
              (labels.benchmark_version, labels.git_commit))
  unfolding run_task after_preparation
  run_task-gives scenario e =
      ap
        (after_preparation lab task config scenario labels.run_id labels.experiment_id
          (labels.benchmark_version, labels.git_commit))
        e

module _ {N : Type 0} ⦃f : Float N⦄ (lab : Lab N) (catalog : Option (List (FaultCatalogEntry N)))
    (task : BenchmarkTask N) (config : ExperimentConfig N) (labels : RunLabels)
    (P : ExperimentRecord N → Type 0)
    (failing : (text : String) (fault_id scenario_version : Option String) (seed : ℕ)
        (difficulty : String)
      → P (
          failed_record lab catalog task config labels text fault_id scenario_version seed
            difficulty))
    (versioned : (version : Option String) (r : ExperimentRecord N)
      → P r
      → P (with_fault_version version r))
    (prepared : (scenario : BenchmarkScenario N) (run_id experiment_id generation_id : String)
      → P
          (run_prepared lab scenario config run_id experiment_id generation_id
            (some task)
            (labels.benchmark_version, labels.git_commit)).0) where
  settle-Holds :
      (scenario : BenchmarkScenario N) (outcome : ExperimentRecord N × List (TraceEvent N))
      → P outcome.0
      → Holds P (settle_attempt lab catalog task config labels scenario (gives outcome))
  unfolding settle_attempt
  settle-Holds scenario (r, trace) h p e =
      subst (λ (q : ExperimentRecord N × List (TraceEvent N)). P q.0) (gives_inj e)
        (versioned (fault_version_for r.fault_id catalog) r h)

  attempt-Holds :
      (scenario : BenchmarkScenario N) (preparation : Attempt String)
      → lab.prepare scenario ≡ preparation
      → Holds P (
          settle_attempt lab catalog task config labels scenario
            (attempt_at lab task config labels scenario))
  unfolding settle_attempt
  attempt-Holds scenario (raises text) e =
      rw (run_task-raises lab task config labels scenario e)
        (constructed-Holds P _ (failing text _ _ scenario.seed _))
  attempt-Holds scenario (gives generation_id) e =
      rw (run_task-gives lab task config labels scenario e)
        (settle-Holds scenario _ (prepared scenario _ _ generation_id))

  run_in-Holds :
      (seed : Option ℕ) (found : Result (BenchmarkScenario N))
      → Holds P (run_in lab catalog task config labels seed found)
  unfolding run_in
  run_in-Holds seed (err e) =
      constructed-Holds P _ (failing "KeyError" none none (seed_or_zero seed) _)
  run_in-Holds seed (ok scenario) = attempt-Holds (with_seed seed scenario) _ refl

  -- What holds of every failed record and of every prepared run holds of what `run_one` gives.
  pub run_one_rule :
      (scenarios : List (BenchmarkScenario N)) (seed : Option ℕ)
      → Holds P (run_one lab catalog task config labels scenarios seed)
  unfolding run_one
  run_one_rule scenarios seed = run_in-Holds seed (scenario_named scenarios task.scenario_id)
