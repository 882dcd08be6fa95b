-- ===== src/Benchmark/Execution/Legacy.antt =====
-- About the validity of the records of legacy baselines in benchmark/_execution.py.
use industrial_context_aware.Base.{
  ℕ, ◌≡◌, refl, sym, subst, ap, ◌∙◌, ◌↔◌, string_eq, true, String, Option, none, some, List, Result,
  ok, err, ok_inj, Error,
}
use industrial_context_aware.Base.Attempts.{gives_inj}
use industrial_context_aware.Base.Float.{Float}
use industrial_context_aware.Agent.Trace.{TraceEvent}
use industrial_context_aware.Experiment.Models.{
  deterministic, DeterministicAgentKind, is_legacy, valid, legacy_control_only, ExperimentConfig,
  ExperimentRecord,
}
use industrial_context_aware.Experiment.Lab.{Attempt, raises, gives, Lab, validity_of}
use industrial_context_aware.Experiment.Runner.{run_prepared, record_of_run, resolve_config}
use industrial_context_aware.Benchmark.Execution.{
  RunLabels, constructed, failed_record, settle_attempt, run_in, run_one, with_seed,
  with_fault_version, seed_or_zero, scenario_named, fault_version_for,
}
use industrial_context_aware.Benchmark.Execution.Rules.{
  Holds, constructed-Holds, attempt_at, run_task-raises, run_task-gives,
}
use industrial_context_aware.Faults.{FaultCatalogEntry}
use industrial_context_aware.Tasks.Scenarios.{BenchmarkScenario}
use industrial_context_aware.Tasks.BenchmarkTasks.{BenchmarkTask}

module _ {N : Type 0} ⦃f : Float N⦄ (lab : Lab N) (catalog : Option (List (FaultCatalogEntry N)))
    (task : BenchmarkTask N) (config : ExperimentConfig N) (labels : RunLabels) where
  -- The task's scenario is known, and its preparation gave a generation of data.
  abbrev pub IsPrepared : List (BenchmarkScenario N) → Option ℕ → Type 0
  IsPrepared scenarios seed =
      (scenario : BenchmarkScenario N) × (generation_id : String) × (scenario_named scenarios
          task.scenario_id
        ≡ ok scenario)
      × (lab.prepare (with_seed seed scenario) ≡ gives generation_id)

  failed_record-valid :
      (text : String) (fault_id scenario_version : Option String) (seed : ℕ) (difficulty : String)
      → Holds
          (λ r. r.validity ≡ valid)
          (constructed (
            failed_record lab catalog task config labels text fault_id scenario_version seed
              difficulty))
  unfolding failed_record
  failed_record-valid text fault_id scenario_version seed difficulty =
      constructed-Holds (λ r. r.validity ≡ valid) _ refl

  resolved_kind :
      config.agent_type ≡ deterministic
      → ((resolve_config lab config).agent_type ≡ deterministic)
        × ((resolve_config lab config).deterministic_agent ≡ config.deterministic_agent)
  unfolding resolve_config
  resolved_kind is_deterministic = rw is_deterministic (refl, refl)

  module _ {kind : DeterministicAgentKind} (is_deterministic : config.agent_type ≡ deterministic)
      (of_kind : config.deterministic_agent ≡ some kind) (legacy : is_legacy kind ≡ true) where
    validity_of-legacy : (validity_of deterministic (some kind)).0 ≡ legacy_control_only
    unfolding validity_of
    validity_of-legacy = rw legacy refl

    run_prepared-legacy :
        (scenario : BenchmarkScenario N) (run_id experiment_id generation_id : String)
        → (run_prepared lab scenario config run_id experiment_id generation_id
            (some task)
            (labels.benchmark_version, labels.git_commit)).0.validity
          ≡ legacy_control_only
    unfolding run_prepared record_of_run
    run_prepared-legacy scenario run_id experiment_id generation_id =
        let (still, same) = resolved_kind is_deterministic in
        rw (still, same, of_kind) validity_of-legacy

    versioned :
        (version : Option String) (r : ExperimentRecord N)
        → r.validity ≡ legacy_control_only
        → (with_fault_version version r).validity ≡ legacy_control_only
    unfolding with_fault_version
    versioned none r h = h
    versioned (some version) r h = h

    settle_attempt-legacy :
        (scenario : BenchmarkScenario N) (outcome : ExperimentRecord N × List (TraceEvent N))
        → outcome.0.validity ≡ legacy_control_only
        → Holds
            (λ r. r.validity ≡ legacy_control_only)
            (settle_attempt lab catalog task config labels scenario (gives outcome))
    unfolding settle_attempt
    settle_attempt-legacy scenario (r, trace) h p e =
        subst (λ (q : ExperimentRecord N × List (TraceEvent N)). q.0.validity ≡ legacy_control_only)
          (gives_inj e) (versioned (fault_version_for r.fault_id catalog) r h)

    not_both : (r : ExperimentRecord N) → r.validity ≡ valid → r.validity ≡ legacy_control_only → ⊥
    not_both r v l = cc

    -- With the scenario found, what the preparation gives decides.
    attempt_iff :
        (scenarios : List (BenchmarkScenario N)) (seed : Option ℕ) (scenario : BenchmarkScenario N)
        (preparation : Attempt String)
        → scenario_named scenarios task.scenario_id ≡ ok scenario
        → lab.prepare (with_seed seed scenario) ≡ preparation
        → Holds
            (λ r. (r.validity ≡ legacy_control_only) ↔ IsPrepared scenarios seed)
            (settle_attempt lab catalog task config labels
              (with_seed seed scenario)
              (attempt_at lab task config labels (with_seed seed scenario)))
    unfolding settle_attempt
    attempt_iff scenarios seed scenario (raises text) known e p given =
        let seeded = with_seed seed scenario in
        let is_valid =
          failed_record-valid text _ _ seeded.seed _ p
            (rw (run_task-raises lab task config labels seeded e) at given) in
        (
          λ l. absurd (not_both p.0 is_valid l),
          λ (other, generation_id, named, prepared). absurd (
              raises_not_gives (
                sym e
                ∙ ap (λ (s : BenchmarkScenario N). lab.prepare (with_seed seed s))
                    (ok_inj (sym known ∙ named))
                ∙ prepared)),
        )
      where
        raises_not_gives : {a b : String} → raises a ≡ gives b → ⊥
        raises_not_gives h = cc
    attempt_iff scenarios seed scenario (gives generation_id) known e p given =
        let seeded = with_seed seed scenario in
        (
          λ l. (scenario, generation_id, known, e),
          λ prepared.
              settle_attempt-legacy seeded _ (run_prepared-legacy seeded _ _ generation_id) p (
                ap (settle_attempt lab catalog task config labels seeded)
                  (sym (run_task-gives lab task config labels seeded e))
                ∙ given),
        )

    found_iff :
        (scenarios : List (BenchmarkScenario N)) (seed : Option ℕ)
        (found : Result (BenchmarkScenario N))
        → scenario_named scenarios task.scenario_id ≡ found
        → Holds
            (λ r. (r.validity ≡ legacy_control_only) ↔ IsPrepared scenarios seed)
            (run_in lab catalog task config labels seed found)
    unfolding run_in
    found_iff scenarios seed (err raised) e p given = (
      λ l.
          absurd (
            not_both p.0 (failed_record-valid "KeyError" none none (seed_or_zero seed) _ p given)
              l),
      λ (scenario, generation_id, named, prepared). absurd (err_not_ok (sym e ∙ named)),
    )
      where
        err_not_ok : {raised : Error} {s : BenchmarkScenario N} → err raised ≡ ok s → ⊥
        err_not_ok h = cc
    found_iff scenarios seed (ok scenario) e p given =
        attempt_iff scenarios seed scenario _ e refl p given

    -- A legacy baseline, which the runner never counts as valid, is recorded as a mere control exactly
    -- if its scenario is known and was prepared: each earlier exception leaves a valid record of it.
    pub run_one-legacy_iff :
        (scenarios : List (BenchmarkScenario N)) (seed : Option ℕ)
        {p : ExperimentRecord N × List (TraceEvent N)}
        → run_one lab catalog task config labels scenarios seed ≡ gives p
        → (p.0.validity ≡ legacy_control_only) ↔ IsPrepared scenarios seed
    unfolding run_one
    run_one-legacy_iff scenarios seed {p} given =
        found_iff scenarios seed (scenario_named scenarios task.scenario_id) refl p given
