-- ===== src/Benchmark/Execution/Settled.antt =====
-- About `run_one` of benchmark/_execution.py.
use industrial_context_aware.Base.{
  ℕ, ◌≤◌, ◌≡◌, refl, inr, ◌||◌, ◌==◌, string_eq, false, String, Option, none, some, List, Result,
  ok, err,
}
use industrial_context_aware.Base.Float.{Float}
use industrial_context_aware.Agent.Trace.{TraceEvent}
use industrial_context_aware.Experiment.Models.{llm, ExperimentConfig, ExperimentRecord}
use industrial_context_aware.Experiment.Lab.{Attempt, raises, gives, Lab}
use industrial_context_aware.Experiment.Runner.Records.{IsSettled, run_prepared-IsSettled}
use industrial_context_aware.Benchmark.Execution.{
  RunLabels, constructed, failed_record, settle_attempt, run_in, run_one, with_seed,
  with_fault_version, seed_or_zero, scenario_named,
}
use industrial_context_aware.Experiment.Runner.Calls.{
  HasCallsWithin, reported_calls, reported_calls_le, run_prepared-calls,
}
use industrial_context_aware.Benchmark.Execution.Rules.{constructed-gives, run_one_rule}
use industrial_context_aware.Faults.{FaultCatalogEntry}
use industrial_context_aware.Tasks.Scenarios.{BenchmarkScenario}
use industrial_context_aware.Tasks.BenchmarkTasks.{BenchmarkTask}

module _ {N : Type 0} ⦃f : Float N⦄ (lab : Lab N) (catalog : Option (List (FaultCatalogEntry N)))
    (task : BenchmarkTask N) (config : ExperimentConfig N) (labels : RunLabels) where
  failed_record-IsSettled :
      (text : String) (fault_id scenario_version : Option String) (seed : ℕ) (difficulty : String)
      → IsSettled (
          failed_record lab catalog task config labels text fault_id scenario_version seed
            difficulty)
  unfolding failed_record
  failed_record-IsSettled text fault_id scenario_version seed difficulty =
      inr (refl, refl, (text, refl))

  with_fault_version-IsSettled :
      (version : Option String) (r : ExperimentRecord N)
      → IsSettled r
      → IsSettled (with_fault_version version r)
  unfolding with_fault_version
  with_fault_version-IsSettled none r h = h
  with_fault_version-IsSettled (some version) r h = h

  -- The two ids that the record of the handler must have.
  abbrev pub Named : Type 0
  Named = (labels.run_id == "" || labels.experiment_id == "") ≡ false

  failed_record-gives :
      (text : String) (fault_id scenario_version : Option String) (seed : ℕ) (difficulty : String)
      → Named
      → (p : ExperimentRecord N × List (TraceEvent N)) × (constructed (
            failed_record lab catalog task config labels text fault_id scenario_version seed
              difficulty)
          ≡ gives p)
  unfolding failed_record
  failed_record-gives text fault_id scenario_version seed difficulty named =
      (_, constructed-gives _ named)

  settle_attempt-gives :
      (scenario : BenchmarkScenario N)
      (outcome : Attempt (ExperimentRecord N × List (TraceEvent N)))
      → Named
      → (p : ExperimentRecord N × List (TraceEvent N)) × (settle_attempt lab catalog task config
            labels scenario outcome
          ≡ gives p)
  unfolding settle_attempt
  settle_attempt-gives scenario (raises text) named =
      failed_record-gives text _ _ scenario.seed _ named
  settle_attempt-gives scenario (gives (r, trace)) named = (_, refl)

  run_in-gives :
      (seed : Option ℕ) (found : Result (BenchmarkScenario N))
      → Named
      → (p : ExperimentRecord N × List (TraceEvent N)) × (run_in lab catalog task config labels seed
            found
          ≡ gives p)
  unfolding run_in
  run_in-gives seed (err e) named =
      failed_record-gives "KeyError" none none (seed_or_zero seed) _ named
  run_in-gives seed (ok scenario) named = settle_attempt-gives (with_seed seed scenario) _ named

  -- If the run's id and the experiment's id are not empty, `run_one` never raises: whether the lookup
  -- of the scenario, its preparation, the making of the agent or a call of the model's provider
  -- raises, it gives a record that either completed with a report and no error or failed with an
  -- error and no report.
  pub run_one-IsSettled :
      (scenarios : List (BenchmarkScenario N)) (seed : Option ℕ)
      → labels.run_id == "" || labels.experiment_id == "" ≡ false
      → (p : ExperimentRecord N × List (TraceEvent N)) × (run_one lab catalog task config labels
            scenarios seed
          ≡ gives p)
        × IsSettled p.0
  unfolding run_one
  run_one-IsSettled scenarios seed named =
      let (p, given) = run_in-gives seed (scenario_named scenarios task.scenario_id) named in
      (
        p,
        given,
        run_one_rule lab catalog task config labels IsSettled failed_record-IsSettled
            with_fault_version-IsSettled
            (λ scenario run_id experiment_id generation_id.
              run_prepared-IsSettled lab scenario config run_id experiment_id generation_id
                (some task) (labels.benchmark_version, labels.git_commit))
            scenarios seed p given,
      )

  failed-HasCallsWithin :
      (limit : ℕ) (text : String) (fault_id scenario_version : Option String) (seed : ℕ)
      (difficulty : String)
      → HasCallsWithin limit
          (failed_record lab catalog task config labels text fault_id scenario_version seed
            difficulty).evaluation
  unfolding failed_record
  failed-HasCallsWithin limit text fault_id scenario_version seed difficulty e h = cc

  versioned-HasCallsWithin :
      (limit : ℕ) (version : Option String) (r : ExperimentRecord N)
      → HasCallsWithin limit r.evaluation
      → HasCallsWithin limit (with_fault_version version r).evaluation
  unfolding with_fault_version
  versioned-HasCallsWithin limit none r h = h
  versioned-HasCallsWithin limit (some version) r h = h

  -- The report of a run of the model under a tool-call budget counts at most that many tool calls.
  pub run_one-tool_call_count :
      (scenarios : List (BenchmarkScenario N)) (seed : Option ℕ) (limit : ℕ)
      {p : ExperimentRecord N × List (TraceEvent N)}
      → config.agent_type ≡ llm
      → config.max_tool_calls ≡ some limit
      → run_one lab catalog task config labels scenarios seed ≡ gives p
      → reported_calls p.0.evaluation ≤ limit
  run_one-tool_call_count scenarios seed limit {p} is_llm budget given =
      reported_calls_le limit p.0.evaluation (
        run_one_rule lab catalog task config labels (λ r. HasCallsWithin limit r.evaluation)
          (failed-HasCallsWithin limit) (versioned-HasCallsWithin limit)
          (λ scenario run_id experiment_id generation_id.
            run_prepared-calls lab limit scenario config run_id experiment_id generation_id
              (some task) (labels.benchmark_version, labels.git_commit) is_llm budget)
          scenarios seed p given)
