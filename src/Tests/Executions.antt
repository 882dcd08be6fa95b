-- ===== src/Tests/Executions.antt =====
-- Runs from the preparation to the record.
use industrial_context_aware.Base.{
  ℕ, nat_eq, string_eq, ◌≤◌, ◌≡◌, ◌↔◌, refl, true, String, some, none, List, [], ◌∷◌,
}
use industrial_context_aware.Agent.Trace.{TraceEvent}
use industrial_context_aware.Benchmark.Execution.{
  RunLabels, constructed, failed_record, settle_attempt, run_in, run_one, scenario_named, with_seed,
  with_fault_version, fault_version_for,
}
use industrial_context_aware.Benchmark.Execution.Legacy.{IsPrepared, run_one-legacy_iff}
use industrial_context_aware.Benchmark.Execution.Settled.{
  run_one-IsSettled, run_one-tool_call_count,
}
use industrial_context_aware.Experiment.Lab.{Attempt, raises, gives, Lab, or_default, first_fault}
use industrial_context_aware.Experiment.Models.{
  deterministic, structured_retrieval, ExperimentConfig, ExperimentRecord, legacy_control_only,
  is_legacy,
}
use industrial_context_aware.Experiment.Runner.{
  run_task, after_preparation, run_prepared, record_of_run,
}
use industrial_context_aware.Experiment.Runner.Calls.{reported_calls}
use industrial_context_aware.Experiment.Runner.Records.{IsSettled}
use industrial_context_aware.Samples.{thousandths, gateway, wrong_run}
use industrial_context_aware.Samples.Tasks.{scenario_of, task}
use industrial_context_aware.Tasks.Scenarios.{BenchmarkScenario, difficulty_value}

-- A laboratory whose scenarios can be prepared, or not.
abbrev lab_with : Attempt String → Lab ℕ
lab_with preparation = record {
  prepare = λ scenario. preparation;
  deterministic_run = λ kind config objective initial_state. (raises "unused", []);
  client_error = λ config. none;
  world = gateway;
  system_prompt = "Investigate.";
  display_names = [];
  default_model = some "model";
  fresh_id = "0a1b2c3d";
  icab_version = none;
  configuration_hash = λ config. "";
  total_latency_ms = λ trace. none;
}

abbrev labels : RunLabels
labels = record {
  run_id = "run";
  experiment_id = "experiment";
  benchmark_version = none;
  git_commit = none;
}

abbrev config : ExperimentConfig ℕ
config = record wrong_run.config { max_tool_calls = some 3 }

-- A legacy baseline.
abbrev legacy_config : ExperimentConfig ℕ
legacy_config = record wrong_run.config {
  agent_type = deterministic;
  deterministic_agent = some structured_retrieval;
}

abbrev scenarios : List (BenchmarkScenario ℕ)
scenarios = scenario_of "Why?" ∷ []

run_one-IsSettled_example :
    (p : ExperimentRecord ℕ × List (TraceEvent ℕ)) × (run_one
        (lab_with (gives "g"))
        none
        task
        config
        labels
        scenarios
        (some 5)
      ≡ gives p)
    × IsSettled p.0
run_one-IsSettled_example =
    run_one-IsSettled (lab_with (gives "g")) none task config labels scenarios (some 5) refl

-- A run of the model, and a legacy baseline whose preparation raises.
abbrev model_run : ExperimentRecord ℕ × List (TraceEvent ℕ)
model_run =
    run_prepared (lab_with (gives "g")) (scenario_of "Why?") config "run" "experiment" "g"
      (some task) (none, none)

abbrev unprepared_run : ExperimentRecord ℕ × List (TraceEvent ℕ)
unprepared_run = (
  failed_record (lab_with (raises "RuntimeError: simulator")) none task legacy_config labels
      "RuntimeError: simulator" (some "idv_01") (some "1.0.0") 7 "D3",
  [],
)

model_runs :
    run_one (lab_with (gives "g")) none task config labels scenarios none
    ≡ gives ((with_fault_version none model_run.0), model_run.1)
unfolding run_one run_in settle_attempt run_task after_preparation scenario_named with_seed
    or_default fault_version_for run_prepared record_of_run first_fault
model_runs = refl

unprepared_runs :
    run_one
      (lab_with (raises "RuntimeError: simulator"))
      none
      task
      legacy_config
      labels
      scenarios
      none
    ≡ gives unprepared_run
unfolding run_one run_in settle_attempt run_task after_preparation scenario_named with_seed
    first_fault difficulty_value constructed failed_record
unprepared_runs = refl

kind_is_legacy : is_legacy structured_retrieval ≡ true
unfolding is_legacy
kind_is_legacy = refl

run_one-legacy_iff_example :
    (unprepared_run.0.validity ≡ legacy_control_only)
    ↔ IsPrepared
        (lab_with (raises "RuntimeError: simulator"))
        none
        task
        legacy_config
        labels
        scenarios
        none
run_one-legacy_iff_example =
    run_one-legacy_iff (lab_with (raises "RuntimeError: simulator")) none task legacy_config labels
      refl refl kind_is_legacy scenarios none unprepared_runs

run_one-tool_call_count_example :
    reported_calls (with_fault_version none model_run.0).evaluation ≤ 3
run_one-tool_call_count_example =
    run_one-tool_call_count (lab_with (gives "g")) none task config labels scenarios none 3 refl
      refl model_runs

-- With an empty id, the record of the handler cannot be made.
nameless_raises :
    run_one
      (lab_with (raises "RuntimeError: simulator"))
      none
      task
      legacy_config
      (record labels { run_id = "" })
      scenarios
      none
    ≡ raises "ValidationError"
unfolding run_one run_in settle_attempt run_task after_preparation scenario_named with_seed
    constructed failed_record
nameless_raises = refl
