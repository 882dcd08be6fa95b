-- ===== src/Benchmark/Execution.antt =====
-- benchmark/_execution.py: the configuration of a run, the version of its fault, and `run_one`.
pub mod Config
pub mod Rules
pub mod Settled
pub mod Legacy
use industrial_context_aware.Base.{
  ◌||◌, ℕ, Bool, true, false, ◌==◌, string_eq, String, Option, none, some, List, [], ◌∷◌, Result,
  ok, err, value_error, ◌>>=◌, if◌then◌else◌,
}
use industrial_context_aware.Context.Dimensions.{provided_dimensions}
use industrial_context_aware.Context.Combinations.{combination_id_for}
use industrial_context_aware.Experiment.Models.{
  AgentType, deterministic, llm, DeterministicAgentKind, structured_retrieval, context_aware,
  architecture_aware, scenario_aware, ExperimentConfig, ExperimentRecord, failed, valid,
}
use industrial_context_aware.Agent.Trace.{TraceEvent}
use industrial_context_aware.Base.{key_error, find}
use industrial_context_aware.Base.Float.{Float}
use industrial_context_aware.Experiment.Lab.{Attempt, raises, gives, Lab, first_fault}
use industrial_context_aware.Experiment.Runner.{run_task}
use industrial_context_aware.Tasks.Scenarios.{mode_value, difficulty_value, BenchmarkScenario}
use industrial_context_aware.Tasks.BenchmarkTasks.{BenchmarkTask}
use industrial_context_aware.Faults.{FaultCatalogEntry, catalog_get}

-- The optional arguments.
pub record RunOptions (N : Type 0) : Type 0 where
  pub suite : Option String
  pub llm_model : Option String
  pub llm_temperature : Option N
  pub max_steps : Option ℕ
  pub max_tool_calls : Option ℕ
  pub max_context_tokens : Option ℕ
  pub max_wall_time_seconds : Option N

-- The kind of agent that a selector names.
unfoldable pub agent_kind : String → Result (AgentType × Option DeterministicAgentKind)
agent_kind agent =
    if agent == "baseline"
    then ok (deterministic, some scenario_aware)
    else if agent == "llm"
    then ok (llm, none)
    else if agent == "structured_retrieval"
    then ok (deterministic, some structured_retrieval)
    else if agent == "context_aware"
    then ok (deterministic, some context_aware)
    else if agent == "architecture_aware"
    then ok (deterministic, some architecture_aware)
    else err value_error

module _ {N : Type 0} where
  unfoldable pub config_of :
      BenchmarkTask N
      → List String
      → Option String
      → String
      → RunOptions N
      → AgentType × Option DeterministicAgentKind
      → String
      → ExperimentConfig N
  config_of task architectures key split options kind id = record {
    scenario_id = task.scenario_id;
    task_id = some task.task_id;
    task_type = some (mode_value task.task_type);
    isa95_level = task.isa95_level;
    use_case_id = task.use_case_id;
    context_combination_id = some id;
    suite = options.suite;
    split = some split;
    repetition = none;
    question_id = none;
    question_instance_id = none;
    repetition_mode = none;
    architectures = architectures;
    architecture_combination_key = key;
    agent_type = kind.0;
    deterministic_agent = kind.1;
    deterministic_equipment_key = none;
    llm_model = options.llm_model;
    llm_temperature = options.llm_temperature;
    max_steps = options.max_steps;
    max_tool_calls = options.max_tool_calls;
    max_context_tokens = options.max_context_tokens;
    max_wall_time_seconds = options.max_wall_time_seconds;
    random_seed = none;
  }

  unfoldable pub build_experiment_config :
      BenchmarkTask N
      → List String
      → Option String
      → String
      → String
      → RunOptions N
      → Result (ExperimentConfig N)
  build_experiment_config task architectures key split agent options = do
    kind ← agent_kind agent
    id ← combination_id_for (provided_dimensions architectures)
    ok (config_of task architectures key split options kind id)

  unfoldable pub version_of : Result (FaultCatalogEntry N) → Option String
  version_of (err e) = none
  version_of (ok entry) = some entry.tep_studio_version

  unfoldable pub fault_version_for :
      Option String → Option (List (FaultCatalogEntry N)) → Option String
  fault_version_for none catalog = none
  fault_version_for (some id) none = none
  fault_version_for (some id) (some entries) = version_of (catalog_get entries id)

  -- `scenario_registry.get`, which raises a `KeyError`.
  unfoldable pub scenario_named : List (BenchmarkScenario N) → String → Result (BenchmarkScenario N)
  scenario_named scenarios id =
      elim (find (λ (s : BenchmarkScenario N). s.scenario_id == id) scenarios) [
        | none ↦ err key_error
        | some s ↦ ok s
      ]

  -- `scenario.model_copy(update={"seed": seed})`, where a seed is given.
  unfoldable pub with_seed : Option ℕ → BenchmarkScenario N → BenchmarkScenario N
  with_seed none scenario = scenario
  with_seed (some seed) scenario = record scenario { seed = seed }

  unfoldable pub with_fault_version : Option String → ExperimentRecord N → ExperimentRecord N
  with_fault_version none r = r
  with_fault_version (some version) r = record r { fault_version = some version }

-- `seed if seed is not None else 0`
unfoldable pub seed_or_zero : Option ℕ → ℕ
seed_or_zero none = 0
seed_or_zero (some seed) = seed

-- The record that a call of `ExperimentRecord` makes, whose two ids must not be empty, with an empty
-- trace.
unfoldable pub constructed :
    {N : Type 0} → ExperimentRecord N → Attempt (ExperimentRecord N × List (TraceEvent N))
constructed r =
    if r.run_id == "" || r.experiment_id == "" then raises "ValidationError" else gives (r, [])

-- The arguments of `run_one` that only the record carries.
pub record RunLabels : Type 0 where
  pub run_id : String
  pub experiment_id : String
  pub benchmark_version : Option String
  pub git_commit : Option String

module _ {N : Type 0} ⦃f : Float N⦄ (lab : Lab N) (catalog : Option (List (FaultCatalogEntry N)))
    (task : BenchmarkTask N) (config : ExperimentConfig N) (labels : RunLabels) where
  -- The fields of the record of a run that raised, with what is known of its scenario.
  unfoldable pub failed_record :
      String → Option String → Option String → ℕ → String → ExperimentRecord N
  failed_record text fault_id scenario_version seed difficulty = record {
    run_id = labels.run_id;
    experiment_id = labels.experiment_id;
    config = config;
    scenario_difficulty = difficulty;
    simulation_seed = seed;
    generation_id = none;
    icab_version = lab.icab_version;
    benchmark_version = labels.benchmark_version;
    git_commit = labels.git_commit;
    fault_id = fault_id;
    fault_version = fault_version_for fault_id catalog;
    scenario_version = scenario_version;
    task_version = some task.version;
    configuration_hash = some (lab.configuration_hash config);
    status = failed;
    error = some text;
    validity = valid;
    validity_reason = none;
    result = none;
    evaluation = none;
    information_flow = none;
    trace_event_count = 0;
    total_latency_ms = none;
    total_tokens = none;
  }

  unfoldable pub settle_attempt :
      BenchmarkScenario N
      → Attempt (ExperimentRecord N × List (TraceEvent N))
      → Attempt (ExperimentRecord N × List (TraceEvent N))
  settle_attempt scenario (gives (r, trace)) =
      gives (with_fault_version (fault_version_for r.fault_id catalog) r, trace)
  settle_attempt scenario (raises text) = constructed (
      failed_record text (first_fault scenario.faults) (some scenario.version) scenario.seed
        (difficulty_value scenario.difficulty))

  unfoldable pub run_in :
      Option ℕ → Result (BenchmarkScenario N) → Attempt (ExperimentRecord N × List (TraceEvent N))
  run_in seed (err e) =
      constructed
        (failed_record "KeyError" none none (seed_or_zero seed) (difficulty_value task.difficulty))
  run_in seed (ok scenario) =
      let seeded = with_seed seed scenario in
      settle_attempt seeded (
        run_task lab task config seeded labels.run_id labels.experiment_id
          (labels.benchmark_version, labels.git_commit))

  -- `run_one`, without the run id that it passes on. The record of the handler is made outside the
  -- `try`, so that an exception of its validation leaves `run_one`.
  unfoldable pub run_one :
      List (BenchmarkScenario N) → Option ℕ → Attempt (ExperimentRecord N × List (TraceEvent N))
  run_one scenarios seed = run_in seed (scenario_named scenarios task.scenario_id)
