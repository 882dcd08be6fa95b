-- ===== src/Experiment/Runner.antt =====
-- experiments/runner.py: `ExperimentRunner`, from the preparation of a scenario to the record of a run.
pub mod Records
pub mod Calls
use industrial_context_aware.Base.{
  ℕ, zero, suc, ◌+◌, Bool, true, false, ◌&&◌, not, ◌==◌, string_eq, nat_eq, String, ◌<>◌, Option,
  none, some, List, [], ◌∷◌, map, length, if◌then◌else◌, Result, ok, err,
}
use industrial_context_aware.Base.Float.{Float, float_of}
use industrial_context_aware.Base.Json.{str, Fields, end, field}
use industrial_context_aware.Agent.Interface.{InvestigationResult}
use industrial_context_aware.Agent.Trace.{TraceEvent}
use industrial_context_aware.Agent.World.{World, Settings, State}
use industrial_context_aware.Agent.Loop.{attempt}
use industrial_context_aware.Agent.Tools.{tools_for_architectures}
use industrial_context_aware.Evaluation.Grounded.{evaluate, evaluate_task}
use industrial_context_aware.Evaluation.InformationFlow.{analyze}
use industrial_context_aware.Context.Combinations.{join}
use industrial_context_aware.Evaluation.Report.{EvaluationReport}
use industrial_context_aware.Experiment.Models.{
  AgentType, deterministic, llm, DeterministicAgentKind, architecture_aware, structured_retrieval,
  context_aware, scenario_aware, kind_value, is_legacy, ExperimentRunStatus, completed, failed,
  RunValidity, valid, legacy_control_only, ExperimentConfig, ExperimentRecord,
}
use industrial_context_aware.Tasks.Scenarios.{difficulty_value, FaultSchedule, BenchmarkScenario}
use industrial_context_aware.Tasks.BenchmarkTasks.{BenchmarkTask}
use industrial_context_aware.Experiment.Lab.{
  Attempt, raises, gives, Lab, default_max_steps, steps_or_default, model_or, validity_of,
  is_architecture_aware, tokens_of, add_tokens, status_of, error_of, sum_total_tokens, first_fault,
  objective_of, version_of_task, initial_state_of, settings_of, result_given, or_default,
}

module _ {N : Type 0} ⦃f : Float N⦄ (lab : Lab N) where
  -- `_resolve_config`
  unfoldable pub resolve_config : ExperimentConfig N → ExperimentConfig N
  resolve_config config = elim config.agent_type [
    | deterministic ↦ record config {
      llm_model = none;
      llm_temperature = none;
      max_steps = none;
      max_tool_calls = none;
      max_context_tokens = none;
      max_wall_time_seconds = none;
    }
    | llm ↦ record config {
      llm_model = model_or config.llm_model lab.default_model;
      llm_temperature = some (elim config.llm_temperature [ none ↦ float_of 0 | some t ↦ t ]);
      max_steps = some (steps_or_default config.max_steps);
    }
  ]

  -- `_build_deterministic_agent`, and the agent's `run`.
  unfoldable pub run_deterministic :
      Option DeterministicAgentKind
      → ExperimentConfig N
      → String
      → Fields N
      → Attempt (InvestigationResult N) × List (TraceEvent N)
  run_deterministic none config objective initial_state = (raises "ValueError", [])
  run_deterministic (some kind) config objective initial_state =
      if is_architecture_aware kind && not (length config.architectures == 1)
      then (raises "ValueError", [])
      else lab.deterministic_run kind config objective initial_state

  unfoldable pub run_with_tools :
      Result (List String)
      → ExperimentConfig N
      → String
      → Fields N
      → Attempt (InvestigationResult N) × List (TraceEvent N)
  run_with_tools (err e) config objective initial_state = (raises "ValueError", [])
  run_with_tools (ok tools) config objective initial_state =
      let (result, state) =
        attempt lab.world (settings_of lab.system_prompt config tools) objective initial_state in
      (result, state.trace)

  -- `_build_llm_agent`, and the agent's `run`.
  unfoldable pub run_llm :
      Option String
      → ExperimentConfig N
      → String
      → Fields N
      → Attempt (InvestigationResult N) × List (TraceEvent N)
  run_llm (some text) config objective initial_state = (raises text, [])
  run_llm none config objective initial_state =
      run_with_tools (tools_for_architectures config.architectures) config objective initial_state

  -- The body of the `try` in `_run_prepared`, with the collected trace.
  unfoldable pub run_agent :
      AgentType
      → ExperimentConfig N
      → String
      → Fields N
      → Attempt (InvestigationResult N) × List (TraceEvent N)
  run_agent deterministic config objective initial_state =
      run_deterministic config.deterministic_agent config objective initial_state
  run_agent llm config objective initial_state =
      run_llm (lab.client_error config) config objective initial_state

  unfoldable pub evaluation_of :
      BenchmarkScenario N
      → Option (BenchmarkTask N)
      → String
      → Attempt (InvestigationResult N)
      → List (TraceEvent N)
      → Option (EvaluationReport N)
  evaluation_of scenario task generation_id (raises text) trace = none
  evaluation_of scenario none generation_id (gives result) trace =
      some (evaluate result trace scenario (some generation_id))
  evaluation_of scenario (some task) generation_id (gives result) trace =
      some (evaluate_task result trace task (some generation_id))

  -- The record, whose ids are never empty where it is made; `versions` are `benchmark_version` and `git_commit`.
  unfoldable pub record_of_run :
      BenchmarkScenario N
      → ExperimentConfig N
      → String
      → String
      → String
      → Option (BenchmarkTask N)
      → Option String × Option String
      → Attempt (InvestigationResult N) × List (TraceEvent N)
      → ExperimentRecord N
  record_of_run scenario config run_id experiment_id generation_id task versions (result, trace) =
      let validity = validity_of config.agent_type config.deterministic_agent in
      record {
        run_id = run_id;
        experiment_id = experiment_id;
        config = config;
        scenario_difficulty = difficulty_value scenario.difficulty;
        simulation_seed = scenario.seed;
        generation_id = some generation_id;
        icab_version = lab.icab_version;
        benchmark_version = versions.0;
        git_commit = versions.1;
        fault_id = first_fault scenario.faults;
        fault_version = none;
        scenario_version = some scenario.version;
        task_version = version_of_task task;
        configuration_hash = some (lab.configuration_hash config);
        status = status_of result;
        error = error_of result;
        validity = validity.0;
        validity_reason = validity.1;
        result = result_given result;
        evaluation = evaluation_of scenario task generation_id result trace;
        information_flow = some (analyze lab.display_names trace);
        trace_event_count = length trace;
        total_latency_ms = lab.total_latency_ms trace;
        total_tokens = sum_total_tokens trace;
      }

  -- `_run_prepared`
  unfoldable pub run_prepared :
      BenchmarkScenario N
      → ExperimentConfig N
      → String
      → String
      → String
      → Option (BenchmarkTask N)
      → Option String × Option String
      → ExperimentRecord N × List (TraceEvent N)
  run_prepared scenario config run_id experiment_id generation_id task versions =
      let resolved = resolve_config config in
      let outcome =
        run_agent resolved.agent_type resolved (objective_of scenario task)
          (initial_state_of scenario) in
      (
        record_of_run scenario resolved run_id experiment_id generation_id task versions outcome,
        outcome.1,
      )

  -- `_default_run_id`
  unfoldable pub default_run_id : ExperimentConfig N → String
  default_run_id config =
      config.scenario_id <> ("-" <> (join "+" config.architectures <> ("-" <> lab.fresh_id)))

  -- What `run_task` does with the generation id of the preparation.
  unfoldable pub after_preparation :
      BenchmarkTask N
      → ExperimentConfig N
      → BenchmarkScenario N
      → String
      → String
      → Option String × Option String
      → Attempt String
      → Attempt (ExperimentRecord N × List (TraceEvent N))
  after_preparation task config scenario run_id experiment_id versions (raises text) = raises text
  after_preparation task config scenario run_id experiment_id versions (gives generation_id) =
      let resolved_run_id = or_default run_id (default_run_id config) in
      gives (
        run_prepared scenario config resolved_run_id (or_default experiment_id resolved_run_id)
          generation_id (some task) versions)

  -- `run_task`, with the scenario given; an empty id is replaced as a missing one is.
  unfoldable pub run_task :
      BenchmarkTask N
      → ExperimentConfig N
      → BenchmarkScenario N
      → String
      → String
      → Option String × Option String
      → Attempt (ExperimentRecord N × List (TraceEvent N))
  run_task task config scenario run_id experiment_id versions =
      after_preparation task config scenario run_id experiment_id versions (lab.prepare scenario)
