-- ===== src/Experiment/Lab.antt =====
-- experiments/runner.py: what `ExperimentRunner` works with, and the small pieces of its
-- records. Of an exception that modelled code raises, `error` has the name without the message.
pub use industrial_context_aware.Base.Attempts.{Attempt, raises, gives}
use industrial_context_aware.Base.{
  ℕ, zero, suc, ◌+◌, Bool, true, false, ◌==◌, string_eq, nat_eq, String, ◌<>◌, Option, none, some,
  List, [], ◌∷◌, if◌then◌else◌,
}
use industrial_context_aware.Base.Json.{str, Fields, end, field}
use industrial_context_aware.Agent.Interface.{InvestigationResult}
use industrial_context_aware.Agent.Trace.{TraceEvent}
use industrial_context_aware.Agent.World.{World, Settings}
use industrial_context_aware.Experiment.Models.{
  AgentType, deterministic, llm, DeterministicAgentKind, architecture_aware, structured_retrieval,
  context_aware, scenario_aware, kind_value, is_legacy, ExperimentRunStatus, completed, failed,
  RunValidity, valid, legacy_control_only, ExperimentConfig,
}
use industrial_context_aware.Tasks.Scenarios.{difficulty_value, FaultSchedule, BenchmarkScenario}
use industrial_context_aware.Tasks.BenchmarkTasks.{BenchmarkTask}

-- What a runner works with: the simulator behind `ScenarioRunner.prepare`, which gives the generation
-- id, the deterministic agents, the model provider with the gateway, and the installation.
pub record Lab (N : Type 0) : Type 0 where
  pub prepare : BenchmarkScenario N → Attempt String
  pub deterministic_run :
      DeterministicAgentKind
      → ExperimentConfig N
      → String
      → Fields N
      → Attempt (InvestigationResult N) × List (TraceEvent N)
  -- The exception of the provider's client, where it cannot be made.
  pub client_error : ExperimentConfig N → Option String
  pub world : World N
  pub system_prompt : String
  -- The published names of the measurements, with their ids.
  pub display_names : List (String × String)
  pub default_model : Option String
  -- The random end of a default run id.
  pub fresh_id : String
  pub icab_version : Option String
  pub configuration_hash : ExperimentConfig N → String
  pub total_latency_ms : List (TraceEvent N) → Option N

abbrev pub default_max_steps : ℕ
default_max_steps = 10

-- `config.max_steps or DEFAULT_MAX_STEPS`
unfoldable pub steps_or_default : Option ℕ → ℕ
steps_or_default none = default_max_steps
steps_or_default (some zero) = default_max_steps
steps_or_default (some (suc n)) = suc n

-- `config.llm_model or settings.llm_model`
unfoldable pub model_or : Option String → Option String → Option String
model_or none default = default
model_or (some model) default = if model == "" then default else some model

-- `_validity_for`
unfoldable pub validity_of : AgentType → Option DeterministicAgentKind → RunValidity × Option String
validity_of llm kind = (valid, none)
validity_of deterministic none = (valid, none)
validity_of deterministic (some kind) =
    if is_legacy kind
    then (
      legacy_control_only,
      some (
          kind_value kind
          <> " is a legacy, pre-M5 deterministic baseline hard-coded to static-prototype canonical ids/paths -- it does not access this scenario's real data. Regression/control use only; excluded from the main architecture-comparison benchmark by default."),
    )
    else (valid, none)

unfoldable pub is_architecture_aware : DeterministicAgentKind → Bool
is_architecture_aware architecture_aware = true
is_architecture_aware structured_retrieval = false
is_architecture_aware context_aware = false
is_architecture_aware scenario_aware = false

-- `_sum_total_tokens`
unfoldable pub tokens_of : Option (List (String × ℕ)) → Option ℕ
tokens_of none = none
tokens_of (some []) = none
tokens_of (some ((k, n) ∷ usage)) =
    let later = tokens_of (some usage) in if k == "total_tokens" then some n else later

unfoldable pub add_tokens : Option ℕ → Option ℕ → Option ℕ
add_tokens none rest = rest
add_tokens (some n) none = some n
add_tokens (some n) (some m) = some (n + m)

-- `run_id or self._default_run_id(config)`
unfoldable pub or_default : String → String → String
or_default id default = if id == "" then default else id

unfoldable pub result_given : {A : Type 0} → Attempt A → Option A
result_given (raises text) = none
result_given (gives result) = some result

unfoldable pub status_of : {A : Type 0} → Attempt A → ExperimentRunStatus
status_of (raises text) = failed
status_of (gives a) = completed

unfoldable pub error_of : {A : Type 0} → Attempt A → Option String
error_of (raises text) = some text
error_of (gives a) = none

module _ {N : Type 0} where
  unfoldable pub sum_total_tokens : List (TraceEvent N) → Option ℕ
  sum_total_tokens [] = none
  sum_total_tokens (event ∷ trace) =
      add_tokens (tokens_of event.token_usage) (sum_total_tokens trace)

  -- `scenario.faults[0].disturbance if scenario.faults else None`
  unfoldable pub first_fault : List (FaultSchedule N) → Option String
  first_fault [] = none
  first_fault (fault ∷ faults) = some fault.disturbance

  -- The objective, the report of an answer and the version, by whether a task is given.
  unfoldable pub objective_of : BenchmarkScenario N → Option (BenchmarkTask N) → String
  objective_of scenario none = scenario.objective
  objective_of scenario (some task) = task.objective

  unfoldable pub version_of_task : Option (BenchmarkTask N) → Option String
  version_of_task none = none
  version_of_task (some task) = some task.version

  unfoldable pub initial_state_of : BenchmarkScenario N → Fields N
  initial_state_of scenario =
      field "scenario_id" (str scenario.scenario_id)
        (field "difficulty" (str (difficulty_value scenario.difficulty)) end)

  -- The arguments of the agent's constructor.
  unfoldable pub settings_of : String → ExperimentConfig N → List String → Settings N
  settings_of prompt config tools = record {
    max_steps = steps_or_default config.max_steps;
    max_tool_calls = config.max_tool_calls;
    max_context_tokens = config.max_context_tokens;
    max_wall_time_seconds = config.max_wall_time_seconds;
    system_prompt = prompt;
    tools = tools;
    is_traced = true;
  }
