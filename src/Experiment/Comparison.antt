-- ===== src/Experiment/Comparison.antt =====
-- experiments/runner.py: `compare_architectures` and `compare_combinations`, with the experiment id
-- given. `labs i` is what the runner finds in the i-th run: its model provider, gateway and clock.
pub mod Controlled
use industrial_context_aware.Base.{
  ℕ, zero, suc, String, ◌<>◌, Option, none, some, List, [], ◌∷◌, Result, ok, err,
}
use industrial_context_aware.Base.Float.{Float}
use industrial_context_aware.Agent.Trace.{TraceEvent}
use industrial_context_aware.Context.Combinations.{join}
use industrial_context_aware.Experiment.Models.{
  AgentType, DeterministicAgentKind, ExperimentConfig, ExperimentRecord,
}
use industrial_context_aware.Experiment.Lab.{Attempt, raises, gives, Lab}
use industrial_context_aware.Experiment.Presets.{ArchitectureCombination, get_combination}
use industrial_context_aware.Experiment.Runner.{run_prepared}
use industrial_context_aware.Benchmark.Execution.{scenario_named}
use industrial_context_aware.Tasks.Scenarios.{BenchmarkScenario}

-- The arguments that all runs of a comparison share.
pub record ComparisonOptions (N : Type 0) : Type 0 where
  pub agent_type : AgentType
  pub deterministic_agent : Option DeterministicAgentKind
  pub llm_model : Option String
  pub llm_temperature : Option N
  pub max_steps : Option ℕ

module _ {N : Type 0} where
  unfoldable pub config_for :
      String → AgentType → ComparisonOptions N → List String → Option String → ExperimentConfig N
  config_for scenario_id agent_type o architectures key = record {
    scenario_id = scenario_id;
    task_id = none;
    task_type = none;
    isa95_level = none;
    use_case_id = none;
    context_combination_id = none;
    suite = none;
    split = none;
    repetition = none;
    question_id = none;
    question_instance_id = none;
    repetition_mode = none;
    architectures = architectures;
    architecture_combination_key = key;
    agent_type = agent_type;
    deterministic_agent = o.deterministic_agent;
    deterministic_equipment_key = none;
    llm_model = o.llm_model;
    llm_temperature = o.llm_temperature;
    max_steps = o.max_steps;
    max_tool_calls = none;
    max_context_tokens = none;
    max_wall_time_seconds = none;
    random_seed = none;
  }

-- A run and the later ones: the first exception ends the comparison.
unfoldable pub before : {A : Type 0} → Attempt A → Attempt (List A) → Attempt (List A)
before (raises text) rest = raises text
before (gives run) (raises text) = raises text
before (gives run) (gives runs) = gives (run ∷ runs)

module _ {N : Type 0} ⦃f : Float N⦄ (labs : ℕ → Lab N) (o : ComparisonOptions N)
    (scenario_id : String) (experiment_id : String) where
  module _ (scenario : BenchmarkScenario N) (generation_id : String) where
    -- One run of the prepared scenario, of a configuration with an architecture at least.
    unfoldable pub variant :
        ℕ
        → List String
        → Option String
        → String
        → Attempt (ExperimentRecord N × List (TraceEvent N))
    variant i [] key suffix = raises "ValidationError"
    variant i (a ∷ architectures) key suffix = gives (
        run_prepared (labs i) scenario
          (config_for scenario_id o.agent_type o (a ∷ architectures) key)
          (experiment_id <> "-" <> suffix) experiment_id generation_id none (none, none))

    unfoldable pub preset_variant :
        ℕ → Result ArchitectureCombination → Attempt (ExperimentRecord N × List (TraceEvent N))
    preset_variant i (err e) = raises "KeyError"
    preset_variant i (ok combination) =
        variant i combination.architectures (some combination.key) combination.key

    unfoldable pub variants_from :
        ℕ → List (List String) → Attempt (List (ExperimentRecord N × List (TraceEvent N)))
    variants_from i [] = gives []
    variants_from i (architectures ∷ configs) =
        before (variant i architectures none (join "+" architectures))
          (variants_from (suc i) configs)

    unfoldable pub presets_from :
        ℕ → List String → Attempt (List (ExperimentRecord N × List (TraceEvent N)))
    presets_from i [] = gives []
    presets_from i (key ∷ keys) =
        before (preset_variant i (get_combination key)) (presets_from (suc i) keys)

  -- The scenario is prepared once, and all runs follow in it.
  unfoldable pub once_prepared :
      (BenchmarkScenario N → String → Attempt (List (ExperimentRecord N × List (TraceEvent N))))
      → BenchmarkScenario N
      → Attempt String
      → Attempt (List (ExperimentRecord N × List (TraceEvent N)))
  once_prepared runs scenario (raises text) = raises text
  once_prepared runs scenario (gives generation_id) = runs scenario generation_id

  unfoldable pub in_scenario :
      (BenchmarkScenario N → String → Attempt (List (ExperimentRecord N × List (TraceEvent N))))
      → Result (BenchmarkScenario N)
      → Attempt (List (ExperimentRecord N × List (TraceEvent N)))
  in_scenario runs (err e) = raises "KeyError"
  in_scenario runs (ok scenario) = once_prepared runs scenario ((labs 0).prepare scenario)

  unfoldable pub compare_architectures :
      List (BenchmarkScenario N)
      → List (List String)
      → Attempt (List (ExperimentRecord N × List (TraceEvent N)))
  compare_architectures scenarios configs =
      in_scenario (λ scenario generation_id. variants_from scenario generation_id 0 configs)
        (scenario_named scenarios scenario_id)

  unfoldable pub compare_combinations :
      List (BenchmarkScenario N)
      → List String
      → Attempt (List (ExperimentRecord N × List (TraceEvent N)))
  compare_combinations scenarios keys =
      in_scenario (λ scenario generation_id. presets_from scenario generation_id 0 keys)
        (scenario_named scenarios scenario_id)
