-- ===== src/Tests/Comparisons.antt =====
-- Two presets compared in one scenario.
use mathlib.Core.List.{Memᴰ}
use industrial_context_aware.Base.{
  ℕ, nat_eq, string_eq, ◌≡◌, refl, String, some, none, List, [], ◌∷◌,
}
use industrial_context_aware.Agent.Trace.{TraceEvent}
use industrial_context_aware.Experiment.Comparison.{
  ComparisonOptions, config_for, before, variant, preset_variant, presets_from, once_prepared,
  in_scenario, compare_combinations,
}
use industrial_context_aware.Experiment.Comparison.Controlled.{compare_combinations-same_controls}
use industrial_context_aware.Experiment.Controls.{control_value}
use industrial_context_aware.Experiment.Lab.{gives, raises, Lab}
use industrial_context_aware.Experiment.Models.{llm, ExperimentRecord}
use industrial_context_aware.Experiment.Presets.{get_combination, found_preset}
use industrial_context_aware.Experiment.Runner.{run_prepared}
use industrial_context_aware.Benchmark.Execution.{scenario_named}
use industrial_context_aware.Samples.{thousandths, gateway}
use industrial_context_aware.Samples.Tasks.{scenario_of}

abbrev same_lab : ℕ → Lab ℕ
same_lab i = record {
  prepare = λ scenario. gives "g";
  deterministic_run = λ kind config objective initial_state. (raises "unused", []);
  client_error = λ config. none;
  world = gateway;
  system_prompt = "Investigate.";
  display_names = [];
  default_model = some "model";
  fresh_id = "0a1b2c3d";
  icab_version = none;
  configuration_hash = λ config. "";
  total_latency_ms = λ trace. none;
}

abbrev shared : ComparisonOptions ℕ
shared = record {
  agent_type = llm;
  deterministic_agent = none;
  llm_model = none;
  llm_temperature = none;
  max_steps = some 2;
}

abbrev run_of : String → String → String → List String → ExperimentRecord ℕ × List (TraceEvent ℕ)
run_of run_id key first rest =
    run_prepared (same_lab 0) (scenario_of "Why?")
      (config_for (scenario_of "Why?").scenario_id llm shared (first ∷ rest) (some key)) run_id
      "compare" "g" none (none, none)

abbrev two_runs : List (ExperimentRecord ℕ × List (TraceEvent ℕ))
two_runs =
    run_of "compare-historian_only" "historian_only" "historian" []
    ∷ run_of "compare-uns_mqtt" "uns_mqtt" "uns" ("mqtt" ∷ [])
    ∷ []

compared_runs :
    compare_combinations same_lab shared "s" "compare"
      (scenario_of "Why?" ∷ [])
      ("historian_only" ∷ "uns_mqtt" ∷ [])
    ≡ gives two_runs
unfolding compare_combinations in_scenario once_prepared presets_from preset_variant variant before
    get_combination found_preset scenario_named
compared_runs = refl

compare_combinations-same_controls_example :
    (control_value (run_of "compare-historian_only" "historian_only" "historian" []).0 "max_steps"
      ≡ control_value (run_of "compare-uns_mqtt" "uns_mqtt" "uns" ("mqtt" ∷ [])).0 "max_steps")
    × ((run_of "compare-historian_only" "historian_only" "historian" []).0.generation_id
        ≡ (run_of "compare-uns_mqtt" "uns_mqtt" "uns" ("mqtt" ∷ [])).0.generation_id)
    × ((run_of "compare-historian_only" "historian_only" "historian" []).0.experiment_id
        ≡ (run_of "compare-uns_mqtt" "uns_mqtt" "uns" ("mqtt" ∷ [])).0.experiment_id)
compare_combinations-same_controls_example =
    compare_combinations-same_controls same_lab shared "s" "compare" (scenario_of "Why?" ∷ [])
      ("historian_only" ∷ "uns_mqtt" ∷ []) "max_steps" (λ i j. refl) compared_runs (Memᴰ.head refl)
      (Memᴰ.tail (Memᴰ.head refl))
