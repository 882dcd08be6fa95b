-- ===== src/Benchmark/Execution/Config.antt =====
-- About the configurations that `build_experiment_config` of benchmark/_execution.py builds.
use mathlib.Core.Path.{subst}
use industrial_context_aware.Base.{
  ◌≡◌, ◌≢◌, refl, sym, ap, Bool, true, false, ◌==◌, string_eq, String, Option, none, some, List, [],
  Result, ok, >>=-eq-ok, ok_inj, is_empty, Bool-cases, inl, inr, ◌↔◌, if◌then◌else◌,
}
use industrial_context_aware.Context.Dimensions.{ContextDimension, provided_dimensions}
use industrial_context_aware.Context.Combinations.{
  ContextCombination, combination, canonical_order, combination_id_for, combination_for_dimensions,
}
use industrial_context_aware.Context.Combinations.Lookup.{combination_for_dimensions_total}
use industrial_context_aware.Experiment.Models.{
  ExperimentConfig, DeterministicAgentKind, AgentType, deterministic, llm, scenario_aware,
  structured_retrieval, context_aware, architecture_aware,
}
use industrial_context_aware.Tasks.BenchmarkTasks.{BenchmarkTask}
use industrial_context_aware.Benchmark.Execution.{
  RunOptions, agent_kind, config_of, build_experiment_config,
}

-- A model has no deterministic kind, and the other agents have one.
abbrev Agrees : AgentType × Option DeterministicAgentKind → Type 0
Agrees kind = (kind.0 ≡ llm) ↔ (kind.1 ≡ none)

Agrees-deterministic : (k : DeterministicAgentKind) → Agrees (deterministic, some k)
Agrees-deterministic k = (λ h. cc, λ h. cc)

-- A test passes over the choice between two results.
Agrees-if :
    (b : Bool) (first : AgentType × Option DeterministicAgentKind)
    {kind : AgentType × Option DeterministicAgentKind}
    {rest : Result (AgentType × Option DeterministicAgentKind)}
    → Agrees first
    → (rest ≡ ok kind → Agrees kind)
    → (if b then ok first else rest) ≡ ok kind
    → Agrees kind
Agrees-if true first here there h = subst Agrees (ok_inj h) here
Agrees-if false first here there h = there h

kind-Agrees :
    (agent : String) (kind : AgentType × Option DeterministicAgentKind)
    → agent_kind agent ≡ ok kind
    → Agrees kind
unfolding agent_kind
kind-Agrees agent kind h =
    Agrees-if (agent == "baseline") (deterministic, some scenario_aware)
      (Agrees-deterministic scenario_aware)
      (Agrees-if (agent == "llm") (llm, none) (λ e. refl, λ e. refl)
        (Agrees-if (agent == "structured_retrieval") (deterministic, some structured_retrieval)
          (Agrees-deterministic structured_retrieval)
          (Agrees-if (agent == "context_aware") (deterministic, some context_aware)
            (Agrees-deterministic context_aware)
            (Agrees-if (agent == "architecture_aware") (deterministic, some architecture_aware)
              (Agrees-deterministic architecture_aware) (λ e. absurd (cc e))))))
      h

none_selected : is_empty (canonical_order []) ≡ true
unfolding canonical_order
none_selected = refl

id_known :
    (dims : List ContextDimension) {id : String}
    → combination_id_for dims ≡ ok id
    → (dims ≢ []) × ((combination (canonical_order dims)).combination_id ≡ id)
unfolding combination_id_for combination
id_known dims {id} h = elim (Bool-cases (is_empty (canonical_order dims))) [
  | inl nothing ↦ absurd (cc (rw nothing at h))
  | inr something ↦ (
    (λ e. absurd (cc (something, none_selected, ap (λ ds. is_empty (canonical_order ds)) e))),
    ok_inj (rw something at h),
  )
]

module _ {N : Type 0} (task : BenchmarkTask N) (architectures : List String) (key : Option String)
    (split agent : String) (options : RunOptions N) where
  -- A configuration that is built names the context that its own architectures provide, by the id
  -- under which the table has it, and gives a deterministic kind exactly if the agent is no model.
  pub build_experiment_config-provided :
      (config : ExperimentConfig N)
      → build_experiment_config task architectures key split agent options ≡ ok config
      → (config.architectures ≡ architectures)
        × ((c : ContextCombination) × (combination_for_dimensions
                (provided_dimensions config.architectures)
              ≡ ok c)
            × (config.context_combination_id ≡ some c.combination_id))
        × ((config.agent_type ≡ llm) ↔ (config.deterministic_agent ≡ none))
  unfolding build_experiment_config config_of
  build_experiment_config-provided config h =
      let dims = provided_dimensions architectures in
      let (kind, named, later) = >>=-eq-ok (agent_kind agent) _ h in
      let (id, found, last) = >>=-eq-ok (combination_id_for dims) _ later in
      let (some_provided, same) = id_known dims found in
      subst
        (λ (c : ExperimentConfig N).
          (c.architectures ≡ architectures)
          × ((x : ContextCombination) × (combination_for_dimensions
                  (provided_dimensions c.architectures)
                ≡ ok x)
              × (c.context_combination_id ≡ some x.combination_id))
          × ((c.agent_type ≡ llm) ↔ (c.deterministic_agent ≡ none)))
        (ok_inj last)
        (
          refl,
          (
            combination (canonical_order dims),
            combination_for_dimensions_total dims some_provided,
            ap some (sym same),
          ),
          kind-Agrees agent kind named,
        )
