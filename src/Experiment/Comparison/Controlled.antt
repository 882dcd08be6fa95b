-- ===== src/Experiment/Comparison/Controlled.antt =====
-- About the comparisons of experiments/runner.py: what their runs share.
use mathlib.Core.List.Memᴰ
use mathlib.Core.List.{Memᴰ}
use industrial_context_aware.Base.{
  ℕ, suc, ◌≡◌, refl, sym, ap, ◌∙◌, subst, string_eq, String, Option, some, List, [], ◌∷◌, Result,
  ok, err, inl, inr, ◌⊎◌,
}
use industrial_context_aware.Base.Float.{Float}
use industrial_context_aware.Agent.Trace.{TraceEvent}
use industrial_context_aware.Experiment.Comparison.{
  ComparisonOptions, config_for, before, variant, preset_variant, presets_from, once_prepared,
  in_scenario, compare_combinations,
}
use industrial_context_aware.Experiment.Controls.{control_value}
use industrial_context_aware.Experiment.Models.{
  AgentType, deterministic, llm, ExperimentConfig, ExperimentRecord,
}
use industrial_context_aware.Experiment.Lab.{Attempt, raises, gives, Lab, model_or}
use industrial_context_aware.Experiment.Presets.{ArchitectureCombination, get_combination}
use industrial_context_aware.Experiment.Runner.{resolve_config, record_of_run, run_prepared}
use industrial_context_aware.Benchmark.Execution.{scenario_named}
use industrial_context_aware.Tasks.Scenarios.{BenchmarkScenario}

module _ {N : Type 0} where
  -- Two records with the same controlled settings have the same controls.
  control_value_cong :
      (r s : ExperimentRecord N) (field : String)
      → r.config.scenario_id ≡ s.config.scenario_id
      → r.simulation_seed ≡ s.simulation_seed
      → r.config.llm_model ≡ s.config.llm_model
      → r.config.llm_temperature ≡ s.config.llm_temperature
      → r.config.max_steps ≡ s.config.max_steps
      → control_value r field ≡ control_value s field
  unfolding control_value
  control_value_cong r s field a b c d e = rw (a, b, c, d, e) refl

gives_inj : {A : Type 0} {a b : A} → gives a ≡ gives b → a ≡ b
gives_inj {A} {a} {b} h = ap given_or h
  where
    given_or : Attempt A → A
    given_or (raises text) = a
    given_or (gives x) = x

module _ {N : Type 0} ⦃f : Float N⦄ (labs : ℕ → Lab N) (o : ComparisonOptions N)
    (scenario_id : String) (experiment_id : String) where
  -- What a comparison's run leaves in its record.
  record IsVariant (scenario : BenchmarkScenario N) (generation_id : String)
      (r : ExperimentRecord N) : Type 0 where
    run : ℕ
    architectures : List String
    key : Option String
    configured :
        r.config
        ≡ resolve_config (labs run) (config_for scenario_id o.agent_type o architectures key)
    seeded : r.simulation_seed ≡ scenario.seed
    experiment : r.experiment_id ≡ experiment_id
    generation : r.generation_id ≡ some generation_id

  module _ (scenario : BenchmarkScenario N) (generation_id : String) where
    variant-IsVariant :
        (i : ℕ) (architectures : List String) (key : Option String) (suffix : String)
        {p : ExperimentRecord N × List (TraceEvent N)}
        → variant labs o scenario_id experiment_id scenario generation_id i architectures key suffix
          ≡ gives p
        → IsVariant scenario generation_id p.0
    unfolding variant run_prepared record_of_run
    variant-IsVariant i [] key suffix h = cc
    variant-IsVariant i (a ∷ architectures) key suffix h =
        subst
          (λ (q : ExperimentRecord N × List (TraceEvent N)). IsVariant scenario generation_id q.0)
          (gives_inj h)
          (record {
            run = i;
            architectures = a ∷ architectures;
            key = key;
            configured = refl;
            seeded = refl;
            experiment = refl;
            generation = refl;
          })

    before-mem :
        (now : Attempt (ExperimentRecord N × List (TraceEvent N)))
        (rest : Attempt (List (ExperimentRecord N × List (TraceEvent N))))
        {runs : List (ExperimentRecord N × List (TraceEvent N))}
        {p : ExperimentRecord N × List (TraceEvent N)}
        → before now rest ≡ gives runs
        → Memᴰ p runs
        → (now ≡ gives p)
          ⊎ ((later : List (ExperimentRecord N × List (TraceEvent N))) × (rest ≡ gives later)
              × Memᴰ p later)
    unfolding before
    before-mem (raises text) rest h m = cc
    before-mem (gives run) (raises text) h m = cc
    before-mem (gives run) (gives later) {runs} {p} h m =
        elim (Memᴰ.cases_cons (subst (Memᴰ p) (sym (gives_inj h)) m)) [
          | inl same ↦ inl (ap gives (sym same))
          | inr n ↦ inr (later, refl, n)
        ]

    preset_variant-IsVariant :
        (i : ℕ) (found : Result ArchitectureCombination)
        {p : ExperimentRecord N × List (TraceEvent N)}
        → preset_variant labs o scenario_id experiment_id scenario generation_id i found ≡ gives p
        → IsVariant scenario generation_id p.0
    unfolding preset_variant
    preset_variant-IsVariant i (err e) h = cc
    preset_variant-IsVariant i (ok c) h = variant-IsVariant i c.architectures (some c.key) c.key h

    presets_from-IsVariant :
        (i : ℕ) (keys : List String) {runs : List (ExperimentRecord N × List (TraceEvent N))}
        {p : ExperimentRecord N × List (TraceEvent N)}
        → presets_from labs o scenario_id experiment_id scenario generation_id i keys ≡ gives runs
        → Memᴰ p runs
        → IsVariant scenario generation_id p.0
    unfolding presets_from
    presets_from-IsVariant i [] {runs} {p} h m =
        absurd (Memᴰ.not-nil (subst (Memᴰ p) (sym (gives_inj h)) m))
    presets_from-IsVariant i (key ∷ keys) h m = elim (before-mem _ _ h m) [
      | inl now ↦ preset_variant-IsVariant i (get_combination key) now
      | inr (later, rest, n) ↦ presets_from-IsVariant (suc i) keys rest n
    ]

  resolved_model :
      (a : AgentType) (i j : ℕ) (xs ys : List String) (k l : Option String)
      → (labs i).default_model ≡ (labs j).default_model
      → (resolve_config (labs i) (config_for scenario_id a o xs k)).llm_model
        ≡ (resolve_config (labs j) (config_for scenario_id a o ys l)).llm_model
  unfolding resolve_config config_for
  resolved_model deterministic i j xs ys k l same = refl
  resolved_model llm i j xs ys k l same = ap (model_or o.llm_model) same

  resolved_rest :
      (a : AgentType) (i j : ℕ) (xs ys : List String) (k l : Option String)
      → ((resolve_config (labs i) (config_for scenario_id a o xs k)).scenario_id
          ≡ (resolve_config (labs j) (config_for scenario_id a o ys l)).scenario_id)
        × ((resolve_config (labs i) (config_for scenario_id a o xs k)).llm_temperature
            ≡ (resolve_config (labs j) (config_for scenario_id a o ys l)).llm_temperature)
        × ((resolve_config (labs i) (config_for scenario_id a o xs k)).max_steps
            ≡ (resolve_config (labs j) (config_for scenario_id a o ys l)).max_steps)
  unfolding resolve_config config_for
  resolved_rest deterministic i j xs ys k l = (refl, refl, refl)
  resolved_rest llm i j xs ys k l = (refl, refl, refl)

  IsVariant-same :
      (scenario : BenchmarkScenario N) (generation_id : String) (r s : ExperimentRecord N)
      (field : String)
      → ((i j : ℕ) → (labs i).default_model ≡ (labs j).default_model)
      → IsVariant scenario generation_id r
      → IsVariant scenario generation_id s
      → (control_value r field ≡ control_value s field)
        × (r.generation_id ≡ s.generation_id)
        × (r.experiment_id ≡ s.experiment_id)
  IsVariant-same scenario generation_id r s field models v w =
      let (ids, temperatures, steps) =
        resolved_rest o.agent_type v.run w.run v.architectures w.architectures v.key w.key in
      let chosen =
        resolved_model o.agent_type v.run w.run v.architectures w.architectures v.key w.key
          (models v.run w.run) in
      (
        control_value_cong r s field
            (ap (λ (c : ExperimentConfig N). c.scenario_id) v.configured
              ∙ ids
              ∙ ap (λ (c : ExperimentConfig N). c.scenario_id) (sym w.configured))
            (v.seeded ∙ sym w.seeded)
            (ap (λ (c : ExperimentConfig N). c.llm_model) v.configured
              ∙ chosen
              ∙ ap (λ (c : ExperimentConfig N). c.llm_model) (sym w.configured))
            (ap (λ (c : ExperimentConfig N). c.llm_temperature) v.configured
              ∙ temperatures
              ∙ ap (λ (c : ExperimentConfig N). c.llm_temperature) (sym w.configured))
            (ap (λ (c : ExperimentConfig N). c.max_steps) v.configured
              ∙ steps
              ∙ ap (λ (c : ExperimentConfig N). c.max_steps) (sym w.configured)),
        v.generation ∙ sym w.generation,
        v.experiment ∙ sym w.experiment,
      )

  in_scenario-gives :
      (runs : BenchmarkScenario N
        → String
        → Attempt (List (ExperimentRecord N × List (TraceEvent N))))
      (found : Result (BenchmarkScenario N))
      {all_runs : List (ExperimentRecord N × List (TraceEvent N))}
      → in_scenario labs o scenario_id experiment_id runs found ≡ gives all_runs
      → (scenario : BenchmarkScenario N) × (generation_id : String) × (runs scenario generation_id
          ≡ gives all_runs)
  unfolding in_scenario once_prepared
  in_scenario-gives runs (err e) h = cc
  in_scenario-gives runs (ok scenario) {all_runs} h = prepared ((labs 0).prepare scenario) h
    where
      prepared :
          (a : Attempt String)
          → once_prepared labs o scenario_id experiment_id runs scenario a ≡ gives all_runs
          → (scenario : BenchmarkScenario N) × (generation_id : String) × (runs scenario
                generation_id
              ≡ gives all_runs)
      prepared (raises text) k = cc
      prepared (gives generation_id) k = (scenario, generation_id, k)

  -- If the settings name the same default model throughout, all runs of a comparison have the same
  -- value at every control, the same generation of the scenario's data and the same experiment.
  pub compare_combinations-same_controls :
      (scenarios : List (BenchmarkScenario N)) (keys : List String) (field : String)
      {runs : List (ExperimentRecord N × List (TraceEvent N))}
      {p q : ExperimentRecord N × List (TraceEvent N)}
      → ((i j : ℕ) → (labs i).default_model ≡ (labs j).default_model)
      → compare_combinations labs o scenario_id experiment_id scenarios keys ≡ gives runs
      → Memᴰ p runs
      → Memᴰ q runs
      → (control_value p.0 field ≡ control_value q.0 field)
        × (p.0.generation_id ≡ q.0.generation_id)
        × (p.0.experiment_id ≡ q.0.experiment_id)
  unfolding compare_combinations
  compare_combinations-same_controls scenarios keys field {runs} {p} {q} models h m n =
      let (scenario, generation_id, made) =
        in_scenario-gives
          (λ scenario generation_id.
            presets_from labs o scenario_id experiment_id scenario generation_id 0 keys)
          (scenario_named scenarios scenario_id) h in
      IsVariant-same scenario generation_id p.0 q.0 field models
        (presets_from-IsVariant scenario generation_id 0 keys made m)
        (presets_from-IsVariant scenario generation_id 0 keys made n)
