-- ===== src/Experiment/Runner/Calls.antt =====
-- About the number of tool calls in the report of a run of experiments/runner.py.
use industrial_context_aware.Base.{
  ℕ, ◌≤◌, ◌≡◌, refl, ap, subst, ◌∙◌, String, Option, none, some, some-injective, List, Result, ok,
  err, arith, sym, inl, inr,
}
use industrial_context_aware.Base.Float.{Float}
use industrial_context_aware.Base.Json.{Fields}
use industrial_context_aware.Agent.Interface.{InvestigationResult}
use industrial_context_aware.Agent.Trace.{TraceEvent}
use industrial_context_aware.Agent.Tools.{tools_for_architectures}
use industrial_context_aware.Agent.Loop.Budgets.{run-evidence_le}
use industrial_context_aware.Agent.Loop.Attempts.{attempt-RunsOrLeaves}
use industrial_context_aware.Agent.Loop.{run}
use industrial_context_aware.Agent.World.{State}
use industrial_context_aware.Agent.Loop.Traced.{calls_in, run-IsTraced}
use industrial_context_aware.Evaluation.Report.{EvaluationReport}
use industrial_context_aware.Evaluation.Grounded.{evaluate, evaluate_task, evaluate_against}
use industrial_context_aware.Experiment.Models.{AgentType, llm, ExperimentConfig}
use industrial_context_aware.Experiment.Lab.{
  Attempt, raises, gives, Lab, settings_of, objective_of, initial_state_of,
}
use industrial_context_aware.Experiment.Runner.{
  resolve_config, run_with_tools, run_llm, run_agent, evaluation_of, record_of_run, run_prepared,
}
use industrial_context_aware.Tasks.Scenarios.{BenchmarkScenario}
use industrial_context_aware.Tasks.BenchmarkTasks.{BenchmarkTask}

-- A report with at most the given number of tool calls, if there is a report.
abbrev pub HasCallsWithin : {N : Type 0} → ℕ → Option (EvaluationReport N) → Type 0
HasCallsWithin {N} limit evaluation =
    (e : EvaluationReport N) → evaluation ≡ some e → e.tool_call_count ≤ limit

-- The tool calls that a report counts, and none where there is no report.
abbrev pub reported_calls : {N : Type 0} → Option (EvaluationReport N) → ℕ
reported_calls none = 0
reported_calls (some e) = e.tool_call_count

pub reported_calls_le :
    {N : Type 0} (limit : ℕ) (evaluation : Option (EvaluationReport N))
    → HasCallsWithin limit evaluation
    → reported_calls evaluation ≤ limit
reported_calls_le limit none h = omega arith
reported_calls_le limit (some e) h = h e refl

module _ {N : Type 0} ⦃f : Float N⦄ (lab : Lab N) (limit : ℕ) where
  -- If a result is given, the trace has at most so many tool calls.
  abbrev IsWithin : Attempt (InvestigationResult N) × List (TraceEvent N) → Type 0
  IsWithin outcome = (r : InvestigationResult N) → outcome.0 ≡ gives r → calls_in outcome.1 ≤ limit

  run_with_tools-calls :
      (tools : Result (List String)) (config : ExperimentConfig N) (objective : String)
      (initial_state : Fields N)
      → config.max_tool_calls ≡ some limit
      → IsWithin (run_with_tools lab tools config objective initial_state)
  unfolding run_with_tools settings_of
  run_with_tools-calls (err e) config objective initial_state budget r h = cc
  run_with_tools-calls (ok tools) config objective initial_state budget r h =
      let o = settings_of lab.system_prompt config tools in
      let (counted, within) = run-evidence_le lab.world o objective initial_state limit budget in
      elim (attempt-RunsOrLeaves lab.world o objective initial_state) [
        | inl whole ↦
            let kept : calls_in (run_with_tools lab (ok tools) config objective initial_state).1
                ≡ calls_in (run lab.world o objective initial_state).1.trace =
              ap (λ (p : Attempt (InvestigationResult N) × State N). calls_in p.1.trace) whole in
            omega (arith, kept, counted, within, run-IsTraced lab.world o objective initial_state)
        | inr left ↦ absurd (raises_not_gives (sym left.left_by ∙ h))
      ]
    where
      raises_not_gives : {text : String} → raises text ≡ gives r → ⊥
      raises_not_gives e = cc

  run_llm-calls :
      (error : Option String) (config : ExperimentConfig N) (objective : String)
      (initial_state : Fields N)
      → config.max_tool_calls ≡ some limit
      → IsWithin (run_llm lab error config objective initial_state)
  unfolding run_llm
  run_llm-calls (some text) config objective initial_state budget r h = cc
  run_llm-calls none config objective initial_state budget r h =
      run_with_tools-calls (tools_for_architectures config.architectures) config objective
        initial_state budget r h

  run_agent-calls :
      (agent_type : AgentType) (config : ExperimentConfig N) (objective : String)
      (initial_state : Fields N)
      → agent_type ≡ llm
      → config.max_tool_calls ≡ some limit
      → IsWithin (run_agent lab agent_type config objective initial_state)
  unfolding run_agent
  run_agent-calls agent_type config objective initial_state is_llm budget =
      rw is_llm (run_llm-calls (lab.client_error config) config objective initial_state budget)

  resolve_config-llm :
      (config : ExperimentConfig N)
      → config.agent_type ≡ llm
      → ((resolve_config lab config).agent_type ≡ llm)
        × ((resolve_config lab config).max_tool_calls ≡ config.max_tool_calls)
  unfolding resolve_config
  resolve_config-llm config is_llm = rw is_llm (refl, refl)

  evaluation_of-calls :
      (scenario : BenchmarkScenario N) (task : Option (BenchmarkTask N)) (generation_id : String)
      (result : Attempt (InvestigationResult N)) (trace : List (TraceEvent N))
      → IsWithin (result, trace)
      → HasCallsWithin limit (evaluation_of lab scenario task generation_id result trace)
  unfolding evaluation_of evaluate evaluate_task evaluate_against
  evaluation_of-calls scenario task generation_id (raises text) trace within e h = cc
  evaluation_of-calls scenario none generation_id (gives result) trace within e h =
      subst (λ (r : EvaluationReport N). r.tool_call_count ≤ limit) (some-injective _ _ h)
        (within result refl)
  evaluation_of-calls scenario (some task) generation_id (gives result) trace within e h =
      subst (λ (r : EvaluationReport N). r.tool_call_count ≤ limit) (some-injective _ _ h)
        (within result refl)

  pub run_prepared-calls :
      (scenario : BenchmarkScenario N) (config : ExperimentConfig N)
      (run_id experiment_id generation_id : String) (task : Option (BenchmarkTask N))
      (versions : Option String × Option String)
      → config.agent_type ≡ llm
      → config.max_tool_calls ≡ some limit
      → HasCallsWithin limit
          (run_prepared lab scenario config run_id experiment_id generation_id task
            versions).0.evaluation
  unfolding run_prepared record_of_run
  run_prepared-calls scenario config run_id experiment_id generation_id task versions is_llm
        budget =
      let resolved = resolve_config lab config in
      let (still, same) = resolve_config-llm config is_llm in
      evaluation_of-calls scenario task generation_id _ _ (
        run_agent-calls resolved.agent_type resolved (objective_of scenario task)
          (initial_state_of scenario) still (same ∙ budget))
