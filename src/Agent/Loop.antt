-- ===== src/Agent/Loop.antt =====
-- agent/llm/agent.py: the tool-calling loop of `LLMInvestigationAgent`. The model provider, the clock
-- and the gateway are parameters. `run` is the loop with a provider whose calls all return, `attempt`
-- the loop with a provider whose calls may raise.
pub mod Rules
pub mod Budgets
pub mod Tokens
pub mod Traced
pub mod Provenance
pub mod Findings
pub mod Attempts
use industrial_context_aware.Base.{
  ℕ, zero, suc, ◌+◌, Bool, true, false, ◌&&◌, ◌||◌, not, String, ◌<>◌, Option, none, some, List, [],
  ◌∷◌, ◌++◌, if◌then◌else◌, ltb, leb, ◌==◌, string_eq, find,
}
use industrial_context_aware.Base.Attempts.{Attempt, raises, gives}
use industrial_context_aware.Base.Decimal.{decimal}
use industrial_context_aware.Base.Float.{Float, float_lt}
use industrial_context_aware.Base.Json.{Json, null, str, obj, Fields, end, field, get}
use industrial_context_aware.Agent.Interface.{
  TerminationReason, submitted, no_tool_call, step_budget_exceeded, tool_call_budget_exceeded,
  token_budget_exceeded, wall_time_budget_exceeded, EvidenceReference, InvestigationResult,
}
use industrial_context_aware.Agent.World.{
  ToolCall, LlmResponse, Message, system, user, assistant, tool, HttpReply, reply, raised, World,
  Settings, State, Turn, stop, go,
}
use industrial_context_aware.Agent.Calls.{
  dict_set, token_count, text_of, first_argument, identifier_for, evidence_for, acquired_by,
  error_fields, generate_event, record_if, tool_event, settle, execute_tool, after_call,
}
use industrial_context_aware.Agent.Trace.{TraceEvent, append_event}

unfoldable pub result_of :
    {N : Type 0} → String → String → TerminationReason → State N → InvestigationResult N
result_of objective conclusion termination s = record {
  objective = objective;
  conclusion = conclusion;
  findings = s.findings;
  evidence = s.evidence;
  termination = termination;
}

-- `limit is not None and total >= limit`
unfoldable pub is_spent : Option ℕ → ℕ → Bool
is_spent none total = false
is_spent (some limit) total = leb limit total

-- `limit is not None and total > limit`
unfoldable pub is_exceeded : Option ℕ → ℕ → Bool
is_exceeded none total = false
is_exceeded (some limit) total = ltb limit total

module _ {N : Type 0} (w : World N) (o : Settings N) where
  -- `str(call.arguments.get("conclusion", ""))`
  unfoldable pub conclusion_of : ToolCall N → String
  conclusion_of call = elim (get "conclusion" call.arguments) [ none ↦ "" | some v ↦ text_of w v ]

  -- `for call in response.tool_calls`
  unfoldable pub calls_loop : String → ℕ → List (ToolCall N) → State N → Turn N
  calls_loop objective step [] s = go s
  calls_loop objective step (call ∷ calls) s =
      let rest = calls_loop objective step calls (after_call w o call step s) in
      if call.name == "submit_investigation"
      then stop (result_of objective (conclusion_of call) submitted s) s
      else if is_spent o.max_tool_calls s.total_tool_calls
      then stop
          (result_of objective "Investigation stopped: tool-call budget exceeded."
            tool_call_budget_exceeded s)
          s
      else rest

  -- What follows the token check: the direct answer, or the requested calls.
  unfoldable pub answer : String → ℕ → Option String → List (ToolCall N) → State N → Turn N
  answer objective step content [] s =
      stop (result_of objective (elim content [ none ↦ "" | some text ↦ text ]) no_tool_call s) s
  answer objective step content (call ∷ calls) s =
      calls_loop objective step (call ∷ calls)
        (record s { messages = s.messages ++ assistant content (call ∷ calls) ∷ [] })

  -- The state after a response's tokens are accounted for.
  unfoldable pub spend : ℕ → List (String × ℕ) → State N → State N
  spend step usage s =
      let traced = record_if o.is_traced s (generate_event step usage) in
      record traced { total_tokens_used = traced.total_tokens_used + token_count usage }

  -- What follows a response: the token budget, where its usage is known, and the answer.
  unfoldable pub respond :
      String → ℕ → Option String → List (ToolCall N) → Option (List (String × ℕ)) → State N → Turn N
  respond objective step content calls none s = answer objective step content calls s
  respond objective step content calls (some usage) s =
      if is_exceeded o.max_context_tokens (spend step usage s).total_tokens_used
      then stop
          (result_of objective "Investigation stopped: token budget exceeded." token_budget_exceeded
            (spend step usage s))
          (spend step usage s)
      else answer objective step content calls (spend step usage s)

module _ {N : Type 0} ⦃f : Float N⦄ (w : World N) (o : Settings N) where
  -- `elapsed >= limit`
  unfoldable pub is_late : ℕ → Bool
  is_late step = elim o.max_wall_time_seconds [
    | none ↦ false
    | some limit ↦ not (float_lt (w.elapsed step) limit)
  ]

  -- The body of `for step in range(1, self.max_steps + 1)`.
  unfoldable pub turn : String → ℕ → State N → Turn N
  turn objective step s =
      if is_late step
      then stop
          (result_of objective "Investigation stopped: wall-time budget exceeded."
            wall_time_budget_exceeded s)
          s
      else let response = w.generate step s.messages in
        respond w o objective step response.content response.tool_calls response.token_usage s

  unfoldable pub run_steps : String → ℕ → ℕ → State N → InvestigationResult N × State N
  run_steps objective zero step s = (
    result_of objective "Investigation did not conclude within the step budget."
        step_budget_exceeded s,
    s,
  )
  run_steps objective (suc left) step s = elim (turn objective step s) [
    | stop result t ↦ (result, t)
    | go t ↦ run_steps objective left (suc step) t
  ]

  unfoldable pub initial : String → Fields N → State N
  initial objective initial_state = record {
    messages = system o.system_prompt ∷ user objective initial_state ∷ [];
    findings = [];
    evidence = [];
    total_tool_calls = 0;
    total_tokens_used = 0;
    trace = [];
    requests = [];
  }

  -- The result of `run`, with the state that the run leaves.
  unfoldable pub run : String → Fields N → InvestigationResult N × State N
  run objective initial_state = run_steps objective o.max_steps 1 (initial objective initial_state)

  -- The exception of the provider's call in a step, which comes after the check of the wall time.
  unfoldable pub raised_at : ℕ → State N → Option String
  raised_at step s = if is_late step then none else w.generate_error step s.messages

  -- An exception of the provider leaves the loop, with what was recorded until then.
  unfoldable pub proceed :
      Option String
      → State N
      → Turn N
      → (State N → Attempt (InvestigationResult N) × State N)
      → Attempt (InvestigationResult N) × State N
  proceed (some text) s outcome next = (raises text, s)
  proceed none s (stop result t) next = (gives result, t)
  proceed none s (go t) next = next t

  unfoldable pub attempt_steps :
      String → ℕ → ℕ → State N → Attempt (InvestigationResult N) × State N
  attempt_steps objective zero step s = (
    gives (
        result_of objective "Investigation did not conclude within the step budget."
          step_budget_exceeded s),
    s,
  )
  attempt_steps objective (suc left) step s =
      proceed (raised_at step s) s (turn objective step s) (attempt_steps objective left (suc step))

  -- What `run` gives or raises, with the state that it leaves.
  unfoldable pub attempt : String → Fields N → Attempt (InvestigationResult N) × State N
  attempt objective initial_state =
      attempt_steps objective o.max_steps 1 (initial objective initial_state)
