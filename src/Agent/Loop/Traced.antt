-- ===== src/Agent/Loop/Traced.antt =====
-- The trace of a run, counted.
use industrial_context_aware.Base.{
  ℕ, suc, ◌≤◌, ◌≡◌, ap, true, false, Bool, String, Option, none, some, List, [], ◌∷◌, arith, length,
  ◌++◌, filter, filter-append, length-filter-le, length-append, count_if, ◌==◌, string_eq,
  Bool-cases, Option-cases, inl, inr, find,
}
use industrial_context_aware.Base.Float.{Float}
use industrial_context_aware.Base.Json.{Fields}
use industrial_context_aware.Agent.Interface.{InvestigationResult}
use industrial_context_aware.Agent.Trace.{TraceEvent, append_event}
use industrial_context_aware.Agent.World.{
  ToolCall, World, Settings, State, HttpReply, reply, raised,
}
use industrial_context_aware.Agent.Calls.{
  execute_tool, after_call, settle, record_if, generate_event,
}
use industrial_context_aware.Agent.Loop.{
  turn, calls_loop, answer, respond, spend, is_late, is_spent, is_exceeded, run, initial,
}
use industrial_context_aware.Agent.Loop.Rules.{Ends, run_steps_rule, execute_tool-Keeps}

-- The events of tool calls.
abbrev pub is_call : {N : Type 0} → TraceEvent N → Bool
is_call e = e.action == "tool_call"

abbrev pub calls_in : {N : Type 0} → List (TraceEvent N) → ℕ
calls_in trace = count_if is_call trace

module _ {N : Type 0} where
  calls_in-snoc :
      (trace : List (TraceEvent N)) (event : TraceEvent N)
      → calls_in (append_event trace event) ≤ suc (calls_in trace)
  unfolding append_event
  calls_in-snoc trace event = omega (
    arith,
    ap length (filter-append is_call trace (event ∷ [])),
    length-append (filter is_call trace) (filter is_call (event ∷ [])),
    length-filter-le is_call (event ∷ []),
  )

  calls_in-generate :
      (trace : List (TraceEvent N)) (step : ℕ) (usage : List (String × ℕ))
      → calls_in (append_event trace (generate_event step usage)) ≡ calls_in trace
  unfolding append_event generate_event
  calls_in-generate trace step usage = omega (
    arith,
    ap length (filter-append is_call trace (generate_event step usage ∷ [])),
    length-append (filter is_call trace) [],
  )

  abbrev IsTraced : State N → Type 0
  IsTraced s = calls_in s.trace ≤ s.total_tool_calls

module _ {N : Type 0} (w : World N) (o : Settings N) where
  record_if-trace :
      (b : Bool) (s : State N) (event : TraceEvent N)
      → calls_in (record_if b s event).trace ≤ suc (calls_in s.trace)
  unfolding record_if
  record_if-trace true s event = calls_in-snoc s.trace event
  record_if-trace false s event = omega arith

  settle-trace :
      (call : ToolCall N) (step : ℕ) (s : State N) (r : HttpReply N)
      → calls_in (settle w o call step s r).1.trace ≤ suc (calls_in s.trace)
  unfolding settle
  settle-trace call step s (raised message) = omega arith
  settle-trace call step s (reply result) = record_if-trace o.is_traced s _

  execute_tool-trace :
      (call : ToolCall N) (step : ℕ) (s : State N)
      → calls_in (execute_tool w o call step s).1.trace ≤ suc (calls_in s.trace)
  unfolding execute_tool
  execute_tool-trace call step s = elim (Option-cases (find (λ name. name == call.name) o.tools)) [
    | inl unknown ↦ rw (unknown, execute_tool) (omega arith)
    | inr (name, known) ↦
        rw (known, execute_tool)
          (settle-trace call step
            (record s { requests = s.requests ++ (call.name, call.arguments) ∷ [] })
            (w.request (length s.requests) call.name call.arguments))
  ]

  after_call-IsTraced :
      (call : ToolCall N) (step : ℕ) (s : State N)
      → IsTraced s
      → IsTraced (after_call w o call step s)
  unfolding after_call
  after_call-IsTraced call step s h =
      omega (arith, h, execute_tool-trace call step s, (execute_tool-Keeps w o call step s).1)

  spend-IsTraced :
      (step : ℕ) (usage : List (String × ℕ)) (s : State N)
      → IsTraced s
      → IsTraced (spend w o step usage s)
  unfolding spend record_if
  spend-IsTraced step usage s h = elim (Bool-cases o.is_traced) [
    | inl yes_trace ↦ rw yes_trace (omega (arith, h, calls_in-generate s.trace step usage))
    | inr no_trace ↦ rw no_trace h
  ]

-- The trace has no more calls than were executed.
module _ {N : Type 0} (w : World N) (o : Settings N) (objective : String) (next : ℕ) where
  abbrev Holds : ℕ → State N → Type 0
  Holds step s = IsTraced s

  abbrev Returned : InvestigationResult N → State N → Type 0
  Returned r s = IsTraced s

  calls_loop-Ends :
      (step : ℕ) (calls : List (ToolCall N)) (s : State N)
      → IsTraced s
      → Ends Holds Returned next (calls_loop w o objective step calls s)
  unfolding calls_loop
  calls_loop-Ends step [] s h = h
  calls_loop-Ends step (call ∷ calls) s h =
      elim (Bool-cases (call.name == "submit_investigation")) [
        | inl submit ↦ rw submit h
        | inr work ↦ rw work (elim (Bool-cases (is_spent o.max_tool_calls s.total_tool_calls)) [
          | inl spent ↦ rw spent h
          | inr fresh ↦ rw fresh (
              calls_loop-Ends step calls (after_call w o call step s)
                (after_call-IsTraced w o call step s h))
        ])
      ]

  answer-Ends :
      (step : ℕ) (content : Option String) (calls : List (ToolCall N)) (s : State N)
      → IsTraced s
      → Ends Holds Returned next (answer w o objective step content calls s)
  unfolding answer
  answer-Ends step content [] s h = h
  answer-Ends step content (call ∷ calls) s h = calls_loop-Ends step (call ∷ calls) _ h

  respond-Ends :
      (step : ℕ) (content : Option String) (calls : List (ToolCall N))
      (usage : Option (List (String × ℕ))) (s : State N)
      → IsTraced s
      → Ends Holds Returned next (respond w o objective step content calls usage s)
  unfolding respond
  respond-Ends step content calls none s h = answer-Ends step content calls s h
  respond-Ends step content calls (some usage) s h =
      let t = spend w o step usage s in
      let k = spend-IsTraced w o step usage s h in
      elim (Bool-cases (is_exceeded o.max_context_tokens t.total_tokens_used)) [
        | inl over ↦ rw over k
        | inr under ↦ rw under (answer-Ends step content calls t k)
      ]

module _ {N : Type 0} ⦃f : Float N⦄ (w : World N) (o : Settings N) (objective : String) where
  turn-Ends :
      (step : ℕ) (s : State N)
      → IsTraced s
      → Ends
          (Holds w o objective step)
          (Returned w o objective step)
          (suc step)
          (turn w o objective step s)
  unfolding turn
  turn-Ends step s h = elim (Bool-cases (is_late w o step)) [
    | inl late ↦ rw late h
    | inr early ↦
        let response = w.generate step s.messages in
        rw early (
          respond-Ends w o objective (suc step) step response.content response.tool_calls
            response.token_usage s h)
  ]

  -- The trace of a run has no more tool calls than the run executed.
  pub run-IsTraced : (initial_state : Fields N) → IsTraced (run w o objective initial_state).1
  unfolding run initial
  run-IsTraced initial_state =
      run_steps_rule w o objective (λ step s. IsTraced s) (λ r s. IsTraced s)
        (λ step s h low. turn-Ends step s h) (λ step s h. h) o.max_steps 1 _ (omega arith)
        (omega arith)
