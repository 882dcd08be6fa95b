-- ===== src/Agent/Loop/Provenance.antt =====
-- Where the events of a run's trace come from.
use mathlib.Core.List.{Memᴰ, append_assoc}
use industrial_context_aware.Base.{
  ℕ, suc, ◌≤◌, ◌≡◌, refl, ◌⊎◌, Bool, true, false, String, Option, none, some, List, [], ◌∷◌, ◌++◌,
  length, find-mem, subst, ap, ◌∙◌, arith, ◌==◌, All, All-snoc, string_eq, Bool-cases, Option-cases,
  inl, inr, find,
}
use industrial_context_aware.Base.Float.{Float}
use industrial_context_aware.Base.Json.{Fields}
use industrial_context_aware.Agent.Trace.{TraceEvent, append_event}
use industrial_context_aware.Agent.World.{
  ToolCall, World, Settings, State, Turn, HttpReply, reply, raised,
}
use industrial_context_aware.Agent.Calls.{
  after_call, record_if, generate_event, execute_tool, settle, tool_event,
}
use industrial_context_aware.Agent.Loop.{
  turn, calls_loop, answer, respond, spend, is_late, is_spent, is_exceeded, run, initial,
}
use industrial_context_aware.Agent.Loop.Rules.{Ends, run_steps_rule}

module _ {N : Type 0} (w : World N) (o : Settings N) where
  -- The event of a tool call holds the reply that the gateway gave to a request among those that were
  -- sent, of that tool, which is one of the agent's tools.
  pub record IsReplied (sent : List (String × Fields N)) (event : TraceEvent N) : Type 0 where
    pub before : List (String × Fields N)
    pub after : List (String × Fields N)
    pub name : String
    pub arguments : Fields N
    pub result : Fields N
    pub named : event.tool ≡ some name
    pub holds : event.result ≡ some result
    pub known : Memᴰ name o.tools
    pub requested : sent ≡ before ++ (name, arguments) ∷ after
    pub replied : w.request (length before) name arguments ≡ reply result

  -- The event of a provider call holds no tool and no result.
  abbrev pub IsGenerated : TraceEvent N → Type 0
  IsGenerated event = (event.action ≡ "llm_generate") × (event.tool ≡ none) × (event.result ≡ none)

  pub record IsGenuine (sent : List (String × Fields N)) (event : TraceEvent N) : Type 0 where
    pub first : 1 ≤ event.step
    pub last : event.step ≤ o.max_steps
    pub source : IsGenerated event ⊎ (event.action ≡ "tool_call") × IsReplied sent event

  abbrev pub AllGenuine : State N → Type 0
  AllGenuine s = All (IsGenuine s.requests) s.trace

  -- A request that is sent later leaves the earlier events genuine.
  IsReplied-later :
      {sent : List (String × Fields N)} (request : String × Fields N) {event : TraceEvent N}
      → IsReplied sent event
      → IsReplied (sent ++ request ∷ []) event
  IsReplied-later request h = record {
    before = h.before;
    after = h.after ++ request ∷ [];
    name = h.name;
    arguments = h.arguments;
    result = h.result;
    named = h.named;
    holds = h.holds;
    known = h.known;
    requested =
        ap (λ (xs : List (String × Fields N)). xs ++ request ∷ []) h.requested
        ∙ append_assoc h.before ((h.name, h.arguments) ∷ h.after) (request ∷ []);
    replied = h.replied;
  }

  IsGenuine-later :
      {sent : List (String × Fields N)} (request : String × Fields N) {event : TraceEvent N}
      → IsGenuine sent event
      → IsGenuine (sent ++ request ∷ []) event
  IsGenuine-later request h = record {
    first = h.first;
    last = h.last;
    source = elim h.source [
      | inl generated ↦ inl generated
      | inr (called, replied) ↦ inr (called, IsReplied-later request replied)
    ];
  }

  All-later :
      (sent : List (String × Fields N)) (request : String × Fields N) (trace : List (TraceEvent N))
      → All (IsGenuine sent) trace
      → All (IsGenuine (sent ++ request ∷ [])) trace
  All-later sent request [] h = h
  All-later sent request (event ∷ trace) h =
      (IsGenuine-later request h.0, All-later sent request trace h.1)

  record_if-Genuine :
      (b : Bool) (s : State N) (event : TraceEvent N)
      → AllGenuine s
      → IsGenuine s.requests event
      → AllGenuine (record_if b s event)
  unfolding record_if append_event
  record_if-Genuine true s event h g = All-snoc (IsGenuine s.requests) s.trace h g
  record_if-Genuine false s event h g = h

module _ {N : Type 0} (w : World N) (o : Settings N) (step : ℕ) (low : 1 ≤ step)
    (high : step ≤ o.max_steps) where
  settle-Genuine :
      (call : ToolCall N) (before : List (String × Fields N)) (s : State N) (r : HttpReply N)
      → Memᴰ call.name o.tools
      → s.requests ≡ before ++ (call.name, call.arguments) ∷ []
      → w.request (length before) call.name call.arguments ≡ r
      → AllGenuine w o s
      → AllGenuine w o (settle w o call step s r).1
  unfolding settle
  settle-Genuine call before s (raised message) known sent e h = h
  settle-Genuine call before s (reply result) known sent e h =
      record_if-Genuine w o o.is_traced s (tool_event w o call step result) h (
        unfold tool_event in
        record {
          first = low;
          last = high;
          source = inr (
            refl,
            record {
              before = before;
              after = [];
              name = call.name;
              arguments = call.arguments;
              result = result;
              named = refl;
              holds = refl;
              known = known;
              requested = sent;
              replied = e;
            },
          );
        })

  execute_tool-Genuine :
      (call : ToolCall N) (s : State N)
      → AllGenuine w o s
      → AllGenuine w o (execute_tool w o call step s).1
  unfolding execute_tool
  execute_tool-Genuine call s h = elim (Option-cases (find (λ name. name == call.name) o.tools)) [
    | inl unknown ↦ rw (unknown, execute_tool) h
    | inr (name, known) ↦
        rw (known, execute_tool)
          (settle-Genuine call s.requests
            (record s { requests = s.requests ++ (call.name, call.arguments) ∷ [] })
            (w.request (length s.requests) call.name call.arguments)
            (known_tool (find-mem (λ name. name == call.name) o.tools known)) refl refl
            (All-later w o s.requests (call.name, call.arguments) s.trace h))
  ]
    where
      known_tool :
          {name : String} → Memᴰ name o.tools × (name == call.name ≡ true) → Memᴰ call.name o.tools
      known_tool {name} (m, same) =
          subst (λ (x : String). Memᴰ x o.tools) ((string_eq.beq_iff name call.name).0 same) m

  after_call-Genuine :
      (call : ToolCall N) (s : State N)
      → AllGenuine w o s
      → AllGenuine w o (after_call w o call step s)
  unfolding after_call
  after_call-Genuine call s h = execute_tool-Genuine call s h

  -- The trace stays genuine, whether the run goes on or returns.
  abbrev Goes : Turn N → Type 0
  Goes = Ends (λ n s. (1 ≤ n) × AllGenuine w o s) (λ r s. AllGenuine w o s) (suc step)

  calls_loop-Goes :
      (objective : String) (calls : List (ToolCall N)) (s : State N)
      → AllGenuine w o s
      → Goes (calls_loop w o objective step calls s)
  unfolding calls_loop
  calls_loop-Goes objective [] s h = (omega arith, h)
  calls_loop-Goes objective (call ∷ calls) s h =
      elim (Bool-cases (call.name == "submit_investigation")) [
        | inl submit ↦ rw submit h
        | inr work ↦ rw work (elim (Bool-cases (is_spent o.max_tool_calls s.total_tool_calls)) [
          | inl spent ↦ rw spent h
          | inr fresh ↦ rw fresh (
              calls_loop-Goes objective calls (after_call w o call step s)
                (after_call-Genuine call s h))
        ])
      ]

  answer-Goes :
      (objective : String) (content : Option String) (calls : List (ToolCall N)) (s : State N)
      → AllGenuine w o s
      → Goes (answer w o objective step content calls s)
  unfolding answer
  answer-Goes objective content [] s h = h
  answer-Goes objective content (call ∷ calls) s h = calls_loop-Goes objective (call ∷ calls) _ h

  spend-Genuine :
      (usage : List (String × ℕ)) (s : State N)
      → AllGenuine w o s
      → AllGenuine w o (spend w o step usage s)
  unfolding spend
  spend-Genuine usage s h = record_if-Genuine w o o.is_traced s (generate_event step usage) h (
      unfold generate_event in record { first = low; last = high; source = inl (refl, refl, refl) })

  respond-Goes :
      (objective : String) (content : Option String) (calls : List (ToolCall N))
      (usage : Option (List (String × ℕ))) (s : State N)
      → AllGenuine w o s
      → Goes (respond w o objective step content calls usage s)
  unfolding respond
  respond-Goes objective content calls none s h = answer-Goes objective content calls s h
  respond-Goes objective content calls (some usage) s h =
      let t = spend w o step usage s in
      let g = spend-Genuine usage s h in
      elim (Bool-cases (is_exceeded o.max_context_tokens t.total_tokens_used)) [
        | inl over ↦ rw over g
        | inr under ↦ rw under (answer-Goes objective content calls t g)
      ]

module _ {N : Type 0} ⦃f : Float N⦄ (w : World N) (o : Settings N) (objective : String) where
  turn-Goes :
      (step : ℕ) (s : State N)
      → (1 ≤ step) × AllGenuine w o s
      → (high : step ≤ o.max_steps)
      → Ends
          (λ n s. (1 ≤ n) × AllGenuine w o s)
          (λ r s. AllGenuine w o s)
          (suc step)
          (turn w o objective step s)
  unfolding turn
  turn-Goes step s (low, h) high = elim (Bool-cases (is_late w o step)) [
    | inl late ↦ rw late h
    | inr early ↦
        let response = w.generate step s.messages in
        rw early (
          respond-Goes w o step low high objective response.content response.tool_calls
            response.token_usage s h)
  ]

  -- Every event of a run's trace belongs to one of the run's steps, and is either a provider call
  -- without a result or holds the reply that the gateway gave to a request that the run sent, of the
  -- named tool, which is one of the agent's tools: a failed call and an unknown tool leave no event.
  pub run-AllGenuine :
      (initial_state : Fields N) → AllGenuine w o (run w o objective initial_state).1
  unfolding run initial
  run-AllGenuine initial_state =
      run_steps_rule w o objective (λ n s. (1 ≤ n) × AllGenuine w o s) (λ r s. AllGenuine w o s)
        turn-Goes (λ step s h. h.1) o.max_steps 1 _ (omega arith) (omega arith, tt)
