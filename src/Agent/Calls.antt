-- ===== src/Agent/Calls.antt =====
-- agent/llm/agent.py and agent/client.py: one tool call, with its trace event, its evidence and its
-- findings. The gateway is a parameter; message contents are kept as values instead of rendered
-- JSON.
use industrial_context_aware.Base.{
  ℕ, suc, Bool, true, false, String, ◌<>◌, Option, none, some, List, [], ◌∷◌, ◌++◌, if◌then◌else◌,
  ◌==◌, string_eq, find, length,
}
use industrial_context_aware.Base.Decimal.{decimal}
use industrial_context_aware.Base.Json.{Json, str, obj, Fields, end, field, get}
use industrial_context_aware.Agent.Interface.{EvidenceReference}
use industrial_context_aware.Agent.World.{
  ToolCall, tool, HttpReply, reply, raised, World, Settings, State,
}
use industrial_context_aware.Agent.Trace.{TraceEvent, append_event}

-- `d[key] = value`
unfoldable pub dict_set {ℓ} : {A : Type ℓ} → String → A → List (String × A) → List (String × A)
dict_set key value [] = (key, value) ∷ []
dict_set key value ((k, v) ∷ rest) =
    let later = dict_set key value rest in if k == key then (k, value) ∷ rest else (k, v) ∷ later

unfoldable pub token_count : List (String × ℕ) → ℕ
token_count [] = 0
token_count ((k, n) ∷ usage) =
    let later = token_count usage in if k == "total_tokens" then n else later

module _ {N : Type 0} (w : World N) where
  unfoldable pub text_of : Json N → String
  text_of (str s) = s
  text_of value = w.show value

  unfoldable pub first_argument : List String → Fields N → Option String
  first_argument [] arguments = none
  first_argument (key ∷ keys) arguments =
      let later = first_argument keys arguments in
      elim (get key arguments) [ some value ↦ some (text_of value) | none ↦ later ]

  -- `_identifier_for`
  unfoldable pub identifier_for : ToolCall N → Option String
  identifier_for call =
      first_argument
        ("measurement_id" ∷ "canonical_id" ∷ "path" ∷ "node_id" ∷ "topic" ∷ "topic_filter" ∷ [])
        call.arguments

  -- `_evidence_for`, whose `or` passes over an empty identifier too.
  unfoldable pub evidence_for : ToolCall N → EvidenceReference
  evidence_for call = record {
    source = call.name;
    identifier = elim (identifier_for call) [
      | none ↦ call.name
      | some id ↦ if id == "" then call.name else id
    ];
  }

  -- `[identifier] if identifier else None`
  unfoldable pub acquired_by : ToolCall N → List String
  acquired_by call = elim (identifier_for call) [
    | none ↦ []
    | some id ↦ if id == "" then [] else id ∷ []
  ]

unfoldable pub error_fields : {N : Type 0} → String → Fields N
error_fields message = field "error" (str message) end

unfoldable pub generate_event : {N : Type 0} → ℕ → List (String × ℕ) → TraceEvent N
generate_event step usage = record {
  step = step;
  action = "llm_generate";
  tool = none;
  result = none;
  token_usage = some usage;
  context_acquired = [];
  context_consumed = [];
}

-- A client without a collector records nothing.
unfoldable pub record_if : {N : Type 0} → Bool → State N → TraceEvent N → State N
record_if true s event = record s { trace = append_event s.trace event }
record_if false s event = s

module _ {N : Type 0} (w : World N) (o : Settings N) where
  -- The event that `call_tool` records, after the reply was accepted.
  unfoldable pub tool_event : ToolCall N → ℕ → Fields N → TraceEvent N
  tool_event call step result = record {
    step = step;
    action = "tool_call";
    tool = some call.name;
    result = some result;
    token_usage = none;
    context_acquired = acquired_by w call;
    context_consumed = [];
  }

  -- The end of `call_tool`, and the handler round it.
  unfoldable pub settle : ToolCall N → ℕ → State N → HttpReply N → Fields N × State N
  settle call step s (raised message) = (error_fields message, s)
  settle call step s (reply result) =
      (result, record_if o.is_traced s (tool_event call step result))

  -- `_execute_tool`, with `AgentGatewayClient.call_tool`.
  unfoldable pub execute_tool : ToolCall N → ℕ → State N → Fields N × State N
  execute_tool call step s = elim (find (λ name. name == call.name) o.tools) [
    | none ↦ (error_fields ("Unknown tool: " <> call.name), s)
    | some _ ↦
        settle call step (record s { requests = s.requests ++ (call.name, call.arguments) ∷ [] })
          (w.request (length s.requests) call.name call.arguments)
  ]

  -- One executed call: its findings, its evidence and its message.
  unfoldable pub after_call : ToolCall N → ℕ → State N → State N
  after_call call step s =
      let (result, t) = execute_tool call step s in
      record t {
        total_tool_calls = suc t.total_tool_calls;
        findings = dict_set (call.name <> ("#" <> decimal step)) (obj result) t.findings;
        evidence = t.evidence ++ evidence_for w call ∷ [];
        messages = t.messages ++ tool call.id result ∷ [];
      }
