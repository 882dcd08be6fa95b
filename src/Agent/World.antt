-- ===== src/Agent/World.antt =====
-- The values that the loop of agent/llm/agent.py handles, and the code outside the repository that
-- it calls: the model provider, the gateway's HTTP side and the clock.
use industrial_context_aware.Base.{ℕ, Bool, String, Option, List}
use industrial_context_aware.Base.Json.{Json, Fields}
use industrial_context_aware.Agent.Interface.{EvidenceReference, InvestigationResult}
use industrial_context_aware.Agent.Trace.{TraceEvent}

pub record ToolCall (N : Type 0) : Type 0 where
  pub id : String
  pub name : String
  pub arguments : Fields N

pub record LlmResponse (N : Type 0) : Type 0 where
  pub content : Option String
  pub tool_calls : List (ToolCall N)
  pub token_usage : Option (List (String × ℕ))

pub data Message (N : Type 0) : Type 0 where
  system : String → Message N
  user : String → Fields N → Message N
  assistant : Option String → List (ToolCall N) → Message N
  tool : String → Fields N → Message N

-- What a gateway request gives: a JSON object, or an exception of the transport or of
-- `raise_for_status`, with its text.
pub data HttpReply (N : Type 0) : Type 0 where
  reply : Fields N → HttpReply N
  raised : String → HttpReply N

-- Code outside the repository, each by the number of its earlier calls.
pub record World (N : Type 0) : Type 0 where
  pub generate : ℕ → List (Message N) → LlmResponse N
  -- The exception that the provider's call raises instead of giving a response, where it does.
  pub generate_error : ℕ → List (Message N) → Option String
  pub request : ℕ → String → Fields N → HttpReply N
  -- `time.perf_counter()` at the start of each step, less its value at the start of the run.
  pub elapsed : ℕ → N
  -- `str(value)` of a value that is not a text.
  pub show : Json N → String

-- The constructor's arguments.
pub record Settings (N : Type 0) : Type 0 where
  pub max_steps : ℕ
  pub max_tool_calls : Option ℕ
  pub max_context_tokens : Option ℕ
  pub max_wall_time_seconds : Option N
  pub system_prompt : String
  pub tools : List String
  -- Whether the client has a trace collector.
  pub is_traced : Bool

pub record State (N : Type 0) : Type 0 where
  pub messages : List (Message N)
  pub findings : List (String × Json N)
  pub evidence : List EvidenceReference
  pub total_tool_calls : ℕ
  pub total_tokens_used : ℕ
  pub trace : List (TraceEvent N)
  -- The requests that were sent to the gateway, in their order.
  pub requests : List (String × Fields N)

-- A turn of the loop returns from `run`, or goes on to the next step.
pub data Turn (N : Type 0) : Type 0 where
  stop : InvestigationResult N → State N → Turn N
  go : State N → Turn N
