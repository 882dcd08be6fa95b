-- ===== src/Agent/Trace.antt =====
-- trace/models.py and trace/collector.py. The timestamp, the latency and the arguments of an event,
-- which no modelled function reads, are left out.
use industrial_context_aware.Base.{ℕ, String, Option, List, [], ◌∷◌, ◌++◌}
use industrial_context_aware.Base.Json.{Fields}

pub record TraceEvent (N : Type 0) : Type 0 where
  pub step : ℕ
  pub action : String
  pub tool : Option String
  pub result : Option (Fields N)
  pub token_usage : Option (List (String × ℕ))
  pub context_acquired : List String
  pub context_consumed : List String

-- `TraceCollector.record` appends; `events` reads the events in that order.
unfoldable pub append_event :
    {N : Type 0} → List (TraceEvent N) → TraceEvent N → List (TraceEvent N)
append_event events event = events ++ event ∷ []
