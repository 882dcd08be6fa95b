-- ===== src/Evaluation/InformationFlow.antt =====
-- `InformationFlowAnalyzer.analyze` of evaluation/information_flow.py, over a recorded trace.
pub mod Redundancy
pub mod Sources
pub mod Architectures
use industrial_context_aware.Base.{
  ℕ, suc, ◌+◌, ◌-◌, Bool, true, false, String, Option, none, some, List, [], ◌∷◌, ◌++◌, map, filter,
  contains, is_empty, length, if◌then◌else◌, ltb, string_eq,
}
use industrial_context_aware.Base.Json.{Fields, end, get}
use industrial_context_aware.Base.Dict.{add, setdefault_then}
use industrial_context_aware.Base.Sort.{sort, distinct, str_lt}
use industrial_context_aware.Agent.Trace.{TraceEvent}
use industrial_context_aware.Evaluation.Report.{AcquisitionRecord, InformationFlowReport}
use industrial_context_aware.Evaluation.ToolResults.{
  discovery_tools, acquisition_tools, architecture_of, discovered_ids, names_after, acquired_ids,
}

-- The local variables of the loop over the trace.
pub record Flow : Type 0 where
  pub discovered : List String
  pub acquisitions : List AcquisitionRecord
  pub unresolved : ℕ
  pub tool_errors : ℕ
  pub node_display_names : List (String × String)

unfoldable pub nothing_yet : Flow
nothing_yet = record {
  discovered = [];
  acquisitions = [];
  unresolved = 0;
  tool_errors = 0;
  node_display_names = [];
}

-- `event.result or {}`
unfoldable pub result_fields : {N : Type 0} → Option (Fields N) → Fields N
result_fields none = end
result_fields (some fields) = fields

-- `"error" in result`
unfoldable pub is_error : {N : Type 0} → Fields N → Bool
is_error result = elim (get "error" result) [ none ↦ false | some _ ↦ true ]

unfoldable pub acquisition_records : String → ℕ → List String → List AcquisitionRecord
acquisition_records tool step ids =
    map
      (λ id. record {
        canonical_id = id;
        architecture = architecture_of tool;
        tool = tool;
        step = step;
      })
      ids

-- The acquisitions of one event, or one more that could not be resolved.
unfoldable pub after_acquisition : String → ℕ → List String → Flow → Flow
after_acquisition tool step [] flow = record flow { unresolved = suc flow.unresolved }
after_acquisition tool step (id ∷ ids) flow = record flow {
  acquisitions = flow.acquisitions ++ acquisition_records tool step (id ∷ ids);
}

module _ (names : List (String × String)) {N : Type 0} where
  unfoldable pub discover : Bool → String → Fields N → Flow → Flow
  discover false tool result flow = flow
  discover true tool result flow = record flow {
    discovered = flow.discovered ++ discovered_ids names tool result;
    node_display_names = names_after names tool result flow.node_display_names;
  }

  unfoldable pub acquire : Bool → String → ℕ → Fields N → Flow → Flow
  acquire false tool step result flow = flow
  acquire true tool step result flow =
      after_acquisition tool step (acquired_ids names tool result flow.node_display_names) flow

  -- An event without a tool names no discovery and no acquisition.
  unfoldable pub read_result : Option String → ℕ → Fields N → Flow → Flow
  read_result none step result flow = flow
  read_result (some tool) step result flow =
      acquire (contains acquisition_tools tool) tool step result
        (discover (contains discovery_tools tool) tool result flow)

  unfoldable pub read_unless_error : Bool → TraceEvent N → Flow → Flow
  read_unless_error true event flow = record flow { tool_errors = suc flow.tool_errors }
  read_unless_error false event flow =
      read_result event.tool event.step (result_fields event.result) flow

  unfoldable pub read_trace : List (TraceEvent N) → Flow → Flow
  read_trace [] flow = flow
  read_trace (event ∷ events) flow =
      read_trace events (read_unless_error (is_error (result_fields event.result)) event flow)

-- `architectures_used`, a dict of sets.
unfoldable pub architectures_used :
    List AcquisitionRecord → List (String × List String) → List (String × List String)
architectures_used [] used = used
architectures_used (a ∷ acquisitions) used =
    architectures_used acquisitions (setdefault_then a.canonical_id [] (add a.architecture) used)

-- `_group_by_measurement`
unfoldable pub group_by_measurement :
    List AcquisitionRecord
    → List (String × List AcquisitionRecord)
    → List (String × List AcquisitionRecord)
group_by_measurement [] groups = groups
group_by_measurement (a ∷ acquisitions) groups =
    group_by_measurement acquisitions
      (setdefault_then a.canonical_id [] (λ records. records ++ a ∷ []) groups)

-- `sum(max(0, len(records) - 1) for records in groups.values())`
unfoldable pub redundant_count : List (String × List AcquisitionRecord) → ℕ
redundant_count [] = 0
redundant_count ((id, records) ∷ groups) = (length records - 1) + redundant_count groups

unfoldable pub key_lt : (String × List String) → (String × List String) → Bool
key_lt a b = str_lt a.0 b.0

-- The report over what the loop collected.
unfoldable pub report_of : Flow → InformationFlowReport
report_of flow =
    let used = architectures_used flow.acquisitions [] in
    record {
      discovered_canonical_ids = sort str_lt (distinct flow.discovered);
      acquisitions = flow.acquisitions;
      architectures_used_per_measurement =
          map (λ (entry : String × List String). (entry.0, sort str_lt entry.1)) (sort key_lt used);
      redundant_measurements = sort str_lt (
          map (λ (entry : String × List String). entry.0)
            (filter (λ (entry : String × List String). ltb 1 (length entry.1)) used));
      redundant_acquisition_count = redundant_count (group_by_measurement flow.acquisitions []);
      unresolved_acquisition_count = flow.unresolved;
      tool_error_count = flow.tool_errors;
    }

-- `InformationFlowAnalyzer.analyze`
unfoldable pub analyze :
    List (String × String) → {N : Type 0} → List (TraceEvent N) → InformationFlowReport
analyze names trace = report_of (read_trace names trace nothing_yet)
