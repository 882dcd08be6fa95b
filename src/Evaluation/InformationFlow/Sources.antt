-- ===== src/Evaluation/InformationFlow/Sources.antt =====
-- Which events of a trace the counts and the acquisitions of a report come from.
use mathlib.Core.List.Memᴰ
use mathlib.Core.List.{Memᴰ}
use mathlib.Core.Path.{subst}
use industrial_context_aware.Base.{
  ℕ, ◌+◌, ◌≡◌, refl, ◌∙◌, arith, Bool, true, false, String, Option, none, some, List, [], ◌∷◌,
  contains, count_if, if◌then◌else◌, string_eq, inl, inr,
}
use industrial_context_aware.Base.Json.{Fields}
use industrial_context_aware.Agent.Trace.{TraceEvent}
use industrial_context_aware.Evaluation.Report.{AcquisitionRecord}
use industrial_context_aware.Evaluation.ToolResults.{
  acquisition_tools, discovery_tools, architecture_of, acquired_ids,
}
use industrial_context_aware.Evaluation.InformationFlow.{
  Flow, nothing_yet, result_fields, is_error, acquisition_records, after_acquisition, discover,
  acquire, read_result, read_unless_error, read_trace, report_of, analyze,
}

-- The flow after one event: what it adds.
after_acquisition-sources :
    (P : AcquisitionRecord → Type 0) (tool : String) (step : ℕ) (ids : List String) (flow : Flow)
    → ((id : String)
        → P (record {
          canonical_id = id;
          architecture = architecture_of tool;
          tool = tool;
          step = step;
        }))
    → ((a : AcquisitionRecord) → Memᴰ a flow.acquisitions → P a)
    → (a : AcquisitionRecord) → Memᴰ a (after_acquisition tool step ids flow).acquisitions
    → P a
unfolding after_acquisition acquisition_records
after_acquisition-sources P tool step [] flow new old a m = old a m
after_acquisition-sources P tool step (id ∷ ids) flow new old a m =
    elim (Memᴰ.append_cases flow.acquisitions m) [
      | inl before ↦ old a before
      | inr now ↦
          let (i, m', e) =
            Memᴰ.of_map
              (λ (i : String). record {
                canonical_id = i;
                architecture = architecture_of tool;
                tool = tool;
                step = step;
              })
              (id ∷ ids) now in
          subst P e (new i)
    ]

-- Which event an acquisition stands for.
abbrev pub IsSource : {N : Type 0} → TraceEvent N → AcquisitionRecord → Type 0
IsSource event a =
    (event.tool ≡ some a.tool)
    × (event.step ≡ a.step)
    × (contains acquisition_tools a.tool ≡ true)
    × (is_error (result_fields event.result) ≡ false)
    × (a.architecture ≡ architecture_of a.tool)

module _ (names : List (String × String)) {N : Type 0} (P : AcquisitionRecord → Type 0) where
  discover-sources :
      (b : Bool) (tool : String) (result : Fields N) (flow : Flow)
      → ((a : AcquisitionRecord) → Memᴰ a flow.acquisitions → P a)
      → (a : AcquisitionRecord) → Memᴰ a (discover names b tool result flow).acquisitions
      → P a
  unfolding discover
  discover-sources true tool result flow old a m = old a m
  discover-sources false tool result flow old a m = old a m

  acquire-sources :
      (b : Bool) (tool : String) (step : ℕ) (result : Fields N) (flow : Flow)
      → (b ≡ true
          → (id : String)
          → P (record {
            canonical_id = id;
            architecture = architecture_of tool;
            tool = tool;
            step = step;
          }))
      → ((a : AcquisitionRecord) → Memᴰ a flow.acquisitions → P a)
      → (a : AcquisitionRecord) → Memᴰ a (acquire names b tool step result flow).acquisitions
      → P a
  unfolding acquire
  acquire-sources true tool step result flow new old a m =
      after_acquisition-sources P tool step (acquired_ids names tool result flow.node_display_names)
        flow (new refl) old a m
  acquire-sources false tool step result flow new old a m = old a m

  read_result-sources :
      (event : TraceEvent N) (tool : Option String) (flow : Flow)
      → event.tool ≡ tool
      → is_error (result_fields event.result) ≡ false
      → ((a : AcquisitionRecord) → IsSource event a → P a)
      → ((a : AcquisitionRecord) → Memᴰ a flow.acquisitions → P a)
      → (a : AcquisitionRecord)
      → Memᴰ a (read_result names tool event.step (result_fields event.result) flow).acquisitions
      → P a
  unfolding read_result
  read_result-sources event none flow e fine new old a m = old a m
  read_result-sources event (some tool) flow e fine new old a m =
      acquire-sources (contains acquisition_tools tool) tool event.step _ _
        (λ listed id. new _ (e, refl, listed, fine, refl))
        (discover-sources (contains discovery_tools tool) tool _ flow old) a m

  read_unless_error-sources :
      (event : TraceEvent N) (b : Bool) (flow : Flow)
      → is_error (result_fields event.result) ≡ b
      → ((a : AcquisitionRecord) → IsSource event a → P a)
      → ((a : AcquisitionRecord) → Memᴰ a flow.acquisitions → P a)
      → (a : AcquisitionRecord) → Memᴰ a (read_unless_error names b event flow).acquisitions
      → P a
  unfolding read_unless_error
  read_unless_error-sources event true flow e new old a m = old a m
  read_unless_error-sources event false flow e new old a m =
      read_result-sources event event.tool flow refl e new old a m

  read_trace-sources :
      (events : List (TraceEvent N)) (flow : Flow)
      → ((event : TraceEvent N)
          → Memᴰ event events
          → (a : AcquisitionRecord) → IsSource event a
          → P a)
      → ((a : AcquisitionRecord) → Memᴰ a flow.acquisitions → P a)
      → (a : AcquisitionRecord) → Memᴰ a (read_trace names events flow).acquisitions
      → P a
  unfolding read_trace
  read_trace-sources [] flow new old a m = old a m
  read_trace-sources (event ∷ events) flow new old a m =
      read_trace-sources events _ (λ other n. new other (Memᴰ.tail n))
        (read_unless_error-sources event _ flow refl (new event (Memᴰ.head refl)) old) a m

after_acquisition-tool_errors :
    (tool : String) (step : ℕ) (ids : List String) (flow : Flow)
    → (after_acquisition tool step ids flow).tool_errors ≡ flow.tool_errors
unfolding after_acquisition
after_acquisition-tool_errors tool step [] flow = refl
after_acquisition-tool_errors tool step (id ∷ ids) flow = refl

module _ (names : List (String × String)) {N : Type 0} where
  -- Every acquisition that is reported stands for an event of the trace, of an acquisition tool
  -- and without an error, and carries its tool, its step and the architecture of the tool.
  pub analyze-IsSource :
      (trace : List (TraceEvent N)) (a : AcquisitionRecord)
      → Memᴰ a (analyze names trace).acquisitions
      → (event : TraceEvent N) × Memᴰ event trace × IsSource event a
  unfolding analyze report_of nothing_yet
  analyze-IsSource trace a m =
      read_trace-sources names (λ b. (event : TraceEvent N) × Memᴰ event trace × IsSource event b)
        trace nothing_yet (λ event listed b source. (event, listed, source)) (λ b n. elim n [ ]) a m

  discover-tool_errors :
      (b : Bool) (tool : String) (result : Fields N) (flow : Flow)
      → (discover names b tool result flow).tool_errors ≡ flow.tool_errors
  unfolding discover
  discover-tool_errors true tool result flow = refl
  discover-tool_errors false tool result flow = refl

  acquire-tool_errors :
      (b : Bool) (tool : String) (step : ℕ) (result : Fields N) (flow : Flow)
      → (acquire names b tool step result flow).tool_errors ≡ flow.tool_errors
  unfolding acquire
  acquire-tool_errors true tool step result flow =
      after_acquisition-tool_errors tool step
        (acquired_ids names tool result flow.node_display_names) flow
  acquire-tool_errors false tool step result flow = refl

  read_result-tool_errors :
      (tool : Option String) (step : ℕ) (result : Fields N) (flow : Flow)
      → (read_result names tool step result flow).tool_errors ≡ flow.tool_errors
  unfolding read_result
  read_result-tool_errors none step result flow = refl
  read_result-tool_errors (some tool) step result flow =
      acquire-tool_errors (contains acquisition_tools tool) tool step result _
      ∙ discover-tool_errors (contains discovery_tools tool) tool result flow

  read_unless_error-tool_errors :
      (b : Bool) (event : TraceEvent N) (flow : Flow)
      → (read_unless_error names b event flow).tool_errors ≡ (if b then 1 else 0) + flow.tool_errors
  unfolding read_unless_error
  read_unless_error-tool_errors true event flow = omega arith
  read_unless_error-tool_errors false event flow =
      omega (arith, read_result-tool_errors event.tool event.step (result_fields event.result) flow)

  read_trace-tool_errors :
      (trace : List (TraceEvent N)) (flow : Flow)
      → (read_trace names trace flow).tool_errors
        ≡ count_if (λ (event : TraceEvent N). is_error (result_fields event.result)) trace
          + flow.tool_errors
  unfolding read_trace
  read_trace-tool_errors [] flow = omega arith
  read_trace-tool_errors (event ∷ events) flow = ground (
    arith,
    read_trace-tool_errors events
        (read_unless_error names (is_error (result_fields event.result)) event flow),
    read_unless_error-tool_errors (is_error (result_fields event.result)) event flow,
  )

  -- `tool_error_count` is the number of events of the trace whose result carries an error.
  pub analyze-tool_error_count :
      (trace : List (TraceEvent N))
      → (analyze names trace).tool_error_count
        ≡ count_if (λ (event : TraceEvent N). is_error (result_fields event.result)) trace
  unfolding analyze report_of nothing_yet
  analyze-tool_error_count trace = omega (arith, read_trace-tool_errors trace nothing_yet)
