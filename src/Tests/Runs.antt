-- ===== src/Tests/Runs.antt =====
-- Runs of the agent against the sample gateway, and a trace that is analysed.
use mathlib.Core.List.{Memᴰ}
use industrial_context_aware.Base.{ℕ, ◌+◌, ◌≤◌, ◌<◌, ◌≡◌, refl, ◌<>◌, some, [], length, count_if}
use industrial_context_aware.Base.Json.{obj, end, get}
use industrial_context_aware.Base.Decimal.{decimal}
use industrial_context_aware.Agent.Trace.{TraceEvent, append_event}
use industrial_context_aware.Agent.Interface.{tool_call_budget_exceeded, token_budget_exceeded}
use industrial_context_aware.Agent.Loop.Tokens.{run-token_budget_exceeded_iff}
use industrial_context_aware.Agent.Calls.{
  dict_set, token_count, text_of, first_argument, identifier_for, evidence_for, acquired_by,
  error_fields, generate_event, record_if, tool_event, settle, execute_tool, after_call,
}
use industrial_context_aware.Agent.Loop.{
  result_of, is_spent, is_exceeded, conclusion_of, calls_loop, answer, spend, respond, is_late,
  turn, run_steps, initial, run, raised_at, proceed, attempt_steps, attempt,
}
use industrial_context_aware.Agent.Loop.Budgets.{run-evidence_le, run-tool_call_budget_exceeded}
use industrial_context_aware.Agent.Loop.Provenance.{AllGenuine, run-AllGenuine}
use industrial_context_aware.Agent.Loop.Findings.{after_call_twice_loses}
use industrial_context_aware.Base.Sort.{distinct}
use industrial_context_aware.Evaluation.Report.{AcquisitionRecord}
use industrial_context_aware.Evaluation.InformationFlow.{
  nothing_yet, result_fields, is_error, acquisition_records, after_acquisition, discover, acquire,
  read_result, read_unless_error, read_trace, architectures_used, group_by_measurement,
  redundant_count, key_lt, report_of, analyze,
}
use industrial_context_aware.Evaluation.ToolResults.{
  architecture_among, architecture_of, name_at, display_name_of, text_of_json, text_at,
  objects_among, objects_of_json, objects_at, object_of_json, object_at, ids_of, after_first,
  id_of_name, canonical_id_from_i3x_element_id, with_node_names, measurement_id_of_node,
  measurement_id_of_relationship, related_object, discovered_ids, names_after, acquired_ids,
}
use industrial_context_aware.Evaluation.InformationFlow.Redundancy.{
  analyze-redundant_acquisition_count,
}
use industrial_context_aware.Evaluation.InformationFlow.Sources.{
  IsSource, analyze-IsSource, analyze-tool_error_count,
}
use industrial_context_aware.Evaluation.InformationFlow.Architectures.{
  analyze-redundant_measurements_iff,
}
use industrial_context_aware.Base.{◌↔◌, ◌≢◌, none, nat_beq, if◌then◌else◌}
use industrial_context_aware.Base.Attempts.{raises}
use industrial_context_aware.Samples.{thousandths, gateway, settings, start, events, names, call_of}

run-evidence_le_example :
    (length (run gateway settings "Why?" end).0.evidence
      ≡ (run gateway settings "Why?" end).1.total_tool_calls)
    × (length (run gateway settings "Why?" end).0.evidence ≤ 3)
run-evidence_le_example = run-evidence_le gateway settings "Why?" end 3 refl

run_spends : (run gateway settings "Why?" end).0.termination ≡ tool_call_budget_exceeded
unfolding get append_event decimal dict_set token_count text_of first_argument identifier_for
    evidence_for acquired_by error_fields result_of is_spent is_exceeded generate_event record_if
    tool_event settle execute_tool after_call conclusion_of calls_loop answer spend respond is_late
    turn run_steps initial run
run_spends = refl

-- A provider that raises in the second step, after the first step's call.
raising_attempt :
    (attempt
      (record gateway {
        generate_error = λ n messages. if nat_beq n 2 then some "TimeoutError" else none;
      })
      settings
      "Why?"
      end).0
    ≡ raises "TimeoutError"
unfolding get append_event decimal dict_set token_count text_of first_argument identifier_for
    evidence_for acquired_by error_fields result_of is_spent is_exceeded generate_event record_if
    tool_event settle execute_tool after_call conclusion_of calls_loop answer spend respond is_late
    turn initial raised_at proceed attempt_steps attempt
raising_attempt = refl

run-tool_call_budget_exceeded_example :
    (limit : ℕ) × (settings.max_tool_calls ≡ some limit)
    × (length (run gateway settings "Why?" end).0.evidence ≡ limit)
run-tool_call_budget_exceeded_example =
    run-tool_call_budget_exceeded gateway settings "Why?" end run_spends

run-AllGenuine_example : AllGenuine gateway settings (run gateway settings "Why?" end).1
run-AllGenuine_example = run-AllGenuine gateway settings "Why?" end

after_call_twice_loses_example :
    let t = after_call gateway settings (call_of "get_current_value") 1 start in
    let u = after_call gateway settings (call_of "get_current_value") 1 t in
    (length u.evidence ≡ 0 + 2)
    × (u.findings
        ≡ dict_set
            ("get_current_value" <> ("#" <> decimal 1))
            (obj (execute_tool gateway settings (call_of "get_current_value") 1 t).0)
            [])
after_call_twice_loses_example =
    after_call_twice_loses gateway settings (call_of "get_current_value")
      (call_of "get_current_value") 1 start refl

analyze-redundant_acquisition_count_example :
    (analyze names events).redundant_acquisition_count
      + length (analyze names events).architectures_used_per_measurement
    ≡ length (analyze names events).acquisitions
analyze-redundant_acquisition_count_example = analyze-redundant_acquisition_count names events

analyze-tool_error_count_example :
    (analyze names events).tool_error_count
    ≡ count_if (λ (event : TraceEvent ℕ). is_error (result_fields event.result)) events
analyze-tool_error_count_example = analyze-tool_error_count names events

abbrev mqtt_acquisition : AcquisitionRecord
mqtt_acquisition = record {
  canonical_id = "pressure";
  architecture = "mqtt";
  tool = "read_mqtt";
  step = 2;
}

mqtt_acquired : Memᴰ mqtt_acquisition (analyze names events).acquisitions
unfolding get distinct nothing_yet result_fields is_error acquisition_records after_acquisition
    discover acquire read_result read_unless_error read_trace architectures_used
    group_by_measurement redundant_count key_lt report_of analyze architecture_among architecture_of
    name_at display_name_of text_of_json text_at objects_among objects_of_json objects_at
    object_of_json object_at ids_of after_first id_of_name canonical_id_from_i3x_element_id
    with_node_names measurement_id_of_node measurement_id_of_relationship related_object
    discovered_ids names_after acquired_ids
mqtt_acquired = Memᴰ.tail (Memᴰ.head refl)

analyze-IsSource_example :
    (event : TraceEvent ℕ) × Memᴰ event events × IsSource event mqtt_acquisition
analyze-IsSource_example = analyze-IsSource names events mqtt_acquisition mqtt_acquired

analyze-redundant_measurements_iff_example :
    Memᴰ "pressure" (analyze names events).redundant_measurements ↔ (
      (a : AcquisitionRecord) × (b : AcquisitionRecord) × Memᴰ a (analyze names events).acquisitions
      × Memᴰ b (analyze names events).acquisitions
      × (a.canonical_id ≡ "pressure")
      × (b.canonical_id ≡ "pressure")
      × (a.architecture ≢ b.architecture))
analyze-redundant_measurements_iff_example =
    analyze-redundant_measurements_iff names events "pressure"

-- The same run under a token budget: twenty tokens a step.
run-token_budget_exceeded_iff_example :
    ((run gateway (record settings { max_context_tokens = some 15 }) "Why?" end).0.termination
      ≡ token_budget_exceeded)
    ↔ (15
        < (run gateway
            (record settings { max_context_tokens = some 15 })
            "Why?"
            end).1.total_tokens_used)
run-token_budget_exceeded_iff_example =
    run-token_budget_exceeded_iff gateway (record settings { max_context_tokens = some 15 }) "Why?"
      end 15 refl
