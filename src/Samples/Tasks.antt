-- ===== src/Samples/Tasks.antt =====
-- A scenario with a fault, a task set against it, and an answer with its trace.
use industrial_context_aware.Base.{ℕ, false, String, none, some, List, [], ◌∷◌}
use industrial_context_aware.Base.Json.{num, str, arr, obj, nil, cons, Fields, end, field}
use industrial_context_aware.Context.Dimensions.{c3_relational, c5_operational}
use industrial_context_aware.Agent.Interface.{submitted, InvestigationResult}
use industrial_context_aware.Agent.Trace.{TraceEvent}
use industrial_context_aware.Tasks.Scenarios.{
  d3, diagnosis, GroundTruth, BenchmarkScenario, FaultSchedule,
}
use industrial_context_aware.Tasks.BenchmarkTasks.{BenchmarkTask}
use industrial_context_aware.Tasks.Splits.{SplitAssignment}

abbrev pub truth : GroundTruth
truth = record {
  conclusion = "The feed ratio moved.";
  root_cause_disturbance = some "idv_01";
  affected_measurements = "urn:icab:measurement:reactor_pressure" ∷ [];
  affected_equipment = [];
  expected_relationships =
      ("urn:icab:equipment:reactor", "has", "urn:icab:measurement:reactor_pressure") ∷ [];
  expected_evidence = "urn:icab:measurement:reactor_pressure" ∷ "urn:icab:measurement:feed" ∷ [];
}

abbrev fault : FaultSchedule ℕ
fault = record {
  disturbance = "idv_01";
  activate_at_hours = 1000;
  duration_hours = none;
  magnitude = 1000;
  description = none;
}

abbrev pub scenario_of : String → BenchmarkScenario ℕ
scenario_of objective = record {
  scenario_id = "s";
  difficulty = d3;
  version = "1.0.0";
  objective = objective;
  seed = 7;
  faults = fault ∷ [];
  available_architectures = "historian" ∷ "knowledge_graph" ∷ [];
  ground_truth = truth;
}

abbrev pub task : BenchmarkTask ℕ
task = record {
  task_id = "t";
  scenario_id = "s";
  task_type = diagnosis;
  difficulty = d3;
  objective = "Why did the pressure rise?";
  available_architectures = "historian" ∷ "knowledge_graph" ∷ [];
  required_context_dimensions = c3_relational ∷ c5_operational ∷ [];
  required_evidence = [];
  expected_entities = [];
  expected_relationships = truth.expected_relationships;
  expected_temporal_evidence = false;
  ground_truth = truth;
  evaluation_criteria = record {
    binding_scores = "required_evidence_score" ∷ "grounding_score" ∷ [];
    pass_threshold = 1000;
  };
  version = "1.0.0";
  isa95_level = some "equipment";
  use_case_id = none;
}

-- An answer that cites one reading and names its value, and a number that nothing showed.
abbrev pub answer_that_says : String → InvestigationResult ℕ
answer_that_says conclusion = record {
  objective = "Why did the pressure pass 3000 kPa?";
  conclusion = conclusion;
  findings = [];
  evidence =
      record { source = "get_current_value"; identifier = "urn:icab:measurement:reactor_pressure" }
      ∷ [];
  termination = submitted;
}

abbrev call_event : ℕ → String → Fields ℕ → TraceEvent ℕ
call_event step name result = record {
  step = step;
  action = "tool_call";
  tool = some name;
  result = some result;
  token_usage = none;
  context_acquired = [];
  context_consumed = [];
}

-- A reading of the feed, and the relationship of the reactor in one generation.
abbrev pub trace_of : String → List (TraceEvent ℕ)
trace_of generation =
    call_event 1 "get_current_value" (
      field "observation"
        (obj (
          field "measurement_id" (str "urn:icab:measurement:feed")
            (field "value" (num 2705000) end)))
        end)
    ∷ call_event 2 "get_entity_relationships" (
        field "relationships"
          (arr (
            cons
              (obj (
                field "subject" (str "urn:icab:equipment:reactor") (
                  field "predicate" (str "has") (
                    field "object" (str "urn:icab:measurement:reactor_pressure")
                      (field "generation_id" (str generation) end)))))
              nil))
          end)
    ∷ []

abbrev pub assignment : SplitAssignment
assignment = record { development_ids = "a" ∷ []; validation_ids = "b" ∷ []; test_ids = "s" ∷ [] }
