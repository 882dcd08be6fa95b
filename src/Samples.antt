-- ===== src/Samples.antt =====
-- Inputs of the examples: numbers counted in thousandths, a small gateway with a model that makes
-- two calls and concludes, and a few records.
pub mod Tasks
use industrial_context_aware.Base.{
  ℕ, zero, suc, ◌+◌, ◌-◌, ◌*◌, ◌/◌, Bool, true, false, String, ◌<>◌, Option, none, some, List, [],
  ◌∷◌, ◌++◌, ltb, leb, nat_beq, length, if◌then◌else◌,
}
use industrial_context_aware.Base.Float.{Float}
use industrial_context_aware.Base.Decimal.{decimal}
use industrial_context_aware.Base.Json.{str, num, obj, Fields, end, field}
use industrial_context_aware.Agent.Trace.{TraceEvent}
use industrial_context_aware.Agent.World.{ToolCall, LlmResponse, reply, World, Settings, State}
use industrial_context_aware.Evaluation.Report.{EvaluationReport}
use industrial_context_aware.Experiment.Models.{
  llm, ExperimentRunStatus, completed, failed, valid, ExperimentRecord,
}
use industrial_context_aware.Faults.{DisturbanceCharacterization}
use industrial_context_aware.Analysis.Sufficiency.{ConditionResult}
use industrial_context_aware.Benchmark.Completeness.{LevelCompletenessReport}

abbrev total : List ℕ → ℕ
total [] = 0
total (n ∷ ns) = n + total ns

-- A numeral without a sign, of at most three decimals.
abbrev decimals_of : ℕ → ℕ → List ℕ → ℕ
decimals_of scale acc [] = acc * scale
decimals_of scale acc (c ∷ text) = decimals_of (scale / 10) (10 * acc + (c - b'0')) text

abbrev thousandths_of : ℕ → List ℕ → ℕ
thousandths_of acc [] = 1000 * acc
thousandths_of acc (c ∷ text) =
    let rest = thousandths_of (10 * acc + (c - b'0')) text in
    if nat_beq c b'.' then decimals_of 1000 acc text else rest

instance abbrev pub thousandths : Float ℕ
thousandths = record {
  lt = ltb;
  of_nat = λ n. 1000 * n;
  ratio = λ h n. 1000 * h / n;
  sub = λ a b. a - b;
  le = leb;
  abs = λ a. a;
  mul = λ a b. a * b / 1000;
  div = λ a b. 1000 * a / b;
  sum = total;
  parse = thousandths_of 0;
  of_text = λ text. none;
  show = decimal;
  median = λ ns. total ns / length ns;
  stdev = λ ns. 0;
  mean = λ ns. total ns / length ns;
}

abbrev pub call_of : String → ToolCall ℕ
call_of name = record {
  id = "1";
  name = name;
  arguments = field "measurement_id" (str "reactor_pressure") end;
}

-- The model reads a value in each of the first two steps, and then submits.
abbrev answer_at : ℕ → LlmResponse ℕ
answer_at (suc (suc (suc n))) = record {
  content = none;
  tool_calls = call_of "submit_investigation" ∷ [];
  token_usage = none;
}
answer_at n = record {
  content = none;
  tool_calls = call_of "get_current_value" ∷ call_of "get_current_value" ∷ [];
  token_usage = some (("total_tokens", 20) ∷ []);
}

abbrev pub gateway : World ℕ
gateway = record {
  generate = λ n messages. answer_at n;
  generate_error = λ n messages. none;
  request = λ n name arguments. reply (
      field "observation"
        (obj (field "measurement_id" (str "reactor_pressure") (field "value" (num 2705) end))) end);
  elapsed = λ n. n;
  show = λ value. "";
}

-- At most three tool calls, in ten steps.
abbrev pub settings : Settings ℕ
settings = record {
  max_steps = 10;
  max_tool_calls = some 3;
  max_context_tokens = none;
  max_wall_time_seconds = none;
  system_prompt = "Investigate.";
  tools = "get_current_value" ∷ "submit_investigation" ∷ [];
  is_traced = true;
}

abbrev pub start : State ℕ
start = record {
  messages = [];
  findings = [];
  evidence = [];
  total_tool_calls = 0;
  total_tokens_used = 0;
  trace = [];
  requests = [];
}

abbrev event_of : ℕ → String → Fields ℕ → TraceEvent ℕ
event_of step name result = record {
  step = step;
  action = "tool_call";
  tool = some name;
  result = some result;
  token_usage = none;
  context_acquired = [];
  context_consumed = [];
}

-- One pressure read over two architectures, and a failed call.
abbrev pub events : List (TraceEvent ℕ)
events =
    event_of 1 "get_current_value"
      (field "observation" (obj (field "measurement_id" (str "pressure") end)) end)
    ∷ event_of 2 "read_mqtt" (field "message" (obj (field "canonical_id" (str "pressure") end)) end)
    ∷ event_of 3 "read_mqtt" (field "error" (str "timeout") end)
    ∷ []

abbrev pub names : List (String × String)
names = ("Reactor Pressure", "pressure") ∷ []

-- An evaluation with the given scores of evidence and of the conclusion.
abbrev pub evaluation_of : ℕ → ℕ → EvaluationReport ℕ
evaluation_of evidence_score conclusion_score = record {
  scenario_id = "s";
  task_id = none;
  generation_id = none;
  required_evidence_hits = [];
  required_evidence_score = evidence_score;
  evidence_has_valid_provenance = true;
  canonical_id_validity = [];
  canonical_id_score = 1000;
  temporal_evidence_required = false;
  temporal_evidence_acquired = false;
  expected_relationships = [];
  relationship_score = 1000;
  root_cause_identified = none;
  affected_assets_mentioned = [];
  conclusion_correctness_score = conclusion_score;
  unsupported_numeric_claims = [];
  grounding_score = 1000;
  context_acquired = "pressure" ∷ [];
  context_consumed = [];
  tool_call_count = 3;
  unique_tools_used = [];
  terminated_properly = true;
  completeness_score = 1000;
}

abbrev pub record_of :
    String
    → Option String
    → ℕ
    → ExperimentRunStatus
    → Option (EvaluationReport ℕ)
    → ExperimentRecord ℕ
record_of run question repetition status evaluation = record {
  run_id = run;
  experiment_id = "e";
  config = record {
    scenario_id = "s";
    task_id = none;
    task_type = none;
    isa95_level = some "L2";
    use_case_id = none;
    context_combination_id = none;
    suite = none;
    split = none;
    repetition = some repetition;
    question_id = question;
    question_instance_id = question;
    repetition_mode = none;
    architectures = "historian" ∷ [];
    architecture_combination_key = none;
    agent_type = llm;
    deterministic_agent = none;
    deterministic_equipment_key = none;
    llm_model = none;
    llm_temperature = none;
    max_steps = none;
    max_tool_calls = none;
    max_context_tokens = none;
    max_wall_time_seconds = none;
    random_seed = none;
  };
  scenario_difficulty = "easy";
  simulation_seed = 1;
  generation_id = none;
  icab_version = none;
  benchmark_version = none;
  git_commit = none;
  fault_id = none;
  fault_version = none;
  scenario_version = none;
  task_version = none;
  configuration_hash = none;
  status = status;
  error = none;
  validity = valid;
  validity_reason = none;
  result = none;
  evaluation = evaluation;
  information_flow = none;
  trace_event_count = 3;
  total_latency_ms = none;
  total_tokens = none;
}

-- A run that retrieved everything and concluded wrongly, and a run that failed.
abbrev pub wrong_run : ExperimentRecord ℕ
wrong_run = record_of "r1" (some "q1") 1 completed (some (evaluation_of 1000 500))

abbrev pub right_run : ExperimentRecord ℕ
right_run = record_of "r2" (some "q1") 2 completed (some (evaluation_of 1000 1000))

abbrev pub failed_run : ExperimentRecord ℕ
failed_run = record_of "r3" (some "q1") 3 failed none

-- Question ids `q0`, `q1`, … below a number, each with the given number of completed runs.
abbrev pub ids_below : ℕ → List String
ids_below zero = []
ids_below (suc n) = ("q" <> decimal n) ∷ ids_below n

abbrev runs_of : String → ℕ → List (ExperimentRecord ℕ)
runs_of question zero = []
runs_of question (suc n) = record_of "r" (some question) n completed none ∷ runs_of question n

abbrev pub runs_of_all : List String → ℕ → List (ExperimentRecord ℕ)
runs_of_all [] n = []
runs_of_all (question ∷ questions) n = runs_of question n ++ runs_of_all questions n

-- A level whose 500 runs succeeded.
abbrev pub full_level : LevelCompletenessReport
full_level = record {
  isa95_level = "L2";
  benchmark_id = none;
  n_questions_expected = 50;
  n_questions_in_bank = 50;
  n_questions_validated = 50;
  n_executions_expected = 500;
  n_executions_actual = 500;
  n_executions_successful = 500;
  questions = [];
  issues = [];
}

abbrev pub condition_of : String → Bool → ConditionResult ℕ
condition_of id meets = record {
  context_combination_id = id;
  cardinality = 1;
  n_runs = 1;
  scores = [];
  meets_threshold = meets;
  run_ids = [];
}

-- One seed of a fault that moved the pressure.
abbrev pub characterization_of : ℕ → Bool → List String → DisturbanceCharacterization ℕ
characterization_of seed tripped measurements = record {
  seed = seed;
  icab_injectable = true;
  plant_tripped = tripped;
  affected_measurements = measurements;
  affected_equipment = [];
  warmup_hours = 2;
  duration_hours = 8;
  magnitude = 1;
  deviation_threshold_stdevs = 3;
}
