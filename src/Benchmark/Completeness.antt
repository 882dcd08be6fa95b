-- ===== src/Benchmark/Completeness.antt =====
-- benchmark/completeness.py. An issue is kept as its kind with the numbers that its text shows;
-- the text of a question's issue, which is there exactly if the question is not complete, and the
-- printed table are left out. `trace_event_count` is an `int`, so its test for `None` never holds.
pub mod Target
use industrial_context_aware.Base.{
  ℕ, ◌+◌, ◌*◌, Bool, true, false, ◌&&◌, ◌||◌, not, String, Option, none, some, List, [], ◌∷◌, ◌++◌,
  map, if◌then◌else◌, leb, ltb, nat_beq, ◌==◌, string_eq, nat_eq, option_eq, pair_eq, filter,
  length, all, is_empty, count_if,
}
use industrial_context_aware.Base.Sort.{distinct}
use industrial_context_aware.Experiment.Models.{ExperimentRecord, is_completed}

abbrev pub target_questions_per_level : ℕ
target_questions_per_level = 50

abbrev pub target_repetitions_per_question : ℕ
target_repetitions_per_question = 10

abbrev pub target_executions_per_level : ℕ
target_executions_per_level = target_questions_per_level * target_repetitions_per_question

abbrev pub target_level_count : ℕ
target_level_count = 6

abbrev pub target_total_executions : ℕ
target_total_executions = target_executions_per_level * target_level_count

pub record QuestionCompleteness : Type 0 where
  pub question_id : String
  pub repetitions_completed : ℕ
  pub repetitions_target : ℕ
  pub complete : Bool

pub data Issue : Type 0 where
  bank_size : ℕ → Issue
  duplicate_question_ids : Issue
  mismatched_level : List String → Issue
  missing_reference : List String → Issue
  duplicate_executions : ℕ → Issue

pub record LevelCompletenessReport : Type 0 where
  pub isa95_level : String
  pub benchmark_id : Option String
  pub n_questions_expected : ℕ
  pub n_questions_in_bank : ℕ
  pub n_questions_validated : ℕ
  pub n_executions_expected : ℕ
  pub n_executions_actual : ℕ
  pub n_executions_successful : ℕ
  pub questions : List QuestionCompleteness
  pub issues : List Issue

-- `LevelCompletenessReport.is_complete`
unfoldable pub is_complete : LevelCompletenessReport → Bool
is_complete r =
    is_empty r.issues
    && (nat_beq r.n_questions_in_bank r.n_questions_expected
        && (nat_beq r.n_executions_successful r.n_executions_expected
            && all (λ q. q.complete) r.questions))

-- `SuiteCompletenessReport`, which holds the reports of its levels.
unfoldable pub is_suite_complete : List LevelCompletenessReport → Bool
is_suite_complete levels = nat_beq (length levels) target_level_count && all is_complete levels

unfoldable pub total_executions_actual : List LevelCompletenessReport → ℕ
total_executions_actual [] = 0
total_executions_actual (level ∷ levels) =
    level.n_executions_successful + total_executions_actual levels

-- `if condition: issues.append(issue)`
unfoldable pub issue_if : Bool → Issue → List Issue
issue_if true issue = issue ∷ []
issue_if false issue = []

module _ {N : Type 0} where
  unfoldable pub is_at_level : String → ExperimentRecord N → Bool
  is_at_level level r = r.config.isa95_level == some level

  -- `groups[key].append(r)`
  unfoldable pub add_to_group :
      String
      → ExperimentRecord N
      → List (String × List (ExperimentRecord N))
      → List (String × List (ExperimentRecord N))
  add_to_group key r [] = (key, r ∷ []) ∷ []
  add_to_group key r ((k, rs) ∷ groups) =
      let rest = add_to_group key r groups in
      if k == key then (k, rs ++ r ∷ []) ∷ groups else (k, rs) ∷ rest

  -- One record of the loop that fills `by_question`: a missing or empty id is passed over.
  unfoldable pub group_one :
      Option String
      → ExperimentRecord N
      → List (String × List (ExperimentRecord N))
      → List (String × List (ExperimentRecord N))
  group_one none r groups = groups
  group_one (some key) r groups = if key == "" then groups else add_to_group key r groups

  unfoldable pub by_question :
      List (ExperimentRecord N)
      → List (String × List (ExperimentRecord N))
      → List (String × List (ExperimentRecord N))
  by_question [] groups = groups
  by_question (r ∷ rs) groups = by_question rs (group_one r.config.question_id r groups)

  -- `groups.get(key, [])`
  unfoldable pub group_of :
      String → List (String × List (ExperimentRecord N)) → List (ExperimentRecord N)
  group_of key [] = []
  group_of key ((k, rs) ∷ groups) = let rest = group_of key groups in if k == key then rs else rest

  abbrev pub execution_key : ExperimentRecord N → Option String × Option ℕ
  execution_key r = (r.config.question_instance_id, r.config.repetition)

  -- How many distinct (instance, repetition) pairs occur more than once.
  unfoldable pub repeated_executions : List (ExperimentRecord N) → ℕ
  repeated_executions rs =
      count_if (λ key. ltb 1 (count_if (λ r. execution_key r == key) rs))
        (distinct (map execution_key rs))

  unfoldable pub duplicate_repetitions : List (String × List (ExperimentRecord N)) → ℕ
  duplicate_repetitions [] = 0
  duplicate_repetitions ((k, rs) ∷ groups) = repeated_executions rs + duplicate_repetitions groups

  -- The repetition of a completed run, as the comprehension of `successful_reps` keeps it.
  unfoldable pub completed_repetitions : List (ExperimentRecord N) → List ℕ
  completed_repetitions [] = []
  completed_repetitions (r ∷ rs) =
      let rest = completed_repetitions rs in
      elim r.config.repetition [
        | none ↦ rest
        | some n ↦ if is_completed r.status then n ∷ rest else rest
      ]

  unfoldable pub question_report : String → List (ExperimentRecord N) → QuestionCompleteness
  question_report qid rs =
      let n_completed = length (distinct (completed_repetitions rs)) in
      record {
        question_id = qid;
        repetitions_completed = n_completed;
        repetitions_target = target_repetitions_per_question;
        complete = leb target_repetitions_per_question n_completed;
      }

  unfoldable pub level_issues : String → List String → List (ExperimentRecord N) → List Issue
  level_issues level bank_ids records =
      let mismatched = filter (λ r. not (is_at_level level r)) records in
      let missing = filter (λ r. r.experiment_id == "") records in
      let duplicates =
        duplicate_repetitions (by_question (filter (is_at_level level) records) []) in
      issue_if (not (nat_beq (length bank_ids) target_questions_per_level))
        (bank_size (length bank_ids))
      ++ (issue_if (not (nat_beq (length bank_ids) (length (distinct bank_ids))))
            duplicate_question_ids
          ++ (issue_if (not (is_empty mismatched))
                (mismatched_level (map (λ r. r.run_id) mismatched))
              ++ (issue_if (not (is_empty missing))
                    (missing_reference (map (λ r. r.run_id) missing))
                  ++ issue_if (not (nat_beq duplicates 0)) (duplicate_executions duplicates))))

  unfoldable pub check_level_completeness :
      String → List String → List (ExperimentRecord N) → Option String → LevelCompletenessReport
  check_level_completeness level bank_ids records benchmark_id =
      let scoped = filter (is_at_level level) records in
      let groups = by_question scoped [] in
      record {
        isa95_level = level;
        benchmark_id = benchmark_id;
        n_questions_expected = target_questions_per_level;
        n_questions_in_bank = length bank_ids;
        n_questions_validated = length groups;
        n_executions_expected = target_executions_per_level;
        n_executions_actual = length scoped;
        n_executions_successful = count_if (λ r. is_completed r.status) scoped;
        questions = map (λ qid. question_report qid (group_of qid groups)) bank_ids;
        issues = level_issues level bank_ids records;
      }
