-- ===== src/Benchmark/Completeness/Target.antt =====
-- About levels and suites that benchmark/completeness.py reports as complete.
use mathlib.Core.List.Memᴰ
use mathlib.Core.List.{Memᴰ, append-nil, append_assoc}
use text.Mathlib.TextEquality.{eq_iff}
use industrial_context_aware.Base.{
  ◌*◌, ◌≤◌, ◌≡◌, refl, ◌∙◌, Bool, true, false, not, String, Option, none, some, List, [], ◌∷◌, ◌++◌,
  map, arith, if◌then◌else◌, leb→le, ◌==◌, string_eq, nat_eq, option_eq, filter, length, all,
  all-mem, is_empty, count_if, Bool-cases, inl, inr, All,
}
use industrial_context_aware.Base.Sort.{distinct}
use industrial_context_aware.Experiment.Models.{ExperimentRecord, is_completed}
use industrial_context_aware.Benchmark.Completeness.{
  QuestionCompleteness, Issue, LevelCompletenessReport, is_complete, is_suite_complete,
  total_executions_actual, issue_if, is_at_level, add_to_group, group_one, by_question, group_of,
  completed_repetitions, question_report, level_issues, check_level_completeness,
  duplicate_question_ids, bank_size, mismatched_level, target_total_executions,
}

module _ {N : Type 0} where
  -- The records of one question.
  abbrev pub answers : String → ExperimentRecord N → Bool
  answers qid r = r.config.question_id == some qid

  group_of-add :
      (qid key : String) (r : ExperimentRecord N)
      (groups : List (String × List (ExperimentRecord N)))
      → group_of qid (add_to_group key r groups)
        ≡ (if key == qid then group_of qid groups ++ r ∷ [] else group_of qid groups)
  unfolding group_of add_to_group
  group_of-add qid key r [] = refl
  group_of-add qid key r ((k, rs) ∷ groups) =
      ground (arith, group_of-add qid key r groups, eq_iff k key, eq_iff k qid, eq_iff key qid)

  group_of-one :
      (qid : String) (o : Option String) (r : ExperimentRecord N)
      (groups : List (String × List (ExperimentRecord N)))
      → (qid == "") ≡ false
      → group_of qid (group_one o r groups)
        ≡ (if o == some qid then group_of qid groups ++ r ∷ [] else group_of qid groups)
  unfolding group_one
  group_of-one qid none r groups some_id = refl
  group_of-one qid (some key) r groups some_id =
      ground (arith, group_of-add qid key r groups, eq_iff key qid, eq_iff key "", eq_iff qid "")

  -- The groups are the filters by question, in the order of the records.
  pub group_of-by_question :
      (qid : String) (records : List (ExperimentRecord N))
      (groups : List (String × List (ExperimentRecord N)))
      → (qid == "") ≡ false
      → group_of qid (by_question records groups)
        ≡ group_of qid groups ++ filter (answers qid) records
  unfolding by_question
  group_of-by_question qid [] groups some_id = rw append-nil
  group_of-by_question qid (r ∷ records) groups some_id =
      group_of-by_question qid records (group_one r.config.question_id r groups) some_id
      ∙ rw (group_of-one qid r.config.question_id r groups some_id)
          (elim (Bool-cases (answers qid r)) [
            | inl here ↦ rw (here, append_assoc)
            | inr elsewhere ↦ rw elsewhere
          ])

issue_if-nil :
    (b : Bool) (issue : Issue) (rest : List Issue)
    → is_empty (issue_if b issue ++ rest) ≡ true
    → (b ≡ false) × (is_empty rest ≡ true)
unfolding issue_if
issue_if-nil true issue rest h = cc
issue_if-nil false issue rest h = (refl, h)

module _ {N : Type 0} (level : String) (bank_ids : List String)
    (records : List (ExperimentRecord N)) where
  -- No structural problem: the bank has its fifty questions, all different, and every record
  -- belongs to the level.
  pub record IsClean : Type 0 where
    pub bank : length bank_ids ≡ 50
    pub different : length (distinct bank_ids) ≡ 50
    pub at_level :
        is_empty (filter (λ (r : ExperimentRecord N). not (is_at_level level r)) records) ≡ true

  level_issues-IsClean : is_empty (level_issues level bank_ids records) ≡ true → IsClean
  unfolding level_issues
  level_issues-IsClean h =
      let (size, rest) = issue_if-nil _ (bank_size (length bank_ids)) _ h in
      let (unique, rest') = issue_if-nil _ duplicate_question_ids _ rest in
      let (matched, rest'') = issue_if-nil _ (mismatched_level _) _ rest' in
      record { bank = ground arith; different = ground arith; at_level = ground arith }

  complete_parts :
      (benchmark_id : Option String)
      → is_complete (check_level_completeness level bank_ids records benchmark_id) ≡ true
      → (is_empty (level_issues level bank_ids records) ≡ true)
        × (count_if
              (λ (r : ExperimentRecord N). is_completed r.status)
              (filter (is_at_level level) records)
            ≡ 500)
        × (all
              (λ (q : QuestionCompleteness). q.complete)
              (map
                (λ qid.
                  question_report qid
                    (group_of qid (by_question (filter (is_at_level level) records) [])))
                bank_ids)
            ≡ true)
  unfolding is_complete check_level_completeness
  complete_parts benchmark_id h = ground arith

  question_complete :
      (qid : String)
      → (qid == "") ≡ false
      → (question_report qid
          (group_of qid (by_question (filter (is_at_level level) records) []))).complete
        ≡ true
      → 10
        ≤ length (
            distinct
              (completed_repetitions (filter (answers qid) (filter (is_at_level level) records))))
  unfolding question_report group_of
  question_complete qid some_id h =
      let same = group_of-by_question qid (filter (is_at_level level) records) [] some_id in
      leb→le 10 _ (rw (same) at h)

  -- A level that is reported complete has exactly fifty different questions in its bank, only
  -- records of that level, exactly 500 completed runs, and for each question with a non-empty id
  -- at least ten completed runs with different repetition numbers.
  pub check_level_completeness_sound :
      (benchmark_id : Option String)
      → is_complete (check_level_completeness level bank_ids records benchmark_id) ≡ true
      → IsClean
        × (count_if
              (λ (r : ExperimentRecord N). is_completed r.status)
              (filter (is_at_level level) records)
            ≡ 500)
        × ((qid : String)
            → Memᴰ qid bank_ids
            → (qid == "") ≡ false
            → 10
              ≤ length (
                  distinct (
                    completed_repetitions
                      (filter (answers qid) (filter (is_at_level level) records)))))
  check_level_completeness_sound benchmark_id h =
      let (no_issues, successful, questions) = complete_parts benchmark_id h in
      (
        level_issues-IsClean no_issues,
        successful,
        λ qid m some_id.
            question_complete qid some_id
              (all-mem (λ (q : QuestionCompleteness). q.complete) _ questions (Memᴰ.map _ m)),
      )

total_of_complete :
    (levels : List LevelCompletenessReport)
    → All (λ level. level.n_executions_expected ≡ 500) levels
    → all is_complete levels ≡ true
    → total_executions_actual levels ≡ length levels * 500
unfolding total_executions_actual is_complete
total_of_complete [] e h = refl
total_of_complete (level ∷ levels) e h =
    let here : level.n_executions_successful ≡ 500 = ground arith in
    omega (arith, here, total_of_complete levels e.1 (ground arith))

-- A suite that is reported complete, of levels that each expect 500 runs, has run 3,000 times.
pub total_executions_complete :
    (levels : List LevelCompletenessReport)
    → All (λ level. level.n_executions_expected ≡ 500) levels
    → is_suite_complete levels ≡ true
    → total_executions_actual levels ≡ target_total_executions
unfolding is_suite_complete
total_executions_complete levels e h =
    let six : length levels ≡ 6 = ground arith in
    omega (arith, six, total_of_complete levels e (ground arith))
