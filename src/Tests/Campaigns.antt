-- ===== src/Tests/Campaigns.antt =====
-- A complete level and a complete suite.
use mathlib.Core.List.{Memᴰ}
use industrial_context_aware.Base.{
  ℕ, ◌≤◌, ◌≡◌, refl, true, false, String, none, List, [], ◌∷◌, filter, length, count_if, ◌==◌,
  string_eq, nat_eq,
}
use industrial_context_aware.Base.Sort.{distinct}
use industrial_context_aware.Base.Decimal.{decimal}
use industrial_context_aware.Experiment.Models.{ExperimentRecord, is_completed}
use industrial_context_aware.Benchmark.Completeness.{
  LevelCompletenessReport, is_complete, is_suite_complete, is_at_level, completed_repetitions,
  check_level_completeness, issue_if, add_to_group, group_one, by_question, group_of,
  repeated_executions, duplicate_repetitions, question_report, level_issues,
}
use industrial_context_aware.Benchmark.Completeness.Target.{
  answers, IsClean, check_level_completeness_sound,
}
use industrial_context_aware.Samples.{ids_below, runs_of_all, full_level}

abbrev questions : List String
questions = ids_below 50

abbrev campaign : List (ExperimentRecord ℕ)
campaign = runs_of_all questions 10

campaign_complete : is_complete (check_level_completeness "L2" questions campaign none) ≡ true
unfolding is_complete check_level_completeness issue_if is_at_level add_to_group group_one
    by_question group_of repeated_executions duplicate_repetitions completed_repetitions
    question_report level_issues distinct is_completed decimal
campaign_complete = refl

abbrev suite : List LevelCompletenessReport
suite = full_level ∷ full_level ∷ full_level ∷ full_level ∷ full_level ∷ full_level ∷ []

suite_complete : is_suite_complete suite ≡ true
unfolding is_suite_complete is_complete
suite_complete = refl

check_level_completeness_sound_example :
    IsClean "L2" questions campaign
    × (count_if
          (λ (r : ExperimentRecord ℕ). is_completed r.status)
          (filter (is_at_level "L2") campaign)
        ≡ 500)
    × ((qid : String)
        → Memᴰ qid questions
        → (qid == "") ≡ false
        → 10
          ≤ length (
              distinct (
                completed_repetitions (filter (answers qid) (filter (is_at_level "L2") campaign)))))
check_level_completeness_sound_example =
    check_level_completeness_sound "L2" questions campaign none campaign_complete
