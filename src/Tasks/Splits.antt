-- ===== src/Tasks/Splits.antt =====
-- tasks/splits.py, over a registry's tasks in their order. Loading the assignment is left out.
use industrial_context_aware.Base.{
  string_eq, String, List, ◌++◌, map, filter, contains, not, Result, ok, err, key_error,
  if◌then◌else◌,
}
use industrial_context_aware.Base.Sort.{sort, distinct, str_lt}
use industrial_context_aware.Tasks.BenchmarkTasks.{BenchmarkTask}

pub data TaskSplit : Type 0 where
  development validation test : TaskSplit

pub record SplitAssignment : Type 0 where
  pub development_ids : List String
  pub validation_ids : List String
  pub test_ids : List String

unfoldable pub split_for_scenario : SplitAssignment → String → Result TaskSplit
split_for_scenario a id =
    if contains a.development_ids id
    then ok development
    else if contains a.validation_ids id
    then ok validation
    else if contains a.test_ids id
    then ok test
    else err key_error

unfoldable pub scenario_ids : SplitAssignment → List String
scenario_ids a = distinct (a.development_ids ++ (a.validation_ids ++ a.test_ids))

unfoldable pub ids_in_split : SplitAssignment → TaskSplit → List String
ids_in_split a development = a.development_ids
ids_in_split a validation = a.validation_ids
ids_in_split a test = a.test_ids

module _ {N : Type 0} where
  unfoldable pub tasks_in_split :
      List (BenchmarkTask N) → TaskSplit → SplitAssignment → List (BenchmarkTask N)
  tasks_in_split registry split a =
      filter (λ t. contains (ids_in_split a split) t.scenario_id) registry

  unfoldable pub validate_split_coverage : List (BenchmarkTask N) → SplitAssignment → List String
  validate_split_coverage registry a = sort str_lt (
      filter (λ id. not (contains (scenario_ids a) id))
        (distinct (map (λ (t : BenchmarkTask N). t.scenario_id) registry)))
