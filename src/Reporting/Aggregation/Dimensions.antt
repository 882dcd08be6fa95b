-- ===== src/Reporting/Aggregation/Dimensions.antt =====
-- `DIMENSION_RESOLVERS` of reporting/aggregation.py.
use industrial_context_aware.Base.{
  ◌==◌, string_eq, String, List, [], ◌∷◌, if◌then◌else◌, Result, ok, err, value_error,
}
use industrial_context_aware.Base.Scalars.{Scalar, text, integer, number, of_option}
use industrial_context_aware.Base.Sort.{sort, str_lt}
use industrial_context_aware.Context.Combinations.{join}
use industrial_context_aware.Experiment.Models.{
  ExperimentRecord, AgentType, deterministic, llm, kind_value,
}
use industrial_context_aware.Experiment.Metrics.{status_value, validity_value}

unfoldable pub agent_type_value : AgentType → String
agent_type_value deterministic = "deterministic"
agent_type_value llm = "llm"

module _ {N : Type 0} where
  -- The table, at one record.
  unfoldable pub dimensions_of : ExperimentRecord N → List (String × Scalar N)
  dimensions_of r =
      ("scenario_id", text r.config.scenario_id)
      ∷ ("difficulty", text r.scenario_difficulty)
      ∷ ("architecture", text (join "+" r.config.architectures))
      ∷ ("architecture_combination_key", of_option text r.config.architecture_combination_key)
      ∷ ("agent_type", text (agent_type_value r.config.agent_type))
      ∷ ("deterministic_agent", of_option (λ k. text (kind_value k)) r.config.deterministic_agent)
      ∷ ("llm_model", of_option text r.config.llm_model)
      ∷ ("llm_temperature", of_option number r.config.llm_temperature)
      ∷ ("max_steps", of_option integer r.config.max_steps)
      ∷ ("simulation_seed", integer r.simulation_seed)
      ∷ ("run_id", text r.run_id)
      ∷ ("experiment_id", text r.experiment_id)
      ∷ ("validity", text (validity_value r.validity))
      ∷ ("status", text (status_value r.status))
      ∷ ("task_id", of_option text r.config.task_id)
      ∷ ("task_type", of_option text r.config.task_type)
      ∷ ("suite", of_option text r.config.suite)
      ∷ ("split", of_option text r.config.split)
      ∷ ("repetition", of_option integer r.config.repetition)
      ∷ ("isa95_level", of_option text r.config.isa95_level)
      ∷ ("use_case_id", of_option text r.config.use_case_id)
      ∷ ("context_combination_id", of_option text r.config.context_combination_id)
      ∷ ("question_id", of_option text r.config.question_id)
      ∷ ("question_instance_id", of_option text r.config.question_instance_id)
      ∷ ("repetition_mode", of_option text r.config.repetition_mode)
      ∷ []

  unfoldable pub value_named : String → List (String × Scalar N) → Result (Scalar N)
  value_named dimension [] = err value_error
  value_named dimension ((name, v) ∷ rest) =
      let found = value_named dimension rest in if name == dimension then ok v else found

  -- `_dimension_value`
  unfoldable pub dimension_value : ExperimentRecord N → String → Result (Scalar N)
  dimension_value r dimension = value_named dimension (dimensions_of r)

-- The keys of the table.
abbrev pub dimension_names : List String
dimension_names =
    "scenario_id" ∷ "difficulty" ∷ "architecture" ∷ "architecture_combination_key" ∷ "agent_type"
    ∷ "deterministic_agent" ∷ "llm_model" ∷ "llm_temperature" ∷ "max_steps" ∷ "simulation_seed"
    ∷ "run_id" ∷ "experiment_id" ∷ "validity" ∷ "status" ∷ "task_id" ∷ "task_type" ∷ "suite"
    ∷ "split" ∷ "repetition" ∷ "isa95_level" ∷ "use_case_id" ∷ "context_combination_id"
    ∷ "question_id" ∷ "question_instance_id" ∷ "repetition_mode" ∷ []

unfoldable pub list_dimensions : List String
list_dimensions = sort str_lt dimension_names
