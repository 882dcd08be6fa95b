-- ===== src/Experiment/Controls.antt =====
-- experiments/controls.py. A control's value is compared and shown as Python does.
use industrial_context_aware.Base.{
  Bool, ◌==◌, string_eq, nat_eq, option_eq, Eq, String, List, [], ◌∷◌, map, filter, length, ltb,
  if◌then◌else◌, Result, ok, err, value_error, ◌>>=◌, map_ok,
}
use industrial_context_aware.Base.Comprehensions.{add_all}
use industrial_context_aware.Base.Float.{Float}
use industrial_context_aware.Base.Sort.{sort, distinct, str_lt}
use industrial_context_aware.Base.Scalars.{
  Scalar, text, integer, number, of_option, scalar_eq, show,
}
use industrial_context_aware.Experiment.Models.{ExperimentRecord}

abbrev pub control_fields : List String
control_fields =
    "scenario_id" ∷ "simulation_seed" ∷ "llm_model" ∷ "llm_temperature" ∷ "max_steps" ∷ []

module _ {N : Type 0} where
  unfoldable pub control_value : ExperimentRecord N → String → Result (Scalar N)
  control_value r field =
      if field == "scenario_id"
      then ok (text r.config.scenario_id)
      else if field == "simulation_seed"
      then ok (integer r.simulation_seed)
      else if field == "llm_model"
      then ok (of_option text r.config.llm_model)
      else if field == "llm_temperature"
      then ok (of_option number r.config.llm_temperature)
      else if field == "max_steps"
      then ok (of_option integer r.config.max_steps)
      else err value_error

module _ {N : Type 0} ⦃f : Float N⦄ ⦃e : Eq N⦄ where
  unfoldable pub shown_lt : Scalar N → Scalar N → Bool
  shown_lt a b = str_lt (show a) (show b)

  -- `{control_value(record, field) for record in records}`
  unfoldable pub values_of : List (ExperimentRecord N) → String → Result (List (Scalar N))
  values_of records field = do
    values ← map_ok (λ r. control_value r field) records
    ok (distinct values)

  unfoldable pub varies : String × List (Scalar N) → Bool
  varies entry = ltb 1 (length entry.1)

  unfoldable pub sorted_entry : String × List (Scalar N) → String × List (Scalar N)
  sorted_entry entry = (entry.0, sort shown_lt entry.1)

  unfoldable pub entry_of : List (ExperimentRecord N) → String → Result (String × List (Scalar N))
  entry_of records field = do values ← values_of records field; ok (field, values)

  unfoldable pub control_variance :
      List (ExperimentRecord N) → List String → Result (List (String × List (Scalar N)))
  control_variance records fields = do
    entries ← map_ok (entry_of records) (add_all fields [])
    ok (map sorted_entry (filter varies entries))
