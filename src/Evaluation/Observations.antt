-- ===== src/Evaluation/Observations.antt =====
-- evaluation/grounded.py: what the evaluator reads off a trace. Ids and texts in a result are texts,
-- and the items of its lists are objects, as gateway/schemas.py declares; a value of another kind is
-- read as absent.
use industrial_context_aware.Base.{
  Bool, false, ◌&&◌, ◌||◌, ◌==◌, string_eq, option_eq, String, Option, none, some, List, [], ◌∷◌,
  ◌++◌, map, any, contains, if◌then◌else◌,
}
use industrial_context_aware.Base.Json.{
  Json, null, bool, num, str, arr, obj, Items, nil, cons, Fields, end, field, get,
}
use industrial_context_aware.Agent.Trace.{TraceEvent}
use industrial_context_aware.Evaluation.ToolResults.{text_at, objects_at, object_at, ids_of}
use industrial_context_aware.Evaluation.InformationFlow.{result_fields}

abbrev pub value_bearing_tools : List String
value_bearing_tools =
    "get_current_value" ∷ "get_historical_values" ∷ "i3x_get_value" ∷ "i3x_get_history" ∷ []

abbrev pub temporal_tools : List String
temporal_tools = "get_historical_values" ∷ "i3x_get_history" ∷ []

abbrev pub relationship_tools : List String
relationship_tools = "get_entity_relationships" ∷ []

-- `tool in tools`, where an event without a tool has none.
unfoldable pub is_tool_of : List String → Option String → Bool
is_tool_of tools none = false
is_tool_of tools (some tool) = contains tools tool

-- `_retrieved_value_ids`
module _ {N : Type 0} where
  unfoldable pub ids_of_result : Fields N → List String
  ids_of_result result =
      ids_of (map (text_at "measurement_id") (object_at "observation" result))
      ++ (ids_of (map (text_at "measurement_id") (objects_at "observations" result))
          ++ ids_of (text_at "element_id" result ∷ []))

  unfoldable pub retrieved_by_event : TraceEvent N → List String
  retrieved_by_event event =
      if is_tool_of value_bearing_tools event.tool
      then ids_of_result (result_fields event.result)
      else []

  unfoldable pub retrieved_value_ids : List (TraceEvent N) → List String
  retrieved_value_ids [] = []
  retrieved_value_ids (event ∷ trace) = retrieved_by_event event ++ retrieved_value_ids trace

-- A text under a key, the empty one too.
unfoldable pub string_at : {N : Type 0} → String → Fields N → Option String
string_at key fields = string_of (get key fields)
  where
    string_of : {N : Type 0} → Option (Json N) → Option String
    string_of (some (str s)) = some s
    string_of _ = none

-- `_relationship_confirmed`
module _ {N : Type 0} (triple : String × String × String) (generation_id : Option String) where
  -- The triple, of the given generation or of any.
  unfoldable pub is_confirmation : Fields N → Bool
  is_confirmation r =
      string_at "subject" r == some triple.0
      && (string_at "predicate" r == some triple.1
          && (string_at "object" r == some triple.2
              && (generation_id == none || string_at "generation_id" r == generation_id)))

  unfoldable pub confirms : TraceEvent N → Bool
  confirms event =
      is_tool_of relationship_tools event.tool
      && any is_confirmation (objects_at "relationships" (result_fields event.result))

  unfoldable pub relationship_confirmed : List (TraceEvent N) → Bool
  relationship_confirmed trace = any confirms trace

-- `_observed_numbers`
module _ {N : Type 0} where
  unfoldable mutual
    pub numbers_in : Json N → List N
    numbers_in null = []
    numbers_in (bool b) = []
    numbers_in (num n) = n ∷ []
    numbers_in (str s) = []
    numbers_in (arr items) = numbers_in_items items
    numbers_in (obj fields) = numbers_in_fields fields

    pub numbers_in_items : Items N → List N
    numbers_in_items nil = []
    numbers_in_items (cons v items) = numbers_in v ++ numbers_in_items items

    pub numbers_in_fields : Fields N → List N
    numbers_in_fields end = []
    numbers_in_fields (field k v fields) = numbers_in v ++ numbers_in_fields fields

  unfoldable pub observed_numbers : List (TraceEvent N) → List N
  observed_numbers [] = []
  observed_numbers (event ∷ trace) =
      numbers_in_fields (result_fields event.result) ++ observed_numbers trace
