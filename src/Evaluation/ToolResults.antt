-- ===== src/Evaluation/ToolResults.antt =====
-- evaluation/information_flow.py: which architecture supplied which measurement. The fields that
-- carry ids and names are texts or null, as gateway/schemas.py declares, and the items of the lists
-- are objects; a value of another kind is read as absent.
use Prim.Native.String.{len}
use text.Mathlib.Text.{find?, get?, starts_with}
use industrial_context_aware.Base.{
  ◌+◌, ◌==◌, string_eq, option_eq, String, Option, none, some, List, [], ◌∷◌, map, contains,
  if◌then◌else◌,
}
use industrial_context_aware.Base.Json.{Json, str, arr, obj, Items, nil, cons, Fields, get}
use industrial_context_aware.Base.Sort.{distinct}

abbrev pub discovery_tools : List String
discovery_tools =
    "browse_uns" ∷ "get_entity_relationships" ∷ "i3x_get_objects" ∷ "i3x_get_related_objects"
    ∷ "opcua_browse" ∷ []

abbrev pub acquisition_tools : List String
acquisition_tools =
    "get_current_value" ∷ "get_historical_values" ∷ "read_mqtt" ∷ "opcua_read" ∷ "i3x_get_value"
    ∷ "i3x_get_history" ∷ []

-- `ARCHITECTURE_TOOL_NAMES` of agent/llm/tools.py
abbrev pub architecture_tool_names : List (String × List String)
architecture_tool_names =
    ("historian", "get_current_value" ∷ "get_historical_values" ∷ [])
    ∷ ("knowledge_graph", "get_entity_relationships" ∷ [])
    ∷ ("uns", "browse_uns" ∷ [])
    ∷ ("opcua", "opcua_browse" ∷ "opcua_read" ∷ [])
    ∷ ("mqtt", "browse_mqtt" ∷ "read_mqtt" ∷ [])
    ∷ (
      "i3x",
      "i3x_get_objects" ∷ "i3x_get_object" ∷ "i3x_get_related_objects" ∷ "i3x_get_value"
          ∷ "i3x_get_history" ∷ [],
    )
    ∷ []

-- The architecture that has the tool, or `"unknown"`: no tool belongs to two.
unfoldable pub architecture_among : List (String × List String) → String → String
architecture_among [] tool = "unknown"
architecture_among ((architecture, tools) ∷ others) tool =
    let rest = architecture_among others tool in if contains tools tool then architecture else rest

unfoldable pub architecture_of : String → String
architecture_of tool = architecture_among architecture_tool_names tool

-- `dict.get` over texts.
unfoldable pub name_at : List (String × String) → String → Option String
name_at [] key = none
name_at ((k, v) ∷ names) key = let rest = name_at names key in if k == key then some v else rest

unfoldable pub display_name_of : Option String → List (String × String) → Option String
display_name_of none display_names = none
display_name_of (some node_id) display_names = name_at display_names node_id

module _ {N : Type 0} where
  -- A text that is not empty.
  unfoldable pub text_of_json : Option (Json N) → Option String
  text_of_json (some (str s)) = if s == "" then none else some s
  text_of_json _ = none

  unfoldable pub text_at : String → Fields N → Option String
  text_at key fields = text_of_json (get key fields)

  unfoldable pub objects_among : Items N → List (Fields N)
  objects_among nil = []
  objects_among (cons (obj fields) items) = fields ∷ objects_among items
  objects_among (cons _ items) = objects_among items

  unfoldable pub objects_of_json : Option (Json N) → List (Fields N)
  objects_of_json (some (arr items)) = objects_among items
  objects_of_json _ = []

  -- `result.get(key) or []`
  unfoldable pub objects_at : String → Fields N → List (Fields N)
  objects_at key fields = objects_of_json (get key fields)

  unfoldable pub object_of_json : Option (Json N) → List (Fields N)
  object_of_json (some (obj fields)) = fields ∷ []
  object_of_json _ = []

  -- The object at a key, if there is one.
  unfoldable pub object_at : String → Fields N → List (Fields N)
  object_at key fields = object_of_json (get key fields)

unfoldable pub ids_of : List (Option String) → List String
ids_of [] = []
ids_of (none ∷ ids) = ids_of ids
ids_of (some id ∷ ids) = id ∷ ids_of ids

-- The text after the first occurrence of a separator of one byte.
unfoldable pub after_first : String → String → Option String
after_first sep text = elim (find? text sep) [ none ↦ none | some i ↦ get? text (i + 1) (len text) ]

-- `InformationFlowAnalyzer` is given by the published names of the measurements, with their ids.
module _ (names : List (String × String)) where
  -- `self._name_to_canonical_id.get(display_name or "")`
  unfoldable pub id_of_name : Option String → Option String
  id_of_name none = name_at names ""
  id_of_name (some name) = name_at names name

  -- `_canonical_id_from_i3x_element_id`
  unfoldable pub canonical_id_from_i3x_element_id : Option String → Option String
  canonical_id_from_i3x_element_id none = none
  canonical_id_from_i3x_element_id (some element_id) = elim (after_first "!" element_id) [
    | none ↦ none
    | some path ↦ elim (after_first "." path) [
      | none ↦ none
      | some measurement_name ↦ name_at names measurement_name
    ]
  ]

  module _ {N : Type 0} where
    -- The names by node that an `opcua_browse` result adds, the later ones first.
    unfoldable pub with_node_names :
        List (Fields N) → List (String × String) → List (String × String)
    with_node_names [] display_names = display_names
    with_node_names (node ∷ nodes) display_names =
        with_node_names nodes
          (with_node_name (text_at "node_id" node) (text_at "display_name" node))
      where
        with_node_name : Option String → Option String → List (String × String)
        with_node_name (some id) (some name) = (id, name) ∷ display_names
        with_node_name _ _ = display_names

    -- `_discovered_ids`
    unfoldable pub measurement_id_of_node : Fields N → Option String
    measurement_id_of_node node =
        if text_at "node_type" node == some "measurement" then text_at "canonical_id" node else none

    unfoldable pub measurement_id_of_relationship : Fields N → Option String
    measurement_id_of_relationship relationship = elim (text_at "object" relationship) [
      | none ↦ none
      | some id ↦ if starts_with id "urn:icab:measurement:" then some id else none
    ]

    unfoldable pub related_object : Fields N → Option String
    related_object item = elim (object_at "object" item) [
      | [] ↦ none
      | object ∷ _ ↦ canonical_id_from_i3x_element_id (text_at "element_id" object)
    ]

    unfoldable pub discovered_ids : String → Fields N → List String
    discovered_ids tool result =
        if tool == "browse_uns"
        then ids_of (map measurement_id_of_node (objects_at "nodes" result))
        else if tool == "get_entity_relationships"
        then ids_of (map measurement_id_of_relationship (objects_at "relationships" result))
        else if tool == "opcua_browse"
        then ids_of
            (map (λ node. id_of_name (text_at "display_name" node)) (objects_at "nodes" result))
        else if tool == "i3x_get_objects"
        then ids_of (
            map (λ object. canonical_id_from_i3x_element_id (text_at "element_id" object))
              (objects_at "objects" result))
        else if tool == "i3x_get_related_objects"
        then ids_of (map related_object (objects_at "related_objects" result))
        else []

    unfoldable pub names_after : String → Fields N → List (String × String) → List (String × String)
    names_after tool result display_names =
        if tool == "opcua_browse"
        then with_node_names (objects_at "nodes" result) display_names
        else display_names

    -- `_acquired_ids`
    unfoldable pub acquired_ids : String → Fields N → List (String × String) → List String
    acquired_ids tool result display_names =
        if tool == "get_current_value"
        then ids_of (map (text_at "measurement_id") (object_at "observation" result))
        else if tool == "get_historical_values"
        then distinct (ids_of (map (text_at "measurement_id") (objects_at "observations" result)))
        else if tool == "read_mqtt"
        then ids_of (map (text_at "canonical_id") (object_at "message" result))
        else if tool == "opcua_read"
        then ids_of (id_of_name (display_name_of (text_at "node_id" result) display_names) ∷ [])
        else if contains ("i3x_get_value" ∷ "i3x_get_history" ∷ []) tool
        then ids_of (canonical_id_from_i3x_element_id (text_at "element_id" result) ∷ [])
        else []
