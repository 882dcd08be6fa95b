-- ===== src/Agent/Tools.antt =====
-- agent/llm/tools.py: the tools that an agent is given. Of a tool, its name is kept; its schema is
-- sent to the model provider.
use industrial_context_aware.Base.{
  ◌==◌, string_eq, String, List, [], ◌∷◌, ◌++◌, filter, contains, if◌then◌else◌, Result, ok, err,
  value_error, ◌>>=◌,
}
use industrial_context_aware.Evaluation.ToolResults.{architecture_tool_names}

-- The names of `AGENT_TOOLS`.
abbrev pub agent_tools : List String
agent_tools =
    "get_current_value" ∷ "get_historical_values" ∷ "get_entity_relationships" ∷ "browse_uns"
    ∷ "opcua_browse" ∷ "opcua_read" ∷ "browse_mqtt" ∷ "read_mqtt" ∷ "i3x_get_objects"
    ∷ "i3x_get_object" ∷ "i3x_get_related_objects" ∷ "i3x_get_value" ∷ "i3x_get_history" ∷ []

-- `ARCHITECTURE_TOOL_NAMES[architecture]`
unfoldable pub tools_under : String → List (String × List String) → Result (List String)
tools_under architecture [] = err value_error
tools_under architecture ((name, tools) ∷ rest) =
    let found = tools_under architecture rest in if name == architecture then ok tools else found

unfoldable pub allowed_names : List String → Result (List String)
allowed_names [] = ok []
allowed_names (architecture ∷ architectures) = do
  tools ← tools_under architecture architecture_tool_names
  others ← allowed_names architectures
  ok (tools ++ others)

unfoldable pub tools_for_architectures : List String → Result (List String)
tools_for_architectures architectures = do
  allowed ← allowed_names architectures
  ok (filter (contains allowed) agent_tools)
