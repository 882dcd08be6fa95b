-- ===== src/Experiment/Presets.antt =====
-- experiments/architecture_combinations.py: the named presets of available architectures. The texts
-- of `rationale` are left out.
pub mod Lookup
use industrial_context_aware.Base.{
  String, Option, none, some, List, [], ◌∷◌, map, find, ◌==◌, string_eq, Result, ok, err, key_error,
}
use industrial_context_aware.Base.Sort.{sort, str_lt}

pub record ArchitectureCombination : Type 0 where
  pub key : String
  pub label : String
  pub architectures : List String

abbrev preset : String → String → List String → ArchitectureCombination
preset key label architectures = record { key = key; label = label; architectures = architectures }

abbrev pub architecture_combinations : List ArchitectureCombination
architecture_combinations =
    preset "historian_only" "Historian" ("historian" ∷ [])
    ∷ preset "uns_mqtt" "UNS + MQTT" ("uns" ∷ "mqtt" ∷ [])
    ∷ preset "opcua_historian" "OPC UA + Historian" ("opcua" ∷ "historian" ∷ [])
    ∷ preset "i3x_historian" "i3X + Historian" ("i3x" ∷ "historian" ∷ [])
    ∷ preset "kg_historian" "Knowledge Graph + Historian" ("knowledge_graph" ∷ "historian" ∷ [])
    ∷ preset "uns_historian_kg" "UNS + Historian + Knowledge Graph"
        ("uns" ∷ "historian" ∷ "knowledge_graph" ∷ [])
    ∷ preset "mqtt_uns_historian" "MQTT + UNS + Historian" ("mqtt" ∷ "uns" ∷ "historian" ∷ [])
    ∷ preset "full" "Full contextual architecture"
        ("mqtt" ∷ "uns" ∷ "opcua" ∷ "i3x" ∷ "historian" ∷ "knowledge_graph" ∷ [])
    ∷ []

unfoldable pub found_preset : Option ArchitectureCombination → Result ArchitectureCombination
found_preset none = err key_error
found_preset (some c) = ok c

unfoldable pub get_combination : String → Result ArchitectureCombination
get_combination key = found_preset (find (λ c. c.key == key) architecture_combinations)

unfoldable pub list_combination_keys : List String
list_combination_keys = sort str_lt (map (λ c. c.key) architecture_combinations)
