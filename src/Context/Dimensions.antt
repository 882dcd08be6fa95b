-- ===== src/Context/Dimensions.antt =====
-- tasks/context_dimensions.py: the seven dimensions, and which architectures supply them.
pub mod Coverage
use industrial_context_aware.Base.{
  ℕ, ◌≡◌, refl, ◌↔◌, Bool, true, false, ◌&&◌, String, List, [], ◌∷◌, ◌++◌, arith, Eq, ◌==◌,
  string_eq, nat_beq, nat_beq_iff, any, filter, contains, not, is_empty,
}

pub data ContextDimension : Type 0 where
  c1_semantic c2_asset_hierarchy c3_relational c4_temporal : ContextDimension
  c5_operational c6_procedural c7_historical : ContextDimension

-- The enum's value.
unfoldable pub value : ContextDimension → String
value c1_semantic = "C1"
value c2_asset_hierarchy = "C2"
value c3_relational = "C3"
value c4_temporal = "C4"
value c5_operational = "C5"
value c6_procedural = "C6"
value c7_historical = "C7"

-- `CONTEXT_DIMENSION_LABELS`
unfoldable pub label : ContextDimension → String
label c1_semantic = "Semantic"
label c2_asset_hierarchy = "Asset/Hierarchy"
label c3_relational = "Relational"
label c4_temporal = "Temporal"
label c5_operational = "Operational"
label c6_procedural = "Procedural"
label c7_historical = "Historical"

-- The position in the enum's declaration.
abbrev index : ContextDimension → ℕ
index c1_semantic = 0
index c2_asset_hierarchy = 1
index c3_relational = 2
index c4_temporal = 3
index c5_operational = 4
index c6_procedural = 5
index c7_historical = 6

pub dimension_beq_iff : (a b : ContextDimension) → (nat_beq (index a) (index b) ≡ true) ↔ (a ≡ b)
dimension_beq_iff a b = ground arith

instance abbrev pub dimension_eq : Eq ContextDimension
dimension_eq = record { beq = λ a b. nat_beq (index a) (index b); beq_iff = dimension_beq_iff }

-- `CANONICAL_DIMENSION_ORDER`, which is `tuple(ContextDimension)`.
abbrev pub canonical_dimension_order : List ContextDimension
canonical_dimension_order =
    c1_semantic ∷ c2_asset_hierarchy ∷ c3_relational ∷ c4_temporal ∷ c5_operational ∷ c6_procedural
    ∷ c7_historical ∷ []

-- `CONTEXT_DIMENSION_ARCHITECTURES`
unfoldable pub architectures_supporting : ContextDimension → List String
architectures_supporting c1_semantic = "uns" ∷ "i3x" ∷ []
architectures_supporting c2_asset_hierarchy = "uns" ∷ "opcua" ∷ "i3x" ∷ "knowledge_graph" ∷ []
architectures_supporting c3_relational = "knowledge_graph" ∷ "i3x" ∷ []
architectures_supporting c4_temporal = "historian" ∷ "i3x" ∷ []
architectures_supporting c5_operational = "historian" ∷ "mqtt" ∷ "opcua" ∷ "i3x" ∷ []
architectures_supporting c6_procedural = "knowledge_graph" ∷ "i3x" ∷ []
architectures_supporting c7_historical = "historian" ∷ "i3x" ∷ []

-- `CONTEXT_DIMENSION_ARCHITECTURES[dimension] & available` is not empty.
unfoldable pub is_supported : List String → ContextDimension → Bool
is_supported available d = any (contains available) (architectures_supporting d)

unfoldable pub unsupported_dimensions : List ContextDimension → List String → List ContextDimension
unsupported_dimensions required available = filter (λ d. not (is_supported available d)) required

unfoldable pub provided_dimensions : List String → List ContextDimension
provided_dimensions architectures = filter (is_supported architectures) canonical_dimension_order
