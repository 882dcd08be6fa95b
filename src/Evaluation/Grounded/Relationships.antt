-- ===== src/Evaluation/Grounded/Relationships.antt =====
-- About `_relationship_confirmed` of evaluation/grounded.py.
use mathlib.Core.List.{Memᴰ}
use industrial_context_aware.Base.{
  ◌≡◌, refl, ◌↔◌, ◌⊎◌, true, String, Option, none, some, List, any_iff, contains-mem,
  contains_of_mem, string_eq, option_eq, both_iff, either_iff, option_beq_iff,
}
use industrial_context_aware.Base.Json.{Fields}
use industrial_context_aware.Agent.Trace.{TraceEvent}
use industrial_context_aware.Evaluation.InformationFlow.{result_fields}
use industrial_context_aware.Evaluation.ToolResults.{objects_at}
use industrial_context_aware.Evaluation.Observations.{
  relationship_tools, is_tool_of, string_at, is_confirmation, confirms, relationship_confirmed,
}

is_tool_of-mem :
    (tools : List String) (tool : Option String)
    → is_tool_of tools tool ≡ true
    → (t : String) × (tool ≡ some t) × Memᴰ t tools
unfolding is_tool_of
is_tool_of-mem tools none h = cc
is_tool_of-mem tools (some t) h = (t, refl, contains-mem t tools h)

is_tool_of_of_mem :
    (tools : List String) {t : String} → Memᴰ t tools → is_tool_of tools (some t) ≡ true
unfolding is_tool_of
is_tool_of_of_mem tools m = contains_of_mem tools m

-- The event answers a call of one of the tools.
abbrev pub IsOf : {N : Type 0} → List String → TraceEvent N → Type 0
IsOf tools event = (t : String) × (event.tool ≡ some t) × Memᴰ t tools

pub is_tool_of_iff :
    {N : Type 0} (tools : List String) (event : TraceEvent N)
    → (is_tool_of tools event.tool ≡ true) ↔ IsOf tools event
is_tool_of_iff tools event =
    (is_tool_of-mem tools event.tool, λ (t, e, m). rw e (is_tool_of_of_mem tools m))

module _ {N : Type 0} (triple : String × String × String) (generation_id : Option String) where
  -- A relationship between the given ends, of the given generation where one is given.
  abbrev pub IsConfirmation : Fields N → Type 0
  IsConfirmation r =
      (string_at "subject" r ≡ some triple.0)
      × ((string_at "predicate" r ≡ some triple.1)
          × ((string_at "object" r ≡ some triple.2)
              × ((generation_id ≡ none) ⊎ (string_at "generation_id" r ≡ generation_id))))

  is_confirmation-lem :
      (r : Fields N) → (is_confirmation triple generation_id r ≡ true) ↔ IsConfirmation r
  unfolding is_confirmation
  is_confirmation-lem r = both_iff (option_beq_iff (string_at "subject" r) (some triple.0)) (
      both_iff (option_beq_iff (string_at "predicate" r) (some triple.1)) (
        both_iff (option_beq_iff (string_at "object" r) (some triple.2)) (
          either_iff (option_beq_iff generation_id none)
            (option_beq_iff (string_at "generation_id" r) generation_id))))

  -- A call of the relationship tool returned a confirmation.
  abbrev pub Confirms : TraceEvent N → Type 0
  Confirms event =
      IsOf relationship_tools event
      × ((r : Fields N) × Memᴰ r (objects_at "relationships" (result_fields event.result))
          × IsConfirmation r)

  confirms_iff :
      (event : TraceEvent N) → (confirms triple generation_id event ≡ true) ↔ Confirms event
  unfolding confirms
  confirms_iff event =
      both_iff (is_tool_of_iff relationship_tools event)
        (any_iff (is_confirmation triple generation_id) _ is_confirmation-lem)

  -- An expected relationship counts as confirmed exactly if some call of the relationship tool
  -- returned it, with the run's own generation where the run has one.
  pub relationship_confirmed_iff :
      (trace : List (TraceEvent N))
      → (relationship_confirmed triple generation_id trace ≡ true)
        ↔ ((event : TraceEvent N) × Memᴰ event trace × Confirms event)
  unfolding relationship_confirmed
  relationship_confirmed_iff trace = any_iff (confirms triple generation_id) trace confirms_iff
