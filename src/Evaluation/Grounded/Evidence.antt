-- ===== src/Evaluation/Grounded/Evidence.antt =====
-- About the evidence scores of evaluation/grounded.py: which ids count as retrieved, and the items
-- that are hits.
use mathlib.Core.List.Memᴰ
use mathlib.Core.List.{Memᴰ}
use industrial_context_aware.Base.{
  ◌≡◌, refl, sym, ap, ◌↔◌, ◌⊎◌, inl, inr, true, String, Option, none, some, List, [], ◌∷◌, map,
  contains, subst, some-injective, contains-mem, contains_of_mem, string_eq, Bool-cases, either_iff,
}
use industrial_context_aware.Base.Codes.{codes, lower, occurs}
use industrial_context_aware.Base.Json.{Fields}
use industrial_context_aware.Agent.Interface.{EvidenceReference, InvestigationResult}
use industrial_context_aware.Agent.Trace.{TraceEvent}
use industrial_context_aware.Evaluation.InformationFlow.{result_fields}
use industrial_context_aware.Evaluation.ToolResults.{text_at, objects_at, object_at, ids_of}
use industrial_context_aware.Evaluation.Observations.{
  value_bearing_tools, is_tool_of, ids_of_result, retrieved_by_event, retrieved_value_ids,
}
use industrial_context_aware.Evaluation.Mentions.{claimed_text}
use industrial_context_aware.Evaluation.Grounded.{is_hit}
use industrial_context_aware.Evaluation.Grounded.Relationships.{IsOf, is_tool_of_iff}

mem-ids_of : {x : String} (ids : List (Option String)) → Memᴰ x (ids_of ids) → Memᴰ (some x) ids
unfolding ids_of
mem-ids_of [] m = elim m [ ]
mem-ids_of {x} (none ∷ ids) m = Memᴰ.tail (mem-ids_of {x = x} ids m)
mem-ids_of {x} (some y ∷ ids) m = elim (Memᴰ.cases_cons m) [
  | inl e ↦ Memᴰ.head (ap some e)
  | inr n ↦ Memᴰ.tail (mem-ids_of {x = x} ids n)
]

ids_of-mem : {x : String} (ids : List (Option String)) → Memᴰ (some x) ids → Memᴰ x (ids_of ids)
unfolding ids_of
ids_of-mem [] m = elim m [ ]
ids_of-mem (none ∷ ids) m = elim (Memᴰ.cases_cons m) [ inl e ↦ cc | inr n ↦ ids_of-mem ids n ]
ids_of-mem {x} (some y ∷ ids) m = elim (Memᴰ.cases_cons m) [
  | inl e ↦ Memᴰ.head (some-injective x y e)
  | inr n ↦ Memᴰ.tail (ids_of-mem ids n)
]

module _ {N : Type 0} where
  -- The result carries an observation of the id, alone or in a list, or the element's value.
  abbrev pub Carries : String → Fields N → Type 0
  Carries id result =
      ((o : Fields N) × Memᴰ o (object_at "observation" result)
        × (text_at "measurement_id" o ≡ some id))
      ⊎ (((o : Fields N) × Memᴰ o (objects_at "observations" result)
            × (text_at "measurement_id" o ≡ some id))
          ⊎ (text_at "element_id" result ≡ some id))

  ids_of_result-Carries :
      {id : String} (result : Fields N) → Memᴰ id (ids_of_result result) → Carries id result
  unfolding ids_of_result
  ids_of_result-Carries {id} result m =
      elim (Memᴰ.append_cases
        (ids_of (map (text_at "measurement_id") (object_at "observation" result))) m) [
          | inl one ↦ inl (
              Memᴰ.of_map (text_at "measurement_id") (object_at "observation" result)
                (mem-ids_of _ one))
          | inr rest ↦
              elim (Memᴰ.append_cases
                (ids_of (map (text_at "measurement_id") (objects_at "observations" result))) rest) [
                  | inl many ↦ inr (
                      inl (
                        Memᴰ.of_map (text_at "measurement_id") (objects_at "observations" result)
                          (mem-ids_of _ many)))
                  | inr element ↦ inr (
                      inr (
                        sym (
                          Memᴰ.eq_of_singleton
                            (mem-ids_of {x = id} (text_at "element_id" result ∷ []) element))))
                ]
        ]

  -- A call of a value-bearing tool whose result carries the id.
  abbrev pub Retrieves : String → TraceEvent N → Type 0
  Retrieves id event = IsOf value_bearing_tools event × Carries id (result_fields event.result)

  retrieved_by_event-Retrieves :
      {id : String} (event : TraceEvent N) → Memᴰ id (retrieved_by_event event) → Retrieves id event
  unfolding retrieved_by_event
  retrieved_by_event-Retrieves {id} event m =
      elim (Bool-cases (is_tool_of value_bearing_tools event.tool)) [
        | inl yes_tool ↦ (
          (is_tool_of_iff value_bearing_tools event).0 yes_tool,
          ids_of_result-Carries {id = id} (result_fields event.result) (rw yes_tool at m),
        )
        | inr no_tool ↦ absurd (Memᴰ.not-nil (rw no_tool at m))
      ]

  retrieved_value_ids-Retrieves :
      {id : String} (trace : List (TraceEvent N))
      → Memᴰ id (retrieved_value_ids trace)
      → (event : TraceEvent N) × Memᴰ event trace × Retrieves id event
  unfolding retrieved_value_ids
  retrieved_value_ids-Retrieves [] m = elim m [ ]
  retrieved_value_ids-Retrieves {id} (event ∷ trace) m =
      elim (Memᴰ.append_cases (retrieved_by_event event) m) [
        | inl here ↦ (event, Memᴰ.head refl, retrieved_by_event-Retrieves {id = id} event here)
        | inr later ↦
            let (e, n, r) = retrieved_value_ids-Retrieves {id = id} trace later in
            (e, Memᴰ.tail n, r)
      ]

  Carries-ids_of_result :
      {id : String} (result : Fields N) → Carries id result → Memᴰ id (ids_of_result result)
  unfolding ids_of_result
  Carries-ids_of_result {id} result (inl (o, m, e)) =
      Memᴰ.append_left _ (ids_of-mem _ (Memᴰ.cast (sym e) (Memᴰ.map (text_at "measurement_id") m)))
  Carries-ids_of_result {id} result (inr (inl (o, m, e))) = Memᴰ.append_right _ (
      Memᴰ.append_left _ (ids_of-mem _ (Memᴰ.cast (sym e) (Memᴰ.map (text_at "measurement_id") m))))
  Carries-ids_of_result {id} result (inr (inr e)) = Memᴰ.append_right _ (
      Memᴰ.append_right _
        (ids_of-mem {x = id} (text_at "element_id" result ∷ []) (Memᴰ.head (sym e))))

  Retrieves-retrieved_by_event :
      {id : String} (event : TraceEvent N) → Retrieves id event → Memᴰ id (retrieved_by_event event)
  unfolding retrieved_by_event
  Retrieves-retrieved_by_event {id} event (is_tool, carried) =
      rw ((is_tool_of_iff value_bearing_tools event).1 is_tool)
        (Carries-ids_of_result (result_fields event.result) carried)

  Retrieves-retrieved_value_ids :
      {id : String} (trace : List (TraceEvent N)) {event : TraceEvent N}
      → Memᴰ event trace
      → Retrieves id event
      → Memᴰ id (retrieved_value_ids trace)
  unfolding retrieved_value_ids
  Retrieves-retrieved_value_ids [] m r = elim m [ ]
  Retrieves-retrieved_value_ids {id} (e ∷ trace) (Memᴰ.head same) r =
      Memᴰ.append_left _ (Retrieves-retrieved_by_event e (subst (Retrieves id) same r))
  Retrieves-retrieved_value_ids {id} (e ∷ trace) (Memᴰ.tail m) r =
      Memᴰ.append_right _ (Retrieves-retrieved_value_ids trace m r)

  module _ (result : InvestigationResult N) (trace : List (TraceEvent N)) where
    -- An item that the answer rests on.
    abbrev pub IsHit : String → Type 0
    IsHit item =
        (((event : TraceEvent N) × Memᴰ event trace × Retrieves item event)
          ⊎ ((e : EvidenceReference) × Memᴰ e result.evidence × (e.identifier ≡ item)))
        ⊎ (occurs (lower (codes item)) (claimed_text result) ≡ true)

    cited_iff :
        (item : String)
        → (contains (map (λ (e : EvidenceReference). e.identifier) result.evidence) item ≡ true)
          ↔ ((e : EvidenceReference) × Memᴰ e result.evidence × (e.identifier ≡ item))
    cited_iff item = (
      λ h.
          Memᴰ.of_map (λ (e : EvidenceReference). e.identifier) result.evidence
            (contains-mem item _ h),
      λ (e, m, same).
          contains_of_mem _
            (Memᴰ.cast (sym same) (Memᴰ.map (λ (e : EvidenceReference). e.identifier) m)),
    )

    pub is_hit_iff : (item : String) → (is_hit result trace item ≡ true) ↔ IsHit item
    unfolding is_hit
    is_hit_iff item =
        either_iff
          (either_iff
            (
              λ h.
                  retrieved_value_ids-Retrieves {id = item} trace
                    (contains-mem item (retrieved_value_ids trace) h),
              λ (e, m, r).
                  contains_of_mem (retrieved_value_ids trace)
                    (Retrieves-retrieved_value_ids {id = item} trace m r),
            )
            (cited_iff item))
          (λ h. h, λ h. h)
