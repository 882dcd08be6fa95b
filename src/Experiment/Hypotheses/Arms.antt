-- ===== src/Experiment/Hypotheses/Arms.antt =====
-- About `evaluate_all_hypotheses` and `evaluate_hypothesis` of experiments/hypotheses.py.
use mathlib.Core.List.Memᴰ
use mathlib.Core.List.{Memᴰ}
use industrial_context_aware.Base.{
  All, ◌≡◌, refl, sym, ap, subst, ◌∙◌, Bool, true, ◌&&◌, string_eq, String, Option, none, some,
  List, [], ◌∷◌, map, filter, mem-filter, ok, >>=-eq-ok, ok_inj, map_ok, arith, inl, inr, ◌⊎◌, ◌↔◌,
}
use industrial_context_aware.Base.Float.{Float}
use industrial_context_aware.Evaluation.Report.{EvaluationReport, InformationFlowReport}
use industrial_context_aware.Experiment.Models.{ExperimentRecord, is_usable_record}
use industrial_context_aware.Experiment.Metrics.{
  metric_value, synthetic_metric, flow_metric, evaluation_metric, attribute_named,
  evaluation_attributes, flow_attributes, attribute_or, some_float, to_float, flow_field,
}
use industrial_context_aware.Experiment.Hypotheses.{
  HypothesisSpec, HypothesisTestResult, hypothesis_specs, is_in_arm, with_value, values_along,
  arm_values, mean_of, difference, direction, test_result, evaluate_hypothesis,
  evaluate_all_hypotheses,
}

module _ (N : Type 0) ⦃f : Float N⦄ where
  -- A metric that every record resolves, to a value or to none.
  abbrev Resolves : String → Type 0
  Resolves metric = (r : ExperimentRecord N) → (v : Option N) × (metric_value r metric ≡ ok v)

  correctness :
      (o : Option (EvaluationReport N))
      → (v : Option N) × (evaluation_metric "conclusion_correctness_score" o ≡ ok v)
  unfolding evaluation_metric attribute_named evaluation_attributes attribute_or some_float to_float
  correctness none = (none, refl)
  correctness (some e) = (some e.conclusion_correctness_score, refl)

  tool_calls :
      (o : Option (EvaluationReport N))
      → (v : Option N) × (evaluation_metric "tool_call_count" o ≡ ok v)
  unfolding evaluation_metric attribute_named evaluation_attributes attribute_or some_float to_float
  tool_calls none = (none, refl)
  tool_calls (some e) = (some (f.of_nat e.tool_call_count), refl)

  relationships :
      (o : Option (EvaluationReport N))
      → (v : Option N) × (evaluation_metric "relationship_score" o ≡ ok v)
  unfolding evaluation_metric attribute_named evaluation_attributes attribute_or some_float to_float
  relationships none = (none, refl)
  relationships (some e) = (some e.relationship_score, refl)

  redundancy :
      (o : Option InformationFlowReport)
      → (v : Option N) × (flow_metric "information_flow.redundant_acquisition_count" o ≡ ok v)
  unfolding flow_metric flow_field attribute_named flow_attributes attribute_or some_float to_float
  redundancy none = (none, refl)
  redundancy (some i) = (some (f.of_nat i.redundant_acquisition_count), refl)

  unsupported :
      (o : Option (EvaluationReport N))
      → (v : Option N) × (synthetic_metric "unsupported_numeric_claims_count" o ≡ ok v)
  unfolding synthetic_metric
  unsupported none = (none, refl)
  unsupported (some e) = (_, refl)

  Resolves-of_spec : All (λ (s : HypothesisSpec). Resolves s.metric) hypothesis_specs
  unfolding hypothesis_specs metric_value
  Resolves-of_spec = (
    λ r. correctness r.evaluation,
    (
      λ r. tool_calls r.evaluation,
      (
        λ r. relationships r.evaluation,
        (λ r. redundancy r.information_flow, (λ r. unsupported r.evaluation, tt)),
      ),
    ),
  )

  values_along_total :
      (metric : String)
      → Resolves metric
      → (records : List (ExperimentRecord N))
      → (vs : List (String × N)) × (values_along metric records ≡ ok vs)
  unfolding values_along
  values_along_total metric resolves [] = ([], refl)
  values_along_total metric resolves (r ∷ records) =
      let (v, here) = resolves r in
      let (rest, there) = values_along_total metric resolves records in
      (with_value r.run_id v rest, rw (here, there) refl)

  evaluate_hypothesis_total :
      (s : HypothesisSpec)
      → Resolves s.metric
      → (records : List (ExperimentRecord N))
      → (result : HypothesisTestResult N) × (evaluate_hypothesis s records ≡ ok result)
        × (result.hypothesis ≡ s.id)
  unfolding evaluate_hypothesis arm_values test_result
  evaluate_hypothesis_total s resolves records =
      let (t, treated) =
        values_along_total s.metric resolves
          (filter (λ r. is_usable_record r && is_in_arm s.treatment_combinations r) records) in
      let (c, controlled) =
        values_along_total s.metric resolves
          (filter (λ r. is_usable_record r && is_in_arm s.control_combinations r) records) in
      (test_result s t c, rw (treated, controlled) refl, refl)

  evaluate_total :
      (specs : List HypothesisSpec)
      → All (λ (s : HypothesisSpec). Resolves s.metric) specs
      → (records : List (ExperimentRecord N))
      → (results : List (HypothesisTestResult N)) × (map_ok
            (λ s. evaluate_hypothesis s records)
            specs
          ≡ ok results)
        × (map (λ (h : HypothesisTestResult N). h.hypothesis) results
            ≡ map (λ (s : HypothesisSpec). s.id) specs)
  evaluate_total [] resolve records = ([], refl, refl)
  evaluate_total (s ∷ specs) resolve records =
      let (result, here, id) = evaluate_hypothesis_total s resolve.0 records in
      let (results, there, ids) = evaluate_total specs resolve.1 records in
      (result ∷ results, rw (here, there) refl, λ i. id i ∷ ids i)

  -- Whatever the records are, failed runs and runs without a report included, the five hypotheses are
  -- evaluated without an exception.
  pub evaluate_all_hypotheses_total :
      (records : List (ExperimentRecord N))
      → (results : List (HypothesisTestResult N)) × (evaluate_all_hypotheses records ≡ ok results)
        × (map (λ (h : HypothesisTestResult N). h.hypothesis) results
            ≡ map (λ (s : HypothesisSpec). s.id) hypothesis_specs)
  unfolding evaluate_all_hypotheses
  evaluate_all_hypotheses_total records = evaluate_total hypothesis_specs Resolves-of_spec records

-- The arms of one comparison.
module _ {N : Type 0} ⦃f : Float N⦄ where
  with_value-mem :
      (id : String) (v : Option N) (rest : List (String × N)) {p : String × N}
      → Memᴰ p (with_value id v rest)
      → ((id ≡ p.0) × (v ≡ some p.1)) ⊎ Memᴰ p rest
  unfolding with_value
  with_value-mem id none rest m = inr m
  with_value-mem id (some v) rest m = elim (Memᴰ.cases_cons m) [
    | inl e ↦ inl (ap (λ (q : String × N). q.0) (sym e), ap (λ (q : String × N). some q.1) (sym e))
    | inr n ↦ inr n
  ]

  values_along-mem :
      (metric : String) (records : List (ExperimentRecord N)) {vs : List (String × N)}
      {p : String × N}
      → values_along metric records ≡ ok vs
      → Memᴰ p vs
      → (r : ExperimentRecord N) × Memᴰ r records
        × (r.run_id ≡ p.0)
        × (metric_value r metric ≡ ok (some p.1))
  unfolding values_along
  values_along-mem metric [] {vs} {p} h m =
      absurd (Memᴰ.not-nil (subst (Memᴰ p) (sym (ok_inj h)) m))
  values_along-mem metric (r ∷ records) {vs} {p} h m =
      let (v, here, later) = >>=-eq-ok (metric_value r metric) _ h in
      let (rest, there, last) = >>=-eq-ok (values_along metric records) _ later in
      elim (with_value-mem r.run_id v rest (subst (Memᴰ p) (sym (ok_inj last)) m)) [
        | inl (own, valued) ↦ (r, Memᴰ.head refl, own, here ∙ ap ok valued)
        | inr old ↦
            let (s, n, e, k) = values_along-mem metric records {p = p} there old in
            (s, Memᴰ.tail n, e, k)
      ]

  -- What a listed run of an arm stands for: a given record of the arm that is valid and completed, and
  -- that has a value of the metric.
  abbrev pub IsListed : List (ExperimentRecord N) → List String → String → String → N → Type 0
  IsListed records combinations metric id v =
      (r : ExperimentRecord N) × Memᴰ r records
      × (r.run_id ≡ id)
      × (is_usable_record r ≡ true)
      × (is_in_arm combinations r ≡ true)
      × (metric_value r metric ≡ ok (some v))

  arm_values-IsListed :
      (records : List (ExperimentRecord N)) (combinations : List String) (metric : String)
      {vs : List (String × N)} {p : String × N}
      → arm_values records combinations metric ≡ ok vs
      → Memᴰ p vs
      → IsListed records combinations metric p.0 p.1
  unfolding arm_values
  arm_values-IsListed records combinations metric {vs} {p} h m =
      let (r, k, own, valued) =
        values_along-mem metric
          (filter (λ r. is_usable_record r && is_in_arm combinations r) records) {p = p} h m in
      let (inside, kept) =
        mem-filter (λ r. is_usable_record r && is_in_arm combinations r) records k in
      (r, inside, own, ground arith, ground arith, valued)

  -- Each run that the treatment arm lists is a given record of the treatment's combinations, valid and
  -- completed, with the value of the metric that is listed in the same place, and each run that the
  -- control arm lists is such a record of the control's combinations.
  pub evaluate_hypothesis-arms :
      (s : HypothesisSpec) (records : List (ExperimentRecord N)) {result : HypothesisTestResult N}
      → evaluate_hypothesis s records ≡ ok result
      → ((t : List (String × N)) × (result.treatment_run_ids ≡ map (λ (p : String × N). p.0) t)
          × (result.treatment_values ≡ map (λ (p : String × N). p.1) t)
          × ((p : String × N)
              → Memᴰ p t
              → IsListed records s.treatment_combinations s.metric p.0 p.1))
        × ((c : List (String × N)) × (result.control_run_ids ≡ map (λ (p : String × N). p.0) c)
            × (result.control_values ≡ map (λ (p : String × N). p.1) c)
            × ((p : String × N)
                → Memᴰ p c
                → IsListed records s.control_combinations s.metric p.0 p.1))
  unfolding evaluate_hypothesis test_result
  evaluate_hypothesis-arms s records {result} h =
      let (t, treated, h1) = >>=-eq-ok (arm_values records s.treatment_combinations s.metric) _ h in
      let (c, controlled, last) =
        >>=-eq-ok (arm_values records s.control_combinations s.metric) _ h1 in
      let made = sym (ok_inj last) in
      (
        (
          t,
          ap (λ (x : HypothesisTestResult N). x.treatment_run_ids) made,
          ap (λ (x : HypothesisTestResult N). x.treatment_values) made,
          λ p m. arm_values-IsListed records s.treatment_combinations s.metric {p = p} treated m,
        ),
        (
          c,
          ap (λ (x : HypothesisTestResult N). x.control_run_ids) made,
          ap (λ (x : HypothesisTestResult N). x.control_values) made,
          λ p m. arm_values-IsListed records s.control_combinations s.metric {p = p} controlled m,
        ),
      )

  direction_iff :
      (higher : Bool) (ts cs : List N)
      → (direction higher (difference (mean_of ts) (mean_of cs)) ≡ none) ↔ ((ts ≡ []) ⊎ (cs ≡ []))
  unfolding direction difference mean_of
  direction_iff higher [] cs = (λ h. inl refl, λ h. refl)
  direction_iff higher (t ∷ ts) [] = (λ h. inr refl, λ h. refl)
  direction_iff higher (t ∷ ts) (c ∷ cs) = (λ h. cc, λ h. elim h [ inl e ↦ cc | inr e ↦ cc ])

  -- No direction is reported exactly if an arm has no value.
  pub evaluate_hypothesis-direction_iff :
      (s : HypothesisSpec) (records : List (ExperimentRecord N)) {result : HypothesisTestResult N}
      → evaluate_hypothesis s records ≡ ok result
      → (result.direction_supports_hypothesis ≡ none)
        ↔ ((result.treatment_values ≡ []) ⊎ (result.control_values ≡ []))
  unfolding evaluate_hypothesis test_result
  evaluate_hypothesis-direction_iff s records h =
      let (t, treated, h1) = >>=-eq-ok (arm_values records s.treatment_combinations s.metric) _ h in
      let (c, controlled, last) =
        >>=-eq-ok (arm_values records s.control_combinations s.metric) _ h1 in
      subst
        (λ (x : HypothesisTestResult N).
          (x.direction_supports_hypothesis ≡ none)
          ↔ ((x.treatment_values ≡ []) ⊎ (x.control_values ≡ [])))
        (ok_inj last)
        (direction_iff s.higher_is_better (map (λ (p : String × N). p.1) t)
          (map (λ (p : String × N). p.1) c))
