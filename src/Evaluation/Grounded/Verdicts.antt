-- ===== src/Evaluation/Grounded/Verdicts.antt =====
-- About `_evaluate` of evaluation/grounded.py: what its scores below 1.0 say of the answer.
use mathlib.Core.List.Memᴰ
use mathlib.Core.List.{Memᴰ}
use industrial_context_aware.Base.{
  not-true, ℕ, ◌≤◌, ◌<◌, ◌≡◌, ap, ◌∙◌, ◌↔◌, inl, inr, Bool, true, false, not, String, Option, List,
  ◌++◌, map, ltb, length, length-map, length-filter-le, arith, Bool-cases, any_iff, filter,
  mem-filter, mem-filter_of_mem, string_eq, contains, contains-mem, contains_of_mem,
}
use industrial_context_aware.Base.Comprehensions.{dict_of, mem-dict_of, dict_of-mem, length-dict_of}
use industrial_context_aware.Base.Float.{Float}
use industrial_context_aware.Agent.Interface.{InvestigationResult, EvidenceReference}
use industrial_context_aware.Agent.Trace.{TraceEvent}
use industrial_context_aware.Evaluation.Report.{EvaluationReport, RelationshipCheck}
use industrial_context_aware.Evaluation.Patterns.{is_canonical_id}
use industrial_context_aware.Evaluation.Observations.{observed_numbers}
use industrial_context_aware.Evaluation.Grounded.{
  is_hit, canonical_ids, canonical_id_sources, check_relationship, unsupported_numbers,
  is_supported_number, numbers_of_text, tolerance, evaluate_against,
}
use industrial_context_aware.Evaluation.Grounded.Evidence.{IsHit, is_hit_iff}
use industrial_context_aware.Evaluation.Grounded.Relationships.{
  Confirms, relationship_confirmed_iff,
}
use industrial_context_aware.Evaluation.Grounded.Scores.{
  Failed, ratio_of-below_one_iff, grounding_score-below_one_iff,
}
use industrial_context_aware.Tasks.Scenarios.{ScenarioDifficulty, GroundTruth}

-- An entry of a dict comprehension fails exactly if an item does.
Failed-dict_of_iff :
    (p : String → Bool) (xs : List String)
    → Failed (dict_of p xs) ↔ ((x : String) × Memᴰ x xs × (p x ≡ false))
Failed-dict_of_iff p xs = (
  λ (hit, m, e).
      let (x, n, same) = mem-dict_of p xs m in (x, n, ap (λ (h : String × Bool). h.1) same ∙ e),
  λ (x, m, e). ((x, p x), dict_of-mem p xs m, e),
)

abbrev is_canonical_source : EvidenceReference → Bool
is_canonical_source e = contains canonical_id_sources e.source

not_iff : {P : Type 0} {b : Bool} → (b ≡ true) ↔ P → (b ≡ false) ↔ (P → ⊥)
not_iff {P} {b} h = (
  λ e p. absurd (cc (e, h.1 p)),
  λ k. elim (Bool-cases b) [ inl t ↦ absurd (k (h.0 t)) | inr e ↦ e ],
)

module _ {N : Type 0} ⦃f : Float N⦄ (limit : ℕ)
    (ratio_below_one : (h n : ℕ)
      → h ≤ n
      → 0 < n
      → n ≤ limit
      → f.lt (f.ratio h n) (f.of_nat 1) ≡ ltb h n)
    (one_not_below : f.lt (f.of_nat 1) (f.of_nat 1) ≡ false) (result : InvestigationResult N)
    (trace : List (TraceEvent N)) (scenario_id : String) (task_id generation_id : Option String)
    (truth : GroundTruth) (difficulty : ScenarioDifficulty) where
  abbrev report : EvaluationReport N
  report = evaluate_against result trace scenario_id task_id truth difficulty generation_id

  -- The evidence score is below 1.0 exactly if an expected item was neither retrieved by a
  -- value-bearing call of the trace, nor cited as evidence, nor named in the objective or conclusion.
  pub required_evidence_score-below_one_iff :
      length truth.expected_evidence ≤ limit
      → (f.lt report.required_evidence_score (f.of_nat 1) ≡ true)
        ↔ ((item : String) × Memᴰ item truth.expected_evidence × (IsHit result trace item → ⊥))
  unfolding evaluate_against
  required_evidence_score-below_one_iff small =
      let score =
        ratio_of-below_one_iff N limit ratio_below_one one_not_below
          (dict_of (is_hit result trace) truth.expected_evidence)
          (omega (arith, small, length-dict_of (is_hit result trace) truth.expected_evidence)) in
      let entry = Failed-dict_of_iff (is_hit result trace) truth.expected_evidence in
      (
        λ h.
            let (item, m, e) = entry.0 (score.0 h) in
            (item, m, (not_iff (is_hit_iff result trace item)).0 e),
        λ (item, m, missed).
            score.1 (entry.1 (item, m, (not_iff (is_hit_iff result trace item)).1 missed)),
      )

  unconfirmed_iff :
      (triple : String × String × String)
      → ((check_relationship result trace generation_id triple).confirmed ≡ false)
        ↔ (((event : TraceEvent N) × Memᴰ event trace × Confirms triple generation_id event) → ⊥)
  unfolding check_relationship
  unconfirmed_iff triple = not_iff (relationship_confirmed_iff triple generation_id trace)

  -- The relationship score is below 1.0 exactly if no call of the relationship tool returned some
  -- expected relationship, in the run's generation.
  pub relationship_score-below_one_iff :
      length truth.expected_relationships ≤ limit
      → (f.lt report.relationship_score (f.of_nat 1) ≡ true) ↔ (
          (triple : String × String × String) × Memᴰ triple truth.expected_relationships
          × (((event : TraceEvent N) × Memᴰ event trace × Confirms triple generation_id event) → ⊥))
  unfolding evaluate_against
  relationship_score-below_one_iff small =
      let check = check_relationship result trace generation_id in
      let triples = truth.expected_relationships in
      let pair : RelationshipCheck → RelationshipCheck × Bool = λ c. (c, c.confirmed) in
      let score =
        ratio_of-below_one_iff N limit ratio_below_one one_not_below (map pair (map check triples))
          (omega (arith, small, length-map pair (map check triples), length-map check triples)) in
      (
        λ h.
            let (hit, m, e) = score.0 h in
            let (c, n, paired) = Memᴰ.of_map pair (map check triples) m in
            let (t, k, checked) = Memᴰ.of_map check triples n in
            (
              t,
              k,
              (unconfirmed_iff t).0 (
                  ap (λ (c : RelationshipCheck). c.confirmed) checked
                  ∙ (ap (λ (h : RelationshipCheck × Bool). h.1) paired ∙ e)),
            ),
        λ (t, m, missed).
            score.1
              (pair (check t), Memᴰ.map pair (Memᴰ.map check m), (unconfirmed_iff t).1 missed),
      )

  length-canonical_ids : length (canonical_ids result trace) ≤ length result.evidence
  unfolding canonical_ids
  length-canonical_ids = omega (
    arith,
    length-map (λ (e : EvidenceReference). e.identifier)
        (filter is_canonical_source result.evidence),
    length-filter-le is_canonical_source result.evidence,
  )

  mem-canonical_ids :
      {id : String}
      → Memᴰ id (canonical_ids result trace)
      → (e : EvidenceReference) × Memᴰ e result.evidence
        × Memᴰ e.source canonical_id_sources
        × (e.identifier ≡ id)
  unfolding canonical_ids
  mem-canonical_ids m =
      let (e, n, same) =
        Memᴰ.of_map (λ (e : EvidenceReference). e.identifier)
          (filter is_canonical_source result.evidence) m in
      let (cited, from) = mem-filter is_canonical_source result.evidence n in
      (e, cited, contains-mem e.source canonical_id_sources from, same)

  canonical_ids-mem :
      {e : EvidenceReference}
      → Memᴰ e result.evidence
      → Memᴰ e.source canonical_id_sources
      → Memᴰ e.identifier (canonical_ids result trace)
  unfolding canonical_ids
  canonical_ids-mem cited from =
      Memᴰ.map (λ (e : EvidenceReference). e.identifier)
        (mem-filter_of_mem is_canonical_source result.evidence cited
          (contains_of_mem canonical_id_sources from))

  -- The score of ids is below 1.0 exactly if an id cited from a tool with canonical ids is none.
  pub canonical_id_score-below_one_iff :
      length result.evidence ≤ limit
      → (f.lt report.canonical_id_score (f.of_nat 1) ≡ true) ↔ (
          (e : EvidenceReference) × Memᴰ e result.evidence
          × Memᴰ e.source canonical_id_sources
          × (is_canonical_id e.identifier ≡ false))
  unfolding evaluate_against
  canonical_id_score-below_one_iff small =
      let ids = canonical_ids result trace in
      let score =
        ratio_of-below_one_iff N limit ratio_below_one one_not_below (dict_of is_canonical_id ids)
          (omega (arith, small, length-dict_of is_canonical_id ids, length-canonical_ids)) in
      let entry = Failed-dict_of_iff is_canonical_id ids in
      (
        λ h.
            let (id, m, bad) = entry.0 (score.0 h) in
            let (e, cited, from, same) = mem-canonical_ids m in
            (e, cited, from, ap is_canonical_id same ∙ bad),
        λ (e, cited, from, bad).
            score.1 (entry.1 (e.identifier, canonical_ids-mem cited from, bad)),
      )

module _ {N : Type 0} ⦃f : Float N⦄ (result : InvestigationResult N)
    (trace : List (TraceEvent N)) where
  -- A value that the answer may cite: one of the trace or of the objective, within the tolerance.
  abbrev pub IsSupported : N → Type 0
  IsSupported number =
      (value : N) × Memᴰ value (observed_numbers trace ++ numbers_of_text result.objective)
      × (f.le (f.abs (f.sub number value)) (tolerance number) ≡ true)

  pub IsSupported-iff :
      (number : N)
      → (is_supported_number (observed_numbers trace ++ numbers_of_text result.objective) number
          ≡ true)
        ↔ IsSupported number
  unfolding is_supported_number
  IsSupported-iff number =
      any_iff (λ value. f.le (f.abs (f.sub number value)) (tolerance number)) _
        (λ value. (λ h. h, λ h. h))

module _ {N : Type 0} ⦃f : Float N⦄ (limit : ℕ)
    (rest_below_one : (u n : ℕ)
      → u ≤ n
      → 0 < n
      → n ≤ limit
      → f.lt (f.sub (f.of_nat 1) (f.ratio u n)) (f.of_nat 1) ≡ ltb 0 u)
    (one_not_below : f.lt (f.of_nat 1) (f.of_nat 1) ≡ false) (result : InvestigationResult N)
    (trace : List (TraceEvent N)) (scenario_id : String) (task_id generation_id : Option String)
    (truth : GroundTruth) (difficulty : ScenarioDifficulty) where
  -- The grounding is below 1.0 exactly if the conclusion has a number that is near no number of the
  -- trace and near none of the objective.
  pub grounding_score-unsupported_iff :
      length (numbers_of_text {N = N} result.conclusion) ≤ limit
      → (f.lt
            (evaluate_against result trace scenario_id task_id truth difficulty
              generation_id).grounding_score
            (f.of_nat 1)
          ≡ true)
        ↔ ((number : N) × Memᴰ number (numbers_of_text result.conclusion)
            × (IsSupported result trace number → ⊥))
  unfolding evaluate_against unsupported_numbers
  grounding_score-unsupported_iff small =
      let observed = observed_numbers trace ++ numbers_of_text result.objective in
      let score =
        grounding_score-below_one_iff limit rest_below_one one_not_below
          (λ n. not (is_supported_number observed n)) (numbers_of_text result.conclusion) small in
      (
        λ h.
            let (n, m, e) = score.0 h in
            (n, m, (not_iff (IsSupported-iff result trace n)).0 (not-true e)),
        λ (n, m, e). score.1 (n, m, ap not ((not_iff (IsSupported-iff result trace n)).1 e)),
      )
