-- ===== src/Analysis/Sufficiency/Report/Scored.antt =====
-- About `find_minimum_sufficient_context` of analysis/sufficiency.py.
use mathlib.Core.List.{Memᴰ}
use industrial_context_aware.Base.{
  not-true, ◌≡◌, refl, sym, ap, subst, ◌∙◌, Bool, true, false, ◌&&◌, string_eq, option_eq, ◌==◌, Eq,
  String, Option, none, some, List, [], ◌∷◌, filter, all-mem, ok, >>=-eq-ok, ok_inj, map_ok,
  mem-map_ok, map_ok-mem, all, arith,
}
use industrial_context_aware.Base.Comprehensions.{add_all, add_all-mem}
use industrial_context_aware.Base.Float.{Float}
use industrial_context_aware.Analysis.Sufficiency.{
  ConditionResult, records_for_use_case, tested_combination_ids, minimal_sufficient_conditions,
}
use industrial_context_aware.Analysis.Sufficiency.Minimal.{minimal_sufficient_conditions-minimal}
use industrial_context_aware.Analysis.Sufficiency.Report.{
  SufficiencyReport, options_for, scores_of, has_group, reaches, score_of, mean_under,
  condition_from, condition_result, report_on, find_minimum_sufficient_context,
}
use industrial_context_aware.Context.Combinations.{combination_for_id}
use industrial_context_aware.Experiment.Models.{ExperimentRecord}
use industrial_context_aware.Reporting.Aggregation.{
  aggregate_records, GroupSummary, AggregationReport,
}
use industrial_context_aware.Tasks.UseCases.{IndustrialUseCase}

module _ {N : Type 0} ⦃f : Float N⦄ where
  -- A score that was measured and is not below the threshold.
  abbrev pub Reaches : N → String × Option N → Type 0
  Reaches threshold score = (mean : N) × (score.1 ≡ some mean) × (f.lt mean threshold ≡ false)

  reaches-Reaches :
      (threshold : N) (name : String) (v : Option N)
      → reaches threshold v ≡ true
      → Reaches threshold (name, v)
  unfolding reaches
  reaches-Reaches threshold name none h = cc
  reaches-Reaches threshold name (some mean) h = (mean, refl, not-true h)

  -- The runs of the combination among the given records were aggregated into a group, and each of the
  -- names has a mean in the group's metrics, which is listed and not below the threshold.
  abbrev pub IsScored :
      ⦃e : Eq N⦄ → List String → N → List (ExperimentRecord N) → ConditionResult N → Type 0
  IsScored names threshold scoped c =
      (report : AggregationReport N) × (g : GroupSummary N) × (aggregate_records
          (filter (λ r. r.config.context_combination_id == some c.context_combination_id) scoped)
          (options_for names)
        ≡ ok report)
      × Memᴰ g report.groups
      × ((name : String)
          → Memᴰ name names
          → (mean : N) × (mean_under name g.metrics ≡ ok (some mean))
            × Memᴰ (name, some mean) c.scores
            × (f.lt mean threshold ≡ false))

  -- The scores that are read off the groups, where a group is there and all of them reach.
  scored_by_group :
      (names : List String) (threshold : N) (groups : List (GroupSummary N))
      {scores : List (String × Option N)}
      → scores_of names groups ≡ ok scores
      → has_group groups ≡ true
      → all (λ (score : String × Option N). reaches threshold score.1) scores ≡ true
      → (g : GroupSummary N) × Memᴰ g groups
        × ((name : String)
            → Memᴰ name names
            → (mean : N) × (mean_under name g.metrics ≡ ok (some mean))
              × Memᴰ (name, some mean) scores
              × (f.lt mean threshold ≡ false))
  unfolding scores_of has_group score_of
  scored_by_group names threshold [] h grouped reach = cc
  scored_by_group names threshold (g ∷ groups) {scores} h grouped reach = (
    g,
    Memᴰ.head refl,
    λ name m.
        let (entry, listed, made) = map_ok-mem (score_of g.metrics) names h m in
        let (found, there, last) = >>=-eq-ok (mean_under name g.metrics) _ made in
        let pair : (name, found) ≡ entry = ok_inj last in
        let listed_pair = subst (λ p. Memᴰ p scores) (sym pair) listed in
        let (mean, measured, above) = reaches-Reaches threshold name found (
          all-mem (λ (score : String × Option N). reaches threshold score.1) scores reach
            listed_pair) in
        (
          mean,
          there ∙ ap ok measured,
          subst (λ (v : Option N). Memᴰ (name, v) scores) measured listed_pair,
          above,
        ),
  )

  module _ ⦃e : Eq N⦄ where
    condition_result-IsScored :
        (names : List String) (threshold : N) (scoped : List (ExperimentRecord N)) (id : String)
        {c : ConditionResult N}
        → condition_result names threshold scoped id ≡ ok c
        → c.meets_threshold ≡ true
        → IsScored names threshold scoped c
    unfolding condition_result condition_from
    condition_result-IsScored names threshold scoped id {c} h meets =
        let records = filter (λ r. r.config.context_combination_id == some id) scoped in
        let (report, a, h1) = >>=-eq-ok (aggregate_records records (options_for names)) _ h in
        let (scores, b, h2) = >>=-eq-ok (scores_of (add_all names []) report.groups) _ h1 in
        let (combination, d, last) = >>=-eq-ok (combination_for_id id) _ h2 in
        let meeting = ap (λ (c : ConditionResult N). c.meets_threshold) (ok_inj last) ∙ meets in
        let (g, k, scored) =
          scored_by_group (add_all names []) threshold report.groups b
            (grouped (has_group report.groups) _ meeting)
            (passes (has_group report.groups) meeting) in
        subst (IsScored names threshold scoped) (ok_inj last)
          (report, g, a, k, λ name m. scored name (add_all-mem names [] m))
      where
        passes : (a : Bool) {b : Bool} → a && b ≡ true → b ≡ true
        passes a h = ground arith

        grouped : (a b : Bool) → a && b ≡ true → a ≡ true
        grouped a b h = ground arith

    report_on-candidates :
        (names : List String) (threshold : N) (use_case_id : String) (question_id : Option String)
        (scoped : List (ExperimentRecord N)) {report : SufficiencyReport N} {id : String}
        → report_on names threshold use_case_id question_id scoped ≡ ok report
        → Memᴰ id report.candidate_minimum_sufficient_contexts
        → (c : ConditionResult N) × Memᴰ c report.tested_conditions
          × (c.context_combination_id ≡ id)
          × IsScored names threshold scoped c
    unfolding report_on
    report_on-candidates names threshold use_case_id question_id scoped {report} {id} h m =
        let (tested, a, h1) = >>=-eq-ok (tested_combination_ids scoped) _ h in
        let (conditions, b, h2) =
          >>=-eq-ok (map_ok (condition_result names threshold scoped) tested) _ h1 in
        let (candidates, d, last) = >>=-eq-ok (minimal_sufficient_conditions conditions) _ h2 in
        let n : Memᴰ id candidates =
          subst (λ (r : SufficiencyReport N). Memᴰ id r.candidate_minimum_sufficient_contexts)
            (sym (ok_inj last)) m in
        let found = minimal_sufficient_conditions-minimal conditions candidates d id n in
        let (c, k, meets, named) = found.2 in
        let (of_id, l, made) = mem-map_ok (condition_result names threshold scoped) tested b k in
        (
          c,
          subst (λ (r : SufficiencyReport N). Memᴰ c r.tested_conditions) (ok_inj last) k,
          named,
          condition_result-IsScored names threshold scoped of_id made meets,
        )

    -- A combination that is reported as a minimal sufficient one was tested, its runs in the scope were
    -- aggregated, and each of the use case's binding scores has a mean over them, which the condition
    -- lists and which is not below the threshold.
    pub find_minimum_sufficient_context-IsScored :
        (records : List (ExperimentRecord N)) (use_case : IndustrialUseCase N)
        (question_id : Option String) {report : SufficiencyReport N} {id : String}
        → find_minimum_sufficient_context records use_case question_id ≡ ok report
        → Memᴰ id report.candidate_minimum_sufficient_contexts
        → (c : ConditionResult N) × Memᴰ c report.tested_conditions
          × (c.context_combination_id ≡ id)
          × IsScored use_case.success_criteria.binding_scores
              use_case.success_criteria.pass_threshold
              (records_for_use_case records use_case.use_case_id question_id)
              c
    unfolding find_minimum_sufficient_context
    find_minimum_sufficient_context-IsScored records use_case question_id h m =
        report_on-candidates use_case.success_criteria.binding_scores
          use_case.success_criteria.pass_threshold use_case.use_case_id question_id
          (records_for_use_case records use_case.use_case_id question_id) h m
