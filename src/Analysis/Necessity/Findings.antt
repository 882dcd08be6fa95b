-- ===== src/Analysis/Necessity/Findings.antt =====
-- About `analyze_context_necessity` of analysis/necessity.py.
use mathlib.Core.List.{Memᴰ}
use industrial_context_aware.Base.{
  ℕ, ◌≡◌, refl, sym, ap, ◌∙◌, subst, ◌↔◌, Bool, true, false, not, String, Option, none, some, List,
  ◌<◌, ◌+◌, contains, is_empty, length, ok, map_ok, mem-map_ok, ok_inj, >>=-eq-ok, some-injective,
  arith, Eq,
}
use industrial_context_aware.Base.Float.{Float}
use industrial_context_aware.Analysis.Sufficiency.{records_for_use_case, tested_combination_ids}
use industrial_context_aware.Analysis.Necessity.{
  DimensionNecessityFinding, NecessityReport, ids_where, has_evidence, delta_if, side_of,
  finding_from, finding_on, analyze_scoped, analyze_context_necessity,
}
use industrial_context_aware.Context.Dimensions.{ContextDimension, dimension_eq}
use industrial_context_aware.Experiment.Models.{ExperimentRecord}
use industrial_context_aware.Tasks.UseCases.{IndustrialUseCase}
use industrial_context_aware.Analysis.Necessity.Partition.{
  IsOf, ids_where-mem, mem-ids_where, ids_where-length,
}

-- Of a combination whose dimensions include a given one, or leave it out.
abbrev pub Includes : ContextDimension → String → Type 0
Includes dimension = IsOf (λ dimensions. contains dimensions dimension)

abbrev pub Omits : ContextDimension → String → Type 0
Omits dimension = IsOf (λ dimensions. not (contains dimensions dimension))

module _ {N : Type 0} ⦃f : Float N⦄ where
  -- How a finding came about from the tested ids.
  record IsFound (tested : List String) (finding : DimensionNecessityFinding N) : Type 0 where
    included :
        ids_where (λ dimensions. contains dimensions finding.dimension) tested
        ≡ ok finding.tested_with_dimension
    omitted :
        ids_where (λ dimensions. not (contains dimensions finding.dimension)) tested
        ≡ ok finding.tested_without_dimension
    measured :
        finding.delta
        ≡ delta_if
            (has_evidence finding.tested_with_dimension finding.tested_without_dimension
              finding.n_with finding.n_without finding.mean_with finding.mean_without)
            finding.mean_with
            finding.mean_without

  finding_on-IsFound :
      ⦃e : Eq N⦄ (metric : String) (scoped : List (ExperimentRecord N)) (tested : List String)
      (dimension : ContextDimension) {finding : DimensionNecessityFinding N}
      → finding_on metric scoped tested dimension ≡ ok finding
      → IsFound tested finding
  unfolding finding_on finding_from
  finding_on-IsFound metric scoped tested dimension {finding} h =
      let (with_ids, h1, k1) = >>=-eq-ok (ids_where _ tested) _ h in
      let (without_ids, h2, k2) = >>=-eq-ok (ids_where _ tested) _ k1 in
      let (included, h3, k3) = >>=-eq-ok (side_of metric scoped with_ids) _ k2 in
      let (omitted, h4, last) = >>=-eq-ok (side_of metric scoped without_ids) _ k3 in
      subst (IsFound tested) (ok_inj last) (record { included = h1; omitted = h2; measured = refl })

  analyze-IsFound :
      ⦃e : Eq N⦄ (records : List (ExperimentRecord N)) (use_case : IndustrialUseCase N)
      (metric : String) (question_id : Option String) {report : NecessityReport N}
      {finding : DimensionNecessityFinding N}
      → analyze_context_necessity records use_case metric question_id ≡ ok report
      → Memᴰ finding report.findings
      → IsFound report.tested_combinations finding
  unfolding analyze_context_necessity analyze_scoped
  analyze-IsFound records use_case metric question_id {report} {finding} h m =
      let scoped = records_for_use_case records use_case.use_case_id question_id in
      let (tested, h1, k1) = >>=-eq-ok (tested_combination_ids scoped) _ h in
      let (findings, h2, last) =
        >>=-eq-ok (map_ok (finding_on metric scoped tested) use_case.candidate_context) _ k1 in
      let made = ok_inj last in
      let (dimension, n, found) =
        mem-map_ok (finding_on metric scoped tested) use_case.candidate_context h2
          (subst (Memᴰ finding) (sym (ap (λ (r : NecessityReport N). r.findings) made)) m) in
      subst (λ ids. IsFound ids finding)
        (ap (λ (r : NecessityReport N). r.tested_combinations) made)
        (finding_on-IsFound metric scoped tested dimension found)

  -- Each finding splits the tested combinations: an id is on the side with its dimension exactly if
  -- it was tested and its combination includes the dimension, on the other side exactly if it was
  -- tested and its combination leaves the dimension out, and the sides are as many as the tested ids.
  pub analyze_context_necessity-sides :
      ⦃e : Eq N⦄ (records : List (ExperimentRecord N)) (use_case : IndustrialUseCase N)
      (metric : String) (question_id : Option String) {report : NecessityReport N}
      {finding : DimensionNecessityFinding N} (id : String)
      → analyze_context_necessity records use_case metric question_id ≡ ok report
      → Memᴰ finding report.findings
      → (Memᴰ id finding.tested_with_dimension
          ↔ (Memᴰ id report.tested_combinations × Includes finding.dimension id))
        × (Memᴰ id finding.tested_without_dimension
            ↔ (Memᴰ id report.tested_combinations × Omits finding.dimension id))
        × (length finding.tested_with_dimension + length finding.tested_without_dimension
            ≡ length report.tested_combinations)
  analyze_context_necessity-sides records use_case metric question_id {report} {finding} id h m =
      let ids = report.tested_combinations in
      let includes : List ContextDimension → Bool =
        λ dimensions. contains dimensions finding.dimension in
      let omits : List ContextDimension → Bool = λ dimensions. not (includes dimensions) in
      let found = analyze-IsFound records use_case metric question_id h m in
      (
        (
          λ n. ids_where-mem includes ids found.included n,
          λ (n, there). mem-ids_where includes ids found.included n there,
        ),
        (
          λ n. ids_where-mem omits ids found.omitted n,
          λ (n, there). mem-ids_where omits ids found.omitted n there,
        ),
        ids_where-length includes ids found.included found.omitted,
      )

  delta_if-eq-some :
      (b : Bool) (v w : Option N) {d : N}
      → delta_if b v w ≡ some d
      → (b ≡ true) × (a : N) × (c : N) × (v ≡ some a) × (w ≡ some c) × (f.sub a c ≡ d)
  unfolding delta_if
  delta_if-eq-some true none w h = cc
  delta_if-eq-some true (some a) none h = cc
  delta_if-eq-some true (some a) (some c) {d} h =
      (refl, a, c, refl, refl, some-injective (f.sub a c) d h)
  delta_if-eq-some false v w h = cc

  evidence_runs :
      (xs ys : List String) (n k : ℕ) (v w : Option N)
      → has_evidence xs ys n k v w ≡ true
      → (is_empty xs ≡ false) × (is_empty ys ≡ false) × (0 < n) × (0 < k)
  unfolding has_evidence
  evidence_runs xs ys n k v w h = (ground arith, ground arith, ground arith, ground arith)

  -- A finding gives a difference only if a combination with its dimension and one without it were
  -- tested in a run at least, and it is then the difference of the means of the two sides.
  pub analyze_context_necessity-delta :
      ⦃e : Eq N⦄ (records : List (ExperimentRecord N)) (use_case : IndustrialUseCase N)
      (metric : String) (question_id : Option String) {report : NecessityReport N}
      {finding : DimensionNecessityFinding N} {d : N}
      → analyze_context_necessity records use_case metric question_id ≡ ok report
      → Memᴰ finding report.findings
      → finding.delta ≡ some d
      → (is_empty finding.tested_with_dimension ≡ false)
        × (is_empty finding.tested_without_dimension ≡ false)
        × (0 < finding.n_with)
        × (0 < finding.n_without)
        × ((a : N) × (c : N) × (finding.mean_with ≡ some a)
            × (finding.mean_without ≡ some c)
            × (f.sub a c ≡ d))
  analyze_context_necessity-delta records use_case metric question_id {report} {finding} h m given =
      let found = analyze-IsFound records use_case metric question_id h m in
      let (proved, a, c, e1, e2, e3) =
        delta_if-eq-some _ finding.mean_with finding.mean_without (sym found.measured ∙ given) in
      let (some_with, some_without, with_runs, without_runs) =
        evidence_runs _ _ finding.n_with finding.n_without finding.mean_with finding.mean_without
          proved in
      (some_with, some_without, with_runs, without_runs, (a, c, e1, e2, e3))
