-- ===== src/Reporting/Aggregation/Groups.antt =====
-- About the groups of `aggregate_records` in reporting/aggregation.py.
use mathlib.Core.List.{Memᴰ, append-nil, append_assoc}
use industrial_context_aware.Base.{
  ◌+◌, ◌-◌, ◌≤◌, ◌≡◌, refl, sym, ap, subst, ◌∙◌, Bool, false, ◌==◌, list_eq, string_eq, Eq, String,
  true, List, [], ◌∷◌, ◌++◌, map, filter, length, sum_by, count_if-complement, length-filter-le,
  length-map, Result, ok, err, >>=-eq-ok, ok_inj, map_ok, mem-map_ok, arith, Bool-cases, inl, inr,
}
use industrial_context_aware.Base.Additions.{AllDifferent}
use industrial_context_aware.Base.Comprehensions.{add_all}
use industrial_context_aware.Base.Dict.{keys}
use industrial_context_aware.Base.Float.{Float}
use industrial_context_aware.Base.Grouping.{
  append_at, entry_at, entry_at-append_at, entry_at_of_mem, total, total-append_at,
  append_at-AllDifferent,
}
use industrial_context_aware.Base.Scalars.{Scalar, scalar_eq}
use industrial_context_aware.Base.Sort.{sort, mem-sort, sum_by-sort}
use industrial_context_aware.Experiment.Models.{ExperimentRecord}
use industrial_context_aware.Reporting.Aggregation.Dimensions.{dimension_value}
use industrial_context_aware.Reporting.Aggregation.Keys.{zip_dict-dimension_value}
use industrial_context_aware.Reporting.Aggregation.{
  GroupSummary, AggregationReport, AggregationOptions, resolved_metrics, controls_held, included,
  group_key_of, grouped, group_lt, metric_summary, group_summary, variance_of, check_controls,
  check_dimensions, aggregate_records, zip_dict,
}

module _ {N : Type 0} ⦃f : Float N⦄ ⦃e : Eq N⦄ (group_by : List String) where
  abbrev key_is : Result (List (Scalar N)) → List (Scalar N) → Bool
  key_is (err raised) key = false
  key_is (ok k) key = k == key

  -- The record has the given values at the dimensions.
  abbrev pub has_key : List (Scalar N) → ExperimentRecord N → Bool
  has_key key r = key_is (group_key_of group_by r) key

  key_is-ok :
      (found : Result (List (Scalar N))) (key : List (Scalar N))
      → key_is found key ≡ true
      → found ≡ ok key
  key_is-ok (err raised) key h = cc
  key_is-ok (ok k) key h = ap ok ((list_eq.beq_iff k key).0 h)

  has_key-group_key_of :
      (key : List (Scalar N)) (r : ExperimentRecord N)
      → has_key key r ≡ true
      → group_key_of group_by r ≡ ok key
  has_key-group_key_of key r h = key_is-ok (group_key_of group_by r) key h

  entry_step :
      (r : ExperimentRecord N) (records : List (ExperimentRecord N)) (k : List (Scalar N))
      → group_key_of group_by r ≡ ok k
      → (groups : List (List (Scalar N) × List (ExperimentRecord N))) (key : List (Scalar N))
      → entry_at key (append_at k r groups) ++ filter (has_key key) records
        ≡ entry_at key groups ++ filter (has_key key) (r ∷ records)
  entry_step r records k found groups key = elim (Bool-cases (k == key)) [
    | inl same ↦
        rw (entry_at-append_at key k r groups, found, same)
          (append_assoc (entry_at key groups) (r ∷ []) (filter (has_key key) records))
    | inr other ↦ rw (entry_at-append_at key k r groups, found, other) refl
  ]

  grouped-entry :
      (records : List (ExperimentRecord N))
      (groups : List (List (Scalar N) × List (ExperimentRecord N)))
      {gs : List (List (Scalar N) × List (ExperimentRecord N))}
      → grouped group_by records groups ≡ ok gs
      → (key : List (Scalar N))
      → entry_at key gs ≡ entry_at key groups ++ filter (has_key key) records
  unfolding grouped
  grouped-entry [] groups h key =
      ap (entry_at key) (sym (ok_inj h)) ∙ sym (append-nil (entry_at key groups))
  grouped-entry (r ∷ records) groups h key =
      let (k, found, rest) = >>=-eq-ok (group_key_of group_by r) _ h in
      grouped-entry records (append_at k r groups) rest key
      ∙ entry_step r records k found groups key

  grouped-total :
      (records : List (ExperimentRecord N))
      (groups : List (List (Scalar N) × List (ExperimentRecord N)))
      {gs : List (List (Scalar N) × List (ExperimentRecord N))}
      → grouped group_by records groups ≡ ok gs
      → total gs ≡ total groups + length records
  unfolding grouped
  grouped-total [] groups h = omega (arith, ap total (ok_inj h))
  grouped-total (r ∷ records) groups h =
      let (k, found, rest) = >>=-eq-ok (group_key_of group_by r) _ h in
      omega (arith, grouped-total records (append_at k r groups) rest, total-append_at k r groups)

  grouped-AllDifferent :
      (records : List (ExperimentRecord N))
      (groups : List (List (Scalar N) × List (ExperimentRecord N)))
      {gs : List (List (Scalar N) × List (ExperimentRecord N))}
      → grouped group_by records groups ≡ ok gs
      → AllDifferent (keys groups)
      → AllDifferent (keys gs)
  unfolding grouped
  grouped-AllDifferent [] groups h different =
      subst (λ gs. AllDifferent (keys gs)) (ok_inj h) different
  grouped-AllDifferent (r ∷ records) groups h different =
      let (k, found, rest) = >>=-eq-ok (group_key_of group_by r) _ h in
      grouped-AllDifferent records (append_at k r groups) rest
        (append_at-AllDifferent k r groups different)

module _ {N : Type 0} ⦃f : Float N⦄ ⦃e : Eq N⦄ where
  -- What a summary counts.
  record IsSummary (group_by : List String) (key : List (Scalar N)) (g : GroupSummary N)
      (records : List (ExperimentRecord N)) : Type 0 where
    pub named : g.group_key ≡ zip_dict group_by key []
    pub runs : g.n_runs ≡ length records
    pub ids : g.run_ids ≡ map (λ (r : ExperimentRecord N). r.run_id) records
    pub statuses : g.n_completed + g.n_failed ≡ g.n_runs
    pub validities : g.n_valid + g.n_legacy_control_only ≡ g.n_runs

  group_summary-IsSummary :
      (group_by metrics : List String) (entry : List (Scalar N) × List (ExperimentRecord N))
      {g : GroupSummary N}
      → group_summary group_by metrics entry ≡ ok g
      → IsSummary group_by entry.0 g entry.1
  unfolding group_summary
  group_summary-IsSummary group_by metrics (key, records) h =
      let (summaries, found, last) =
        >>=-eq-ok (map_ok (metric_summary records) (add_all metrics [])) _ h in
      subst (λ g. IsSummary group_by key g records) (ok_inj last)
        (record {
          named = refl;
          runs = refl;
          ids = refl;
          statuses = count_if-complement _ records;
          validities = count_if-complement _ records;
        })

  -- What a returned report was made of.
  record IsMadeOf (records : List (ExperimentRecord N)) (o : AggregationOptions)
      (report : AggregationReport N) : Type 0 where
    pub grouping : List (List (Scalar N) × List (ExperimentRecord N))
    pub dimensions : List String
    pub metrics : List String
    pub made : grouped dimensions (included o.include_invalid records) [] ≡ ok grouping
    pub summaries :
        map_ok (group_summary dimensions metrics) (sort group_lt grouping) ≡ ok report.groups
    pub by : report.group_by ≡ dimensions
    pub excluded :
        report.excluded_invalid_runs ≡ length records - length (included o.include_invalid records)

  aggregate_records-IsMadeOf :
      (records : List (ExperimentRecord N)) (o : AggregationOptions) {report : AggregationReport N}
      → aggregate_records records o ≡ ok report
      → IsMadeOf records o report
  unfolding aggregate_records
  aggregate_records-IsMadeOf records o h =
      let (group_by, a, h1) = >>=-eq-ok (check_dimensions o.group_by) _ h in
      let (varied, b, h2) =
        >>=-eq-ok (variance_of (included o.include_invalid records) (controls_held o)) _ h1 in
      let (variance, c, h3) =
        >>=-eq-ok (check_controls o.allow_heterogeneous_controls varied) _ h2 in
      let (gs, d, h4) = >>=-eq-ok (grouped group_by (included o.include_invalid records) []) _ h3 in
      let (summaries, s, last) =
        >>=-eq-ok (map_ok (group_summary group_by (resolved_metrics o.metrics)) (sort group_lt gs))
          _ h4 in
      subst (IsMadeOf records o) (ok_inj last) (record {
        grouping = gs;
        dimensions = group_by;
        metrics = resolved_metrics o.metrics;
        made = d;
        summaries = s;
        by = refl;
        excluded = refl;
      })

  sum-n_runs :
      (group_by metrics : List String)
      (entries : List (List (Scalar N) × List (ExperimentRecord N))) {gs : List (GroupSummary N)}
      → map_ok (group_summary group_by metrics) entries ≡ ok gs
      → sum_by (λ (g : GroupSummary N). g.n_runs) gs ≡ total entries
  sum-n_runs group_by metrics [] h = ap (sum_by (λ (g : GroupSummary N). g.n_runs)) (sym (ok_inj h))
  sum-n_runs group_by metrics (entry ∷ entries) h =
      let (g, here, later) = >>=-eq-ok (group_summary group_by metrics entry) _ h in
      let (rest, there, last) =
        >>=-eq-ok (map_ok (group_summary group_by metrics) entries) _ later in
      subst (λ gs. sum_by (λ (g : GroupSummary N). g.n_runs) gs ≡ total (entry ∷ entries))
        (ok_inj last)
        (omega (
          arith,
          sum-n_runs group_by metrics entries there,
          (group_summary-IsSummary group_by metrics entry here).runs,
        ))

  included-le :
      (include_invalid : Bool) (records : List (ExperimentRecord N))
      → length (included include_invalid records) ≤ length records
  unfolding included
  included-le include_invalid records = length-filter-le _ records

  -- The runs of the groups and the excluded runs add up to the given records.
  pub aggregate_records-n_runs :
      (records : List (ExperimentRecord N)) (o : AggregationOptions) {report : AggregationReport N}
      → aggregate_records records o ≡ ok report
      → sum_by (λ (g : GroupSummary N). g.n_runs) report.groups + report.excluded_invalid_runs
        ≡ length records
  aggregate_records-n_runs records o {report} h =
      let m = aggregate_records-IsMadeOf records o h in
      omega (
        arith,
        sum-n_runs m.dimensions m.metrics (sort group_lt m.grouping) m.summaries,
        sum_by-sort group_lt (λ (p : List (Scalar N) × List (ExperimentRecord N)). length p.1)
            m.grouping,
        grouped-total m.dimensions (included o.include_invalid records) [] m.made,
        m.excluded,
        included-le o.include_invalid records,
      )

  entry_of_group :
      (group_by : List String) (records : List (ExperimentRecord N))
      {gs : List (List (Scalar N) × List (ExperimentRecord N))} {key : List (Scalar N)}
      {rs : List (ExperimentRecord N)}
      → grouped group_by records [] ≡ ok gs
      → Memᴰ (key, rs) gs
      → filter (has_key group_by key) records ≡ rs
  unfolding keys entry_at
  entry_of_group group_by records {gs} {key} h m =
      sym (grouped-entry group_by records [] h key)
      ∙ entry_at_of_mem gs (grouped-AllDifferent group_by records [] h (omega arith)) m

  -- A group's key is the dictionary of the dimensions with a list of values; the group's runs are the
  -- included records that have exactly these values at the dimensions, in their order; each entry of
  -- the key holds of every such record; and the counts by status and by validity add up to the runs.
  pub aggregate_records-group :
      (records : List (ExperimentRecord N)) (o : AggregationOptions) {report : AggregationReport N}
      {g : GroupSummary N}
      → aggregate_records records o ≡ ok report
      → Memᴰ g report.groups
      → (key : List (Scalar N)) × (g.group_key ≡ zip_dict report.group_by key [])
        × (g.run_ids
            ≡ map
                (λ (r : ExperimentRecord N). r.run_id)
                (filter (has_key report.group_by key) (included o.include_invalid records)))
        × ((p : String × Scalar N) (r : ExperimentRecord N)
            → Memᴰ p g.group_key
            → has_key report.group_by key r ≡ true
            → dimension_value r p.0 ≡ ok p.1)
        × (g.n_completed + g.n_failed ≡ length g.run_ids)
        × (g.n_valid + g.n_legacy_control_only ≡ length g.run_ids)
  aggregate_records-group records o {report} h m =
      let made = aggregate_records-IsMadeOf records o h in
      let ((key, rs), n, summed) =
        mem-map_ok (group_summary made.dimensions made.metrics) (sort group_lt made.grouping)
          made.summaries m in
      let summary = group_summary-IsSummary made.dimensions made.metrics (key, rs) summed in
      let runs_of : rs ≡ filter (has_key report.group_by key) (included o.include_invalid records) =
        sym (
          entry_of_group made.dimensions (included o.include_invalid records) made.made
            (mem-sort group_lt made.grouping n))
        ∙ ap (λ by. filter (has_key by key) (included o.include_invalid records)) (sym made.by) in
      let size = ap length summary.ids ∙ length-map (λ (r : ExperimentRecord N). r.run_id) rs in
      (
        key,
        summary.named ∙ ap (λ by. zip_dict by key []) (sym made.by),
        summary.ids ∙ ap (map (λ (r : ExperimentRecord N). r.run_id)) runs_of,
        λ p r k held.
            zip_dict-dimension_value r report.group_by key {p = p}
              (has_key-group_key_of report.group_by key r held)
              (subst (Memᴰ p) (summary.named ∙ ap (λ by. zip_dict by key []) (sym made.by)) k),
        omega (arith, summary.statuses, summary.runs, size),
        omega (arith, summary.validities, summary.runs, size),
      )
