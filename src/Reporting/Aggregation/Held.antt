-- ===== src/Reporting/Aggregation/Held.antt =====
-- About the controls that `aggregate_records` of reporting/aggregation.py holds constant.
use mathlib.Core.List.Memᴰ
use mathlib.Core.List.{Memᴰ}
use industrial_context_aware.Base.{
  ◌≡◌, refl, sym, ap, subst, ◌∙◌, Bool, true, false, string_eq, Eq, String, List, [], ◌∷◌, map,
  filter, filter-eq-nil, is_empty, length, ltb, ok, >>=-eq-ok, ok_inj, map_ok, map_ok-mem, arith,
}
use industrial_context_aware.Base.Comprehensions.{add_all, add_all-mem}
use industrial_context_aware.Base.Float.{Float}
use industrial_context_aware.Base.Scalars.{Scalar, scalar_eq}
use industrial_context_aware.Base.Sort.{sort, distinct-mem}
use industrial_context_aware.Experiment.Models.{ExperimentRecord}
use industrial_context_aware.Experiment.Controls.{
  control_value, values_of, varies, sorted_entry, entry_of, control_variance,
}
use industrial_context_aware.Reporting.Aggregation.{
  AggregationReport, AggregationOptions, resolved_metrics, controls_held, included, grouped,
  group_lt, group_summary, variance_of, check_controls, check_dimensions, aggregate_records,
}

-- A list of at most one item has no two.
same_in_short {ℓ} :
    {A : Type ℓ} (xs : List A) {a b : A} → ltb 1 (length xs) ≡ false → Memᴰ a xs → Memᴰ b xs → a ≡ b
same_in_short [] short m n = elim m [ ]
same_in_short (x ∷ []) short m n = Memᴰ.eq_of_singleton m ∙ sym (Memᴰ.eq_of_singleton n)
same_in_short (x ∷ y ∷ xs) short m n = absurd (ground arith)

map-eq-nil {ℓ κ} :
    {A : Type ℓ} {B : Type κ} (f : A → B) (xs : List A) → is_empty (map f xs) ≡ true → xs ≡ []
map-eq-nil f [] h = refl
map-eq-nil f (x ∷ xs) h = cc

module _ {N : Type 0} ⦃f : Float N⦄ ⦃e : Eq N⦄ where
  values_of-same :
      (records : List (ExperimentRecord N)) (field : String) {values : List (Scalar N)}
      {r s : ExperimentRecord N}
      → values_of records field ≡ ok values
      → ltb 1 (length values) ≡ false
      → Memᴰ r records
      → Memᴰ s records
      → control_value r field ≡ control_value s field
  unfolding values_of
  values_of-same records field {values} h short m n =
      let (all_values, found, last) = >>=-eq-ok (map_ok (λ r. control_value r field) records) _ h in
      let (a, am, ra) = map_ok-mem (λ r. control_value r field) records found m in
      let (b, bm, rb) = map_ok-mem (λ r. control_value r field) records found n in
      let inside : (x : Scalar N) → Memᴰ x all_values → Memᴰ x values =
        λ x k. subst (Memᴰ x) (ok_inj last) (distinct-mem all_values k) in
      ra ∙ (ap ok (same_in_short values short (inside a am) (inside b bm)) ∙ sym rb)

  -- Where no control varies, the records agree on each.
  control_variance-same :
      (records : List (ExperimentRecord N)) (fields : List String)
      {variance : List (String × List (Scalar N))} {field : String} {r s : ExperimentRecord N}
      → control_variance records fields ≡ ok variance
      → is_empty variance ≡ true
      → Memᴰ field fields
      → Memᴰ r records
      → Memᴰ s records
      → control_value r field ≡ control_value s field
  unfolding control_variance entry_of varies
  control_variance-same records fields {variance} {field} h constant k m n =
      let (entries, found, last) = >>=-eq-ok (map_ok (entry_of records) (add_all fields [])) _ h in
      let ((name, values), em, of_field) =
        map_ok-mem (entry_of records) (add_all fields []) found (add_all-mem fields [] k) in
      let (vs, computed, pair) = >>=-eq-ok (values_of records field) _ of_field in
      let none_varies : filter varies entries ≡ [] =
        map-eq-nil sorted_entry (filter varies entries) (ap is_empty (ok_inj last) ∙ constant) in
      values_of-same records field
        (computed ∙ ap ok (ap (λ (p : String × List (Scalar N)). p.1) (ok_inj pair)))
        (filter-eq-nil varies entries none_varies em) m n

  variance_of-same :
      (records : List (ExperimentRecord N)) (fields : List String)
      {variance : List (String × List (Scalar N))} {field : String} {r s : ExperimentRecord N}
      → variance_of records fields ≡ ok variance
      → is_empty variance ≡ true
      → Memᴰ field fields
      → Memᴰ r records
      → Memᴰ s records
      → control_value r field ≡ control_value s field
  unfolding variance_of
  variance_of-same [] fields h constant k m n = elim m [ ]
  variance_of-same (x ∷ records) [] h constant k m n = elim k [ ]
  variance_of-same (x ∷ records) (y ∷ fields) h constant k m n =
      control_variance-same (x ∷ records) (y ∷ fields) h constant k m n

  -- The variance of a report, and the controls that it was computed over.
  record IsChecked (records : List (ExperimentRecord N)) (o : AggregationOptions)
      (report : AggregationReport N) : Type 0 where
    pub variance : List (String × List (Scalar N))
    pub computed : variance_of (included o.include_invalid records) (controls_held o) ≡ ok variance
    pub consistent : report.controls_consistent ≡ is_empty variance
    pub refused : o.allow_heterogeneous_controls ≡ false → is_empty variance ≡ true
    pub held : report.hold_constant ≡ controls_held o

  check_controls-same :
      (allowed : Bool) (varied : List (String × List (Scalar N)))
      {variance : List (String × List (Scalar N))}
      → check_controls allowed varied ≡ ok variance
      → (varied ≡ variance) × (allowed ≡ false → is_empty varied ≡ true)
  unfolding check_controls
  check_controls-same true [] h = (ok_inj h, λ e. refl)
  check_controls-same false [] h = (ok_inj h, λ e. refl)
  check_controls-same true (v ∷ varied) h = (ok_inj h, λ e. cc)
  check_controls-same false (v ∷ varied) h = cc

  aggregate_records-IsChecked :
      (records : List (ExperimentRecord N)) (o : AggregationOptions) {report : AggregationReport N}
      → aggregate_records records o ≡ ok report
      → IsChecked records o report
  unfolding aggregate_records
  aggregate_records-IsChecked records o h =
      let (group_by, a, h1) = >>=-eq-ok (check_dimensions o.group_by) _ h in
      let (varied, b, h2) =
        >>=-eq-ok (variance_of (included o.include_invalid records) (controls_held o)) _ h1 in
      let (variance, c, h3) =
        >>=-eq-ok (check_controls o.allow_heterogeneous_controls varied) _ h2 in
      let (gs, d, h4) = >>=-eq-ok (grouped group_by (included o.include_invalid records) []) _ h3 in
      let (summaries, s, last) =
        >>=-eq-ok (map_ok (group_summary group_by (resolved_metrics o.metrics)) (sort group_lt gs))
          _ h4 in
      let (same, refused) = check_controls-same o.allow_heterogeneous_controls varied c in
      subst (IsChecked records o) (ok_inj last) (record {
        variance = varied;
        computed = b;
        consistent = ap is_empty (sym same);
        refused = refused;
        held = refl;
      })

  -- Unless heterogeneous controls are allowed, a report is returned only if all records that it
  -- counts have the same value at each control that it holds constant.
  pub aggregate_records-same_controls :
      (records : List (ExperimentRecord N)) (o : AggregationOptions) {report : AggregationReport N}
      {field : String} {r s : ExperimentRecord N}
      → o.allow_heterogeneous_controls ≡ false
      → aggregate_records records o ≡ ok report
      → Memᴰ field report.hold_constant
      → Memᴰ r (included o.include_invalid records)
      → Memᴰ s (included o.include_invalid records)
      → control_value r field ≡ control_value s field
  aggregate_records-same_controls records o {field = field} strict h k m n =
      let checked = aggregate_records-IsChecked records o h in
      variance_of-same (included o.include_invalid records) (controls_held o) checked.computed
        (checked.refused strict) (subst (Memᴰ field) checked.held k) m n
