-- ===== src/Reporting/Aggregation/Keys.antt =====
-- About `group_key` of reporting/aggregation.py: the dictionary of the dimensions with their values.
use mathlib.Core.List.Memᴰ
use mathlib.Core.List.{Memᴰ}
use industrial_context_aware.Base.{
  ◌≡◌, sym, ap, subst, ◌∙◌, ◌⊎◌, inl, inr, Bool, ◌==◌, list_eq, string_eq, Eq, String, List, [],
  ◌∷◌, ok, >>=-eq-ok, ok_inj, map_ok, Bool-cases, if◌then◌else◌,
}
use industrial_context_aware.Base.Float.{Float}
use industrial_context_aware.Base.Scalars.{Scalar, scalar_eq}
use industrial_context_aware.Agent.Calls.{dict_set}
use industrial_context_aware.Experiment.Models.{ExperimentRecord}
use industrial_context_aware.Reporting.Aggregation.{zip_dict, group_key_of}
use industrial_context_aware.Reporting.Aggregation.Dimensions.{dimension_value}

-- An entry of the dictionary is the new one or an old one.
mem-dict_set :
    {A : Type 0} (key : String) (v : A) (dict : List (String × A)) {p : String × A}
    → Memᴰ p (dict_set key v dict)
    → (p ≡ (key, v)) ⊎ Memᴰ p dict
unfolding dict_set
mem-dict_set key v [] m = elim (Memᴰ.cases_cons m) [ inl e ↦ inl e | inr n ↦ inr n ]
mem-dict_set key v ((k, w) ∷ rest) {p} m = elim (Bool-cases (k == key)) [
  | inl same ↦
      let found : Memᴰ p ((k, v) ∷ rest) =
        subst (λ (b : Bool). Memᴰ p (if b then (k, v) ∷ rest else (k, w) ∷ dict_set key v rest))
          same m in
      elim (Memᴰ.cases_cons found) [
        | inl e ↦ inl (e ∙ ap (λ (x : String). (x, v)) ((string_eq.beq_iff k key).0 same))
        | inr n ↦ inr (Memᴰ.tail n)
      ]
  | inr other ↦
      let found : Memᴰ p ((k, w) ∷ dict_set key v rest) =
        subst (λ (b : Bool). Memᴰ p (if b then (k, v) ∷ rest else (k, w) ∷ dict_set key v rest))
          other m in
      elim (Memᴰ.cases_cons found) [
        | inl e ↦ inr (Memᴰ.head e)
        | inr n ↦ elim (mem-dict_set key v rest n) [ inl e ↦ inl e | inr old ↦ inr (Memᴰ.tail old) ]
      ]
]

module _ {N : Type 0} ⦃f : Float N⦄ ⦃e : Eq N⦄ where
  zip_dict-mem :
      (r : ExperimentRecord N) (names : List String) (values : List (Scalar N))
      (dict : List (String × Scalar N)) {p : String × Scalar N}
      → map_ok (dimension_value r) names ≡ ok values
      → Memᴰ p (zip_dict names values dict)
      → (dimension_value r p.0 ≡ ok p.1) ⊎ Memᴰ p dict
  unfolding zip_dict
  zip_dict-mem r [] values dict h m = inr m
  zip_dict-mem r (name ∷ names) [] dict h m = inr m
  zip_dict-mem r (name ∷ names) (w ∷ values) dict {p} h m =
      let (v, here, later) = >>=-eq-ok (dimension_value r name) _ h in
      let (rest, there, last) = >>=-eq-ok (map_ok (dimension_value r) names) _ later in
      let same : v ∷ rest ≡ w ∷ values = ok_inj last in
      let at_head : v ≡ w = ap (head_or v) same in
      let at_tail : rest ≡ values = ap tail_of same in
      elim (zip_dict-mem r names values (dict_set name w dict) {p = p} (there ∙ ap ok at_tail) m) [
        | inl valued ↦ inl valued
        | inr n ↦ elim (mem-dict_set name w dict n) [
          | inl new ↦ inl (
              ap (λ (q : String × Scalar N). dimension_value r q.0) new
              ∙ here
              ∙ ap ok at_head
              ∙ ap (λ (q : String × Scalar N). ok q.1) (sym new))
          | inr old ↦ inr old
        ]
      ]
    where
      head_or : Scalar N → List (Scalar N) → Scalar N
      head_or x [] = x
      head_or x (y ∷ ys) = y

      tail_of : List (Scalar N) → List (Scalar N)
      tail_of [] = []
      tail_of (y ∷ ys) = ys

  -- The entries of a key hold of every record that has the key.
  pub zip_dict-dimension_value :
      (r : ExperimentRecord N) (group_by : List String) (key : List (Scalar N))
      {p : String × Scalar N}
      → group_key_of group_by r ≡ ok key
      → Memᴰ p (zip_dict group_by key [])
      → dimension_value r p.0 ≡ ok p.1
  unfolding group_key_of
  zip_dict-dimension_value r group_by key {p} h m =
      elim (zip_dict-mem r group_by key [] {p = p} h m) [
        | inl valued ↦ valued
        | inr n ↦ absurd (Memᴰ.not-nil n)
      ]
