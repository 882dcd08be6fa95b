-- ===== src/Faults/Repeatable.antt =====
-- About the entries that `build_fault_catalog_entry` of tep/faults.py aggregates.
use mathlib.Core.List.Memᴰ
use mathlib.Core.List.{Memᴰ}
use mathlib.Core.Path.{subst, sym}
use industrial_context_aware.Base.{
  ◌≡◌, refl, ◌↔◌, ◌⊎◌, inl, inr, Bool, true, false, ◌||◌, not, String, List, [], ◌∷◌, map,
  if◌then◌else◌, ◌==◌, string_eq, find, all, is_empty, contains, contains-mem, contains_of_mem,
  all-mem, all_of_mem, any-mem, any_of_mem, mem-filter, mem-filter_of_mem, find-mem, Option-cases,
}
use industrial_context_aware.Base.Sort.{
  distinct, str_lt, mem-sort, sort-mem, mem-distinct, distinct-mem,
}
use industrial_context_aware.Faults.{
  DisturbanceCharacterization, FaultCatalogEntry, sorted_intersection, aggregate, catalog_get,
  verified, is_benchmark_ready,
}

module _ (a : String) (first : List String) (others : List (List String)) where
  mem-sorted_intersection :
      Memᴰ a (sorted_intersection first others)
      → Memᴰ a first × (all (λ (other : List String). contains other a) others ≡ true)
  unfolding sorted_intersection
  mem-sorted_intersection m =
      let (listed, everywhere) =
        mem-filter (λ b. all (λ (other : List String). contains other b) others) (distinct first)
          (mem-sort str_lt _ m) in
      (mem-distinct first listed, everywhere)

  sorted_intersection-mem :
      Memᴰ a first
      → all (λ (other : List String). contains other a) others ≡ true
      → Memᴰ a (sorted_intersection first others)
  unfolding sorted_intersection
  sorted_intersection-mem m everywhere = sort-mem str_lt _ (
      mem-filter_of_mem (λ b. all (λ (other : List String). contains other b) others)
        (distinct first) (distinct-mem first m) everywhere)

module _ (a : String) where
  mem-only_if :
      (b : Bool) (xs : List String) → Memᴰ a (if b then xs else []) → (b ≡ true) × Memᴰ a xs
  mem-only_if true xs m = (refl, m)
  mem-only_if false xs m = elim m [ ]

  only_if-mem : (b : Bool) (xs : List String) → b ≡ true → Memᴰ a xs → Memᴰ a (if b then xs else [])
  only_if-mem true xs e m = m
  only_if-mem false xs e m = absurd (cc e)

verified-cases :
    (injectable tripped listed : Bool)
    → (if injectable then tripped || listed else false) ≡ true
    → (injectable ≡ true) × ((tripped ≡ true) ⊎ (listed ≡ true))
verified-cases true true listed h = (refl, inl refl)
verified-cases true false listed h = (refl, inr h)
verified-cases false tripped listed h = absurd (cc h)

cases-verified :
    (injectable tripped listed : Bool)
    → injectable ≡ true
    → (tripped ≡ true) ⊎ (listed ≡ true)
    → (if injectable then tripped || listed else false) ≡ true
cases-verified true true listed e h = refl
cases-verified true false listed e (inl h) = absurd (cc h)
cases-verified true false listed e (inr h) = h
cases-verified false tripped listed e h = e

not_empty-mem : (xs : List String) → not (is_empty xs) ≡ true → (a : String) × Memᴰ a xs
not_empty-mem [] h = absurd (cc h)
not_empty-mem (x ∷ xs) h = (x, Memᴰ.head refl)

mem-not_empty : (xs : List String) {a : String} → Memᴰ a xs → not (is_empty xs) ≡ true
mem-not_empty [] m = elim m [ ]
mem-not_empty (x ∷ xs) m = refl

module _ {N : Type 0} (disturbance name version at : String) (first : DisturbanceCharacterization N)
    (others : List (DisturbanceCharacterization N)) where
  everywhere_runs :
      (a : String)
      → all
          (λ (other : List String). contains other a)
          (map (λ (c : DisturbanceCharacterization N). c.affected_measurements) others)
        ≡ true
      → (c : DisturbanceCharacterization N) → Memᴰ c others
      → Memᴰ a c.affected_measurements
  everywhere_runs a h c m = contains-mem a c.affected_measurements (
      all-mem (λ (other : List String). contains other a) _ h
        (Memᴰ.map (λ (c : DisturbanceCharacterization N). c.affected_measurements) m))

  runs_everywhere :
      (a : String)
      → ((c : DisturbanceCharacterization N) → Memᴰ c others → Memᴰ a c.affected_measurements)
      → all
          (λ (other : List String). contains other a)
          (map (λ (c : DisturbanceCharacterization N). c.affected_measurements) others)
        ≡ true
  runs_everywhere a h =
      all_of_mem (λ (other : List String). contains other a) _
        (λ other m.
          let (c, m', e) =
            Memᴰ.of_map (λ (c : DisturbanceCharacterization N). c.affected_measurements) others m in
          subst (λ xs. contains xs a ≡ true) e (contains_of_mem c.affected_measurements (h c m')))

  first_or_other :
      (P : DisturbanceCharacterization N → Type 0)
      → P first
      → ((c : DisturbanceCharacterization N) → Memᴰ c others → P c)
      → (c : DisturbanceCharacterization N) → Memᴰ c (first ∷ others)
      → P c
  first_or_other P here there c (Memᴰ.head e) = subst P (sym e) here
  first_or_other P here there c (Memᴰ.tail m) = there c m

  -- An entry of the catalogue lists a measurement exactly if, in every run of the disturbance, the
  -- measurement was affected and the fault could be injected.
  pub aggregate-listed_iff :
      (a : String)
      → Memᴰ a (aggregate disturbance name first others version at).affected_measurements ↔ (
          (c : DisturbanceCharacterization N)
          → Memᴰ c (first ∷ others)
          → Memᴰ a c.affected_measurements × (c.icab_injectable ≡ true))
  unfolding aggregate
  aggregate-listed_iff a = (forth, back)
    where
      forth :
          Memᴰ a (aggregate disturbance name first others version at).affected_measurements
          → (c : DisturbanceCharacterization N) → Memᴰ c (first ∷ others)
          → Memᴰ a c.affected_measurements × (c.icab_injectable ≡ true)
      forth m c listed =
          let (injectable, common) = mem-only_if a _ _ m in
          let (here, everywhere) = mem-sorted_intersection a _ _ common in
          (
            first_or_other (λ (r : DisturbanceCharacterization N). Memᴰ a r.affected_measurements)
                here (everywhere_runs a everywhere) c listed,
            all-mem (λ (r : DisturbanceCharacterization N). r.icab_injectable) _ injectable listed,
          )

      back :
          ((c : DisturbanceCharacterization N)
            → Memᴰ c (first ∷ others)
            → Memᴰ a c.affected_measurements × (c.icab_injectable ≡ true))
          → Memᴰ a (aggregate disturbance name first others version at).affected_measurements
      back h =
          only_if-mem a _ _
            (all_of_mem (λ (r : DisturbanceCharacterization N). r.icab_injectable) (first ∷ others)
              (λ c m. (h c m).1))
            (sorted_intersection-mem a _ _ (h first (Memᴰ.head refl)).0
              (runs_everywhere a (λ c m. (h c (Memᴰ.tail m)).0)))

  -- An entry counts as empirically verified exactly if the fault could be injected in every run
  -- and either one run at least tripped the plant or the entry lists a measurement.
  pub aggregate-verified_iff :
      ((aggregate disturbance name first others version at).empirically_verified ≡ true) ↔ (
        ((c : DisturbanceCharacterization N) → Memᴰ c (first ∷ others) → c.icab_injectable ≡ true)
        × (((c : DisturbanceCharacterization N) × Memᴰ c (first ∷ others)
              × (c.plant_tripped ≡ true))
            ⊎ ((a : String) × Memᴰ a
                  (aggregate disturbance name first others version at).affected_measurements)))
  unfolding aggregate
  aggregate-verified_iff = (forth, back)
    where
      forth :
          (aggregate disturbance name first others version at).empirically_verified ≡ true
          → (((c : DisturbanceCharacterization N)
                → Memᴰ c (first ∷ others)
                → c.icab_injectable ≡ true)
              × (((c : DisturbanceCharacterization N) × Memᴰ c (first ∷ others)
                    × (c.plant_tripped ≡ true))
                  ⊎ ((a : String) × Memᴰ a
                        (aggregate disturbance name first others version
                          at).affected_measurements)))
      forth h =
          let (injectable, cause) = verified-cases _ _ _ h in
          (
            (λ c m.
                all-mem (λ (r : DisturbanceCharacterization N). r.icab_injectable) _ injectable m),
            elim cause [
              | inl tripped ↦
                  inl (any-mem (λ (r : DisturbanceCharacterization N). r.plant_tripped) _ tripped)
              | inr some_listed ↦ inr (not_empty-mem _ some_listed)
            ],
          )

      back :
          (((c : DisturbanceCharacterization N)
              → Memᴰ c (first ∷ others)
              → c.icab_injectable ≡ true)
            × (((c : DisturbanceCharacterization N) × Memᴰ c (first ∷ others)
                  × (c.plant_tripped ≡ true))
                ⊎ ((a : String) × Memᴰ a
                      (aggregate disturbance name first others version at).affected_measurements)))
          → (aggregate disturbance name first others version at).empirically_verified ≡ true
      back (injectable, cause) =
          cases-verified _ _ _
            (all_of_mem (λ (r : DisturbanceCharacterization N). r.icab_injectable) (first ∷ others)
              injectable)
            (elim cause [
              | inl (c, m, tripped) ↦ inl (
                  any_of_mem (λ (r : DisturbanceCharacterization N). r.plant_tripped)
                    (first ∷ others) m tripped)
              | inr (a, m) ↦ inr (mem-not_empty _ m)
            ])

module _ {N : Type 0} where
  -- A disturbance that the catalogue declares ready for a benchmark has an entry among the verified
  -- ones, so a disturbance that the catalogue does not know is never ready.
  pub is_benchmark_ready-verified :
      (disturbance : String) (entries : List (FaultCatalogEntry N))
      → is_benchmark_ready disturbance entries ≡ true
      → (e : FaultCatalogEntry N) × Memᴰ e (verified entries) × (e.disturbance ≡ disturbance)
  unfolding is_benchmark_ready catalog_get verified
  is_benchmark_ready-verified disturbance entries h =
      elim (Option-cases
        (find (λ (e : FaultCatalogEntry N). e.disturbance == disturbance) entries)) [
          | inl missing ↦ absurd (cc (rw (missing, is_benchmark_ready, catalog_get) at h))
          | inr (e, found) ↦
              let (m, same) =
                find-mem (λ (e : FaultCatalogEntry N). e.disturbance == disturbance) entries
                  found in
              (
                e,
                mem-filter_of_mem (λ (e : FaultCatalogEntry N). e.empirically_verified) entries m
                    (rw (found, is_benchmark_ready, catalog_get) at h),
                (string_eq.beq_iff e.disturbance disturbance).0 same,
              )
        ]
