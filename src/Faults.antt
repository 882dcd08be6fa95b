-- ===== src/Faults.antt =====
-- tep/faults.py: what the characterisation runs of a disturbance say about its use in a benchmark.
-- The times, magnitudes and thresholds, which an entry copies from the first run, are kept as
-- numbers of an unknown type; reading and writing the catalogue file is left out.
pub mod Repeatable
use industrial_context_aware.Base.{
  ℕ, ◌≡◌, Bool, true, false, ◌&&◌, ◌||◌, not, String, Option, none, some, List, [], ◌∷◌, map,
  if◌then◌else◌, ◌==◌, string_eq, filter, find, all, any, is_empty, contains, Result, ok, err,
  key_error, value_error,
}
use industrial_context_aware.Base.Sort.{sort, distinct, str_lt}

-- `DisturbanceCharacterization` of tep/fault_characterization.py: one run under one seed.
pub record DisturbanceCharacterization (N : Type 0) : Type 0 where
  pub seed : ℕ
  pub icab_injectable : Bool
  pub plant_tripped : Bool
  pub affected_measurements : List String
  pub affected_equipment : List String
  pub warmup_hours : N
  pub duration_hours : N
  pub magnitude : N
  pub deviation_threshold_stdevs : N

pub record FaultCatalogEntry (N : Type 0) : Type 0 where
  pub disturbance : String
  pub name : String
  pub simulator_supported : Bool
  pub icab_injectable : Bool
  pub empirically_verified : Bool
  pub affected_measurements : List String
  pub affected_equipment : List String
  pub plant_tripped_in_any_seed : Bool
  pub characterization_seeds : List ℕ
  pub warmup_hours : N
  pub duration_hours : N
  pub magnitude : N
  pub deviation_threshold_stdevs : N
  pub tep_studio_version : String
  pub characterized_at : String

-- `sorted(set.intersection(set(first), *map(set, others)))`
unfoldable pub sorted_intersection : List String → List (List String) → List String
sorted_intersection first others =
    sort str_lt (filter (λ a. all (λ other. contains other a) others) (distinct first))

module _ {N : Type 0} where
  -- The fields of the entry, for at least one characterisation.
  unfoldable pub aggregate :
      String
      → String
      → DisturbanceCharacterization N
      → List (DisturbanceCharacterization N)
      → String
      → String
      → FaultCatalogEntry N
  aggregate disturbance name first others version at =
      let injectable = all (λ c. c.icab_injectable) (first ∷ others) in
      let tripped = any (λ c. c.plant_tripped) (first ∷ others) in
      let measurements =
        if injectable
        then sorted_intersection first.affected_measurements
            (map (λ c. c.affected_measurements) others)
        else [] in
      record {
        disturbance = disturbance;
        name = name;
        simulator_supported = true;
        icab_injectable = injectable;
        empirically_verified = if injectable then tripped || not (is_empty measurements) else false;
        affected_measurements = measurements;
        affected_equipment =
            if injectable
            then sorted_intersection first.affected_equipment
                (map (λ c. c.affected_equipment) others)
            else [];
        plant_tripped_in_any_seed = tripped;
        characterization_seeds = map (λ c. c.seed) (first ∷ others);
        warmup_hours = first.warmup_hours;
        duration_hours = first.duration_hours;
        magnitude = first.magnitude;
        deviation_threshold_stdevs = first.deviation_threshold_stdevs;
        tep_studio_version = version;
        characterized_at = at;
      }

  unfoldable pub build_fault_catalog_entry :
      String
      → String
      → List (DisturbanceCharacterization N)
      → String
      → String
      → Result (FaultCatalogEntry N)
  build_fault_catalog_entry disturbance name [] version at = err value_error
  build_fault_catalog_entry disturbance name (first ∷ others) version at =
      ok (aggregate disturbance name first others version at)

  -- `FaultCatalog.get`
  unfoldable pub catalog_get : List (FaultCatalogEntry N) → String → Result (FaultCatalogEntry N)
  catalog_get entries disturbance = elim (find (λ e. e.disturbance == disturbance) entries) [
    | none ↦ err key_error
    | some entry ↦ ok entry
  ]

  -- `FaultCatalog.verified`
  unfoldable pub verified : List (FaultCatalogEntry N) → List (FaultCatalogEntry N)
  verified entries = filter (λ e. e.empirically_verified) entries

  unfoldable pub is_benchmark_ready : String → List (FaultCatalogEntry N) → Bool
  is_benchmark_ready disturbance entries = elim (catalog_get entries disturbance) [
    | err e ↦ false
    | ok entry ↦ entry.empirically_verified
  ]
