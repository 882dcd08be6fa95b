-- ===== src/Experiment/Presets/Lookup.antt =====
-- About the lookup of a preset by its key, in experiments/architecture_combinations.py.
use mathlib.Core.List.Memᴰ
use mathlib.Core.List.{Memᴰ}
use mathlib.Core.Path.{subst}
use industrial_context_aware.Base.{
  ◌≡◌, refl, ◌↔◌, ap, sym, ◌∙◌, Bool, true, String, Option, none, some, map, find-mem, ◌==◌,
  string_eq, ok, ok_inj,
}
use industrial_context_aware.Base.Sort.{
  all_distinct, find_of_all_distinct, sort-mem, mem-sort, str_lt,
}
use industrial_context_aware.Experiment.Presets.{
  ArchitectureCombination, architecture_combinations, found_preset, get_combination,
  list_combination_keys,
}

keys_distinct :
    all_distinct (map (λ (c : ArchitectureCombination). c.key) architecture_combinations) ≡ true
keys_distinct = refl

get_of_listed :
    (c : ArchitectureCombination) → Memᴰ c architecture_combinations → get_combination c.key ≡ ok c
unfolding get_combination found_preset
get_of_listed c m = ap found_preset (
    find_of_all_distinct (λ (x : ArchitectureCombination). x.key) architecture_combinations
      keys_distinct m)

module _ (key : String) where
  abbrev is_preset : ArchitectureCombination → Bool
  is_preset c = c.key == key

  found_cases :
      (o : Option ArchitectureCombination) (c : ArchitectureCombination)
      → found_preset o ≡ ok c
      → o ≡ some c
  unfolding found_preset
  found_cases none c h = cc
  found_cases (some x) c h = ap some (ok_inj h)

  -- A key is found exactly as the preset of the table that carries it.
  pub get_combination_iff :
      (c : ArchitectureCombination)
      → (get_combination key ≡ ok c) ↔ (Memᴰ c architecture_combinations × (c.key ≡ key))
  unfolding get_combination
  get_combination_iff c = (
    (λ h.
        let (m, same) = find-mem is_preset architecture_combinations (found_cases _ c h) in
        (m, (string_eq.beq_iff c.key key).0 same)),
    (λ (m, same). ap get_combination (sym same) ∙ get_of_listed c m),
  )

  -- The listed keys are exactly those under which a preset is found.
  pub mem-list_combination_keys_iff :
      Memᴰ key list_combination_keys
      ↔ ((c : ArchitectureCombination) × (get_combination key ≡ ok c))
  unfolding list_combination_keys
  mem-list_combination_keys_iff = (
    (λ m.
        let (c, listed, same) =
          Memᴰ.of_map (λ (x : ArchitectureCombination). x.key) architecture_combinations
            (mem-sort str_lt _ m) in
        (c, (get_combination_iff c).1 (listed, same))),
    (λ (c, found).
        let (listed, same) = (get_combination_iff c).0 found in
        sort-mem str_lt _ (
          subst
            (λ k. Memᴰ k (map (λ (x : ArchitectureCombination). x.key) architecture_combinations))
            same (Memᴰ.map (λ (x : ArchitectureCombination). x.key) listed))),
  )
