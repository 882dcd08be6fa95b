-- ===== src/Reporting/Stats.antt =====
-- reporting/stats.py, with the statistics of Python's module as operations of the floats.
use industrial_context_aware.Base.{ℕ, Option, none, some, List, [], ◌∷◌, length}
use industrial_context_aware.Base.Float.{Float, float_lt}
use industrial_context_aware.Base.Sort.{min_from}

pub record SummaryStats (N : Type 0) : Type 0 where
  pub n : ℕ
  pub mean : Option N
  pub median : Option N
  pub stdev : Option N
  pub minimum : Option N
  pub maximum : Option N

module _ {N : Type 0} ⦃f : Float N⦄ where
  -- `stdev(values) if len(values) >= 2 else None`
  unfoldable pub spread : List N → Option N
  spread [] = none
  spread (x ∷ []) = none
  spread (x ∷ y ∷ values) = some (f.stdev (x ∷ y ∷ values))

  unfoldable pub summarize : List N → SummaryStats N
  summarize [] = record {
    n = 0;
    mean = none;
    median = none;
    stdev = none;
    minimum = none;
    maximum = none;
  }
  summarize (x ∷ values) = record {
    n = length (x ∷ values);
    mean = some (f.mean (x ∷ values));
    median = some (f.median (x ∷ values));
    stdev = spread (x ∷ values);
    minimum = some (min_from float_lt x values);
    maximum = some (min_from (λ a b. float_lt b a) x values);
  }
