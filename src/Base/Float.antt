-- ===== src/Base/Float.antt =====
-- Python's floats, which the program does not implement: their operations as an interface over a
-- type of numbers.
use Prim.Native.Nat.{ℕ}
use Prim.Native.String.{String}
use mathlib.Core.Bool.{Bool}
use mathlib.Core.Option.{Option}
use mathlib.Core.List.{List}

pub record Float (N : Type 0) : Type 0 where
  pub lt : N → N → Bool
  pub of_nat : ℕ → N
  -- `h / n` between integers.
  pub ratio : ℕ → ℕ → N
  pub sub : N → N → N
  pub le : N → N → Bool
  pub abs : N → N
  pub mul : N → N → N
  pub div : N → N → N
  -- `sum`, over floats.
  pub sum : List N → N
  -- `float(text)` of a decimal numeral.
  pub parse : List ℕ → N
  -- `float(text)` of any text, and `none` where it raises.
  pub of_text : String → Option N
  -- `str(x)`
  pub show : N → String
  -- `mean`, `median` and `stdev` of the module statistics, on lists that are long enough.
  pub mean : List N → N
  pub median : List N → N
  pub stdev : List N → N

abbrev pub float_lt : {N : Type 0} ⦃f : Float N⦄ → N → N → Bool
float_lt ⦃f⦄ = f.lt

abbrev pub float_of : {N : Type 0} ⦃f : Float N⦄ → ℕ → N
float_of ⦃f⦄ = f.of_nat
