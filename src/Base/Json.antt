-- ===== src/Base/Json.antt =====
-- The values of `response.json()`, with the numbers left to the interface of floats.
use Prim.Native.String.{String}
use mathlib.Core.Bool.{Bool}
use mathlib.Core.Option.{Option, none, some}
use industrial_context_aware.Base.Tests.{if◌then◌else◌}
use industrial_context_aware.Base.Equality.{◌==◌, string_eq}

mutual
  pub data Json (N : Type 0) : Type 0 where
    null : Json N
    bool : Bool → Json N
    num : N → Json N
    str : String → Json N
    arr : Items N → Json N
    obj : Fields N → Json N

  pub data Items (N : Type 0) : Type 0 where
    nil : Items N
    cons : Json N → Items N → Items N

  -- An object, in the order of its keys.
  pub data Fields (N : Type 0) : Type 0 where
    end : Fields N
    field : String → Json N → Fields N → Fields N

module _ {N : Type 0} where
  -- `fields.get(key)`
  unfoldable pub get : String → Fields N → Option (Json N)
  get key end = none
  get key (field k v rest) = let found = get key rest in if k == key then some v else found
