-- ===== src/Base/Attempts.antt =====
-- Calls that may raise any exception, with its text.
use mathlib.Core.Path.{◌≡◌, ap}
use Prim.Native.String.{String}

-- What a call that may raise gives: its value, or the text of the exception.
pub data Attempt (A : Type 0) : Type 0 where
  raises : String → Attempt A
  gives : A → Attempt A

pub gives_inj : {A : Type 0} {a b : A} → gives a ≡ gives b → a ≡ b
gives_inj {A} {a} {b} h = ap given_or h
  where
    given_or : Attempt A → A
    given_or (raises text) = a
    given_or (gives x) = x
