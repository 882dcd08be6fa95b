-- ===== src/Base/Codes.antt =====
-- Texts as lists of code points, for the code that reads them character by character. The classes of
-- characters are those of ASCII.
use Prim.Native.Nat.{ℕ, suc, ◌+◌}
use Prim.Native.Char.{code}
use Prim.Native.String.{String}
use mathlib.Core.Bool.{Bool, true, false, ◌&&◌, ◌||◌}
use mathlib.Core.List.{List, [], ◌∷◌, map}
use industrial_context_aware.Base.Tests.{if◌then◌else◌, leb, nat_beq}

unfoldable pub codes : String → List ℕ
codes String.[] = []
codes (String.◌∷◌ c s) = code c ∷ codes s

unfoldable pub is_digit : ℕ → Bool
is_digit c = leb b'0' c && leb c b'9'

unfoldable pub is_small_letter : ℕ → Bool
is_small_letter c = leb b'a' c && leb c b'z'

unfoldable pub lower_code : ℕ → ℕ
lower_code c = if leb b'A' c && leb c b'Z' then c + 32 else c

-- `text.lower()`
unfoldable pub lower : List ℕ → List ℕ
lower text = map lower_code text

-- `text.startswith(start)`
unfoldable pub begins : List ℕ → List ℕ → Bool
begins [] text = true
begins (c ∷ start) [] = false
begins (c ∷ start) (d ∷ text) = nat_beq c d && begins start text

-- `part in text`
unfoldable pub occurs : List ℕ → List ℕ → Bool
occurs part [] = begins part []
occurs part (c ∷ text) = begins part (c ∷ text) || occurs part text

unfoldable pub has_code : ℕ → List ℕ → Bool
has_code sep [] = false
has_code sep (c ∷ text) = nat_beq c sep || has_code sep text

-- `text.rsplit(sep, 1)[-1]`, for a separator of one character.
unfoldable pub after_last : ℕ → List ℕ → List ℕ
after_last sep [] = []
after_last sep (c ∷ text) =
    let rest = after_last sep text in
    if has_code sep text then rest else if nat_beq c sep then text else c ∷ text

-- `text.replace(old, new)`, for single characters.
unfoldable pub replace_code : ℕ → ℕ → List ℕ → List ℕ
replace_code old new text = map (λ c. if nat_beq c old then new else c) text

-- `text.lstrip(c)`, for a single character.
unfoldable pub lstrip : ℕ → List ℕ → List ℕ
lstrip c [] = []
lstrip c (d ∷ text) = let rest = lstrip c text in if nat_beq d c then rest else d ∷ text

-- The length of the run of digits at the start.
unfoldable pub digits_length : List ℕ → ℕ
digits_length [] = 0
digits_length (c ∷ text) = let n = digits_length text in if is_digit c then suc n else 0
