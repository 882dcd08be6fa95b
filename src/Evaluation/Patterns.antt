-- ===== src/Evaluation/Patterns.antt =====
-- evaluation/grounded.py: its three regular expressions and the scans of a text for them. A matcher
-- gives the length of the match at the start of a text, and 0 where there is none, since no pattern
-- matches the empty text.
use industrial_context_aware.Base.{
  ℕ, zero, suc, ◌+◌, Bool, true, false, ◌&&◌, ◌||◌, String, List, [], ◌∷◌, is_empty, if◌then◌else◌,
  leb, nat_beq,
}
use industrial_context_aware.Base.Codes.{codes, is_digit, is_small_letter, begins, digits_length}

-- `s[n:]` and `s[:n]`
unfoldable pub drop : ℕ → List ℕ → List ℕ
drop zero text = text
drop (suc n) [] = []
drop (suc n) (c ∷ text) = drop n text

unfoldable pub take : ℕ → List ℕ → List ℕ
take zero text = []
take (suc n) [] = []
take (suc n) (c ∷ text) = c ∷ take n text

-- `[a-z0-9]` and `[a-z0-9:_-]`
unfoldable pub is_id_start : ℕ → Bool
is_id_start c = is_small_letter c || is_digit c

unfoldable pub is_id_code : ℕ → Bool
is_id_code c = is_id_start c || nat_beq c b':' || nat_beq c b'_' || nat_beq c b'-'

-- `[a-z0-9:_-]*$`, where `$` also matches before a newline that ends the text.
unfoldable pub is_id_rest : List ℕ → Bool
is_id_rest [] = true
is_id_rest (c ∷ text) = (is_id_code c && is_id_rest text) || (nat_beq c 10 && is_empty text)

unfoldable pub is_id_tail : List ℕ → Bool
is_id_tail [] = false
is_id_tail (c ∷ text) = is_id_start c && is_id_rest text

-- `_CANONICAL_ID_PATTERN.match`
unfoldable pub is_canonical_id : String → Bool
is_canonical_id id = begins (codes "urn:icab:") (codes id) && is_id_tail (drop 9 (codes id))

-- A text of the form of a template, where `0` stands for any digit.
unfoldable pub fits : List ℕ → List ℕ → Bool
fits [] text = true
fits (t ∷ template) [] = false
fits (t ∷ template) (c ∷ text) =
    (if nat_beq t b'0' then is_digit c else nat_beq t c) && fits template text

-- `(?:\.\d+)?`
unfoldable pub fraction_length : List ℕ → ℕ
fraction_length [] = 0
fraction_length (c ∷ text) = elim (digits_length text) [
  | zero ↦ 0
  | suc n ↦ if nat_beq c b'.' then suc (suc n) else 0
]

-- `(?:Z|[+-]\d{2}:\d{2})?`
unfoldable pub zone_length : List ℕ → ℕ
zone_length text =
    if begins (codes "Z") text
    then 1
    else if fits (codes "+00:00") text || fits (codes "-00:00") text
    then 6
    else 0

-- The optional parts after the seconds.
unfoldable pub suffix_length : List ℕ → ℕ
suffix_length text =
    let fraction = fraction_length text in fraction + zone_length (drop fraction text)

-- `_ISO_TIMESTAMP_PATTERN`
unfoldable pub timestamp_length : List ℕ → ℕ
timestamp_length text =
    if fits (codes "0000-00-00T00:00:00") text then 19 + suffix_length (drop 19 text) else 0

-- `\d+\.\d+|\d{3,}`
unfoldable pub unsigned_length : List ℕ → ℕ
unsigned_length text =
    let whole = digits_length text in
    let fraction = fraction_length (drop whole text) in
    if nat_beq whole 0
    then 0
    else if nat_beq fraction 0
    then if leb 3 whole then whole else 0
    else whole + fraction

unfoldable pub after_minus : ℕ → ℕ
after_minus zero = 0
after_minus (suc n) = suc (suc n)

-- `_NUMBER_PATTERN`
unfoldable pub number_length : List ℕ → ℕ
number_length [] = 0
number_length (c ∷ text) =
    if nat_beq c b'-' then after_minus (unsigned_length text) else unsigned_length (c ∷ text)

-- `pattern.sub(" ", text)`, with the characters of a match that are still to be skipped.
unfoldable pub substitute : (List ℕ → ℕ) → ℕ → List ℕ → List ℕ
substitute length_at skip [] = []
substitute length_at (suc skip) (c ∷ text) = substitute length_at skip text
substitute length_at zero (c ∷ text) = elim (length_at (c ∷ text)) [
  | zero ↦ c ∷ substitute length_at 0 text
  | suc n ↦ b' ' ∷ substitute length_at n text
]

-- `pattern.findall(text)`
unfoldable pub find_all : (List ℕ → ℕ) → ℕ → List ℕ → List (List ℕ)
find_all length_at skip [] = []
find_all length_at (suc skip) (c ∷ text) = find_all length_at skip text
find_all length_at zero (c ∷ text) = elim (length_at (c ∷ text)) [
  | zero ↦ find_all length_at 0 text
  | suc n ↦ take (suc n) (c ∷ text) ∷ find_all length_at n text
]

-- `_strip_timestamps`
unfoldable pub strip_timestamps : List ℕ → List ℕ
strip_timestamps text = substitute timestamp_length 0 text

-- `_NUMBER_PATTERN.findall(self._strip_timestamps(text))`
unfoldable pub numerals : String → List (List ℕ)
numerals text = find_all number_length 0 (strip_timestamps (codes text))
