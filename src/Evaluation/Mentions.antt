-- ===== src/Evaluation/Mentions.antt =====
-- evaluation/grounded.py: what the evaluator looks for in the objective and the conclusion.
use industrial_context_aware.Base.{ℕ, Bool, String, List, [], ◌∷◌, ◌++◌, any}
use industrial_context_aware.Base.Codes.{codes, lower, occurs, after_last, replace_code, lstrip}
use industrial_context_aware.Agent.Interface.{InvestigationResult}

-- `_collect_text`, in small letters.
unfoldable pub claimed_text : {N : Type 0} → InvestigationResult N → List ℕ
claimed_text result = lower (codes result.objective ++ (10 ∷ codes result.conclusion))

-- `_slug`
unfoldable pub slug : String → List ℕ
slug id = lower (replace_code b'_' b' ' (after_last b':' (codes id)))

-- `disturbance.rsplit("_", 1)[-1].lstrip("0") or "0"`
unfoldable pub or_zero : List ℕ → List ℕ
or_zero [] = codes "0"
or_zero (c ∷ text) = c ∷ text

unfoldable pub disturbance_number : List ℕ → List ℕ
disturbance_number disturbance = or_zero (lstrip b'0' (after_last b'_' disturbance))

unfoldable pub disturbance_names : List ℕ → List (List ℕ)
disturbance_names disturbance =
    let number = disturbance_number disturbance in
    lower disturbance
    ∷ lower (replace_code b'_' b' ' disturbance)
    ∷ (codes "idv " ++ number)
    ∷ (codes "idv" ++ number)
    ∷ (codes "idv(" ++ (number ++ codes ")"))
    ∷ []

-- `_mentions_disturbance`
unfoldable pub mentions_disturbance : String → List ℕ → Bool
mentions_disturbance disturbance text =
    any (λ name. occurs name text) (disturbance_names (codes disturbance))
