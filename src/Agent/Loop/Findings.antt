-- ===== src/Agent/Loop/Findings.antt =====
-- What becomes of the results of several calls in one step.
use industrial_context_aware.Base.{
  ℕ, ◌+◌, ◌≡◌, String, ◌<>◌, List, [], ◌∷◌, arith, length, string_eq, ==_refl, ◌∙◌, ap,
}
use industrial_context_aware.Base.Decimal.{decimal}
use industrial_context_aware.Base.Json.{obj}
use industrial_context_aware.Agent.World.{ToolCall, World, Settings, State}
use industrial_context_aware.Agent.Calls.{dict_set, after_call, execute_tool}
use industrial_context_aware.Agent.Loop.Rules.{execute_tool-Keeps, after_call_counts}
use text.Mathlib.TextEquality.{eq_iff}

-- Setting a key that was just set replaces its value.
dict_set_twice :
    {A : Type 0} (key : String) (u v : A) (d : List (String × A))
    → dict_set key v (dict_set key u d) ≡ dict_set key v d
unfolding dict_set
dict_set_twice key u v [] = rw (==_refl key)
dict_set_twice key u v ((k, t) ∷ d) = ground (arith, dict_set_twice key u v d, eq_iff key key)

after_call-findings :
    {N : Type 0} (w : World N) (o : Settings N) (call : ToolCall N) (step : ℕ) (s : State N)
    → (after_call w o call step s).findings
      ≡ dict_set
          (call.name <> ("#" <> decimal step))
          (obj (execute_tool w o call step s).0)
          s.findings
unfolding after_call
after_call-findings w o call step s =
    let (evidence, calls, tokens, findings) = execute_tool-Keeps w o call step s in
    ap (dict_set (call.name <> ("#" <> decimal step)) (obj (execute_tool w o call step s).0))
      findings

-- Two calls of one tool in one step leave two references as evidence, but one entry in the
-- findings: they are those of the second call alone, and the first result is lost.
pub after_call_twice_loses :
    {N : Type 0} (w : World N) (o : Settings N) (first second : ToolCall N) (step : ℕ) (s : State N)
    → first.name ≡ second.name
    → let t = after_call w o first step s in
      let u = after_call w o second step t in
      (length u.evidence ≡ length s.evidence + 2)
      × (u.findings
          ≡ dict_set
              (second.name <> ("#" <> decimal step))
              (obj (execute_tool w o second step t).0)
              s.findings)
after_call_twice_loses w o first second step s same =
    let t = after_call w o first step s in
    (
      omega
          (arith, (after_call_counts w o second step t).0, (after_call_counts w o first step s).0),
      after_call-findings w o second step t
          ∙ rw (after_call-findings w o first step s, same) (dict_set_twice _ _ _ s.findings),
    )
