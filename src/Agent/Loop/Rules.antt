-- ===== src/Agent/Loop/Rules.antt =====
-- A proof rule for the loop, and what an executed call leaves alone.
use industrial_context_aware.Base.{
  ℕ, zero, suc, ◌+◌, ◌≤◌, ◌≡◌, refl, Bool, true, false, String, [], ◌∷◌, ◌++◌, arith, length,
  length-append, ◌==◌, string_eq, find, Option-cases, inl, inr, ap, ◌∙◌,
}
use industrial_context_aware.Base.Float.{Float}
use industrial_context_aware.Agent.Interface.{InvestigationResult, step_budget_exceeded}
use industrial_context_aware.Agent.Trace.{TraceEvent}
use industrial_context_aware.Agent.World.{
  ToolCall, World, Settings, State, Turn, stop, go, HttpReply, reply, raised,
}
use industrial_context_aware.Agent.Calls.{execute_tool, settle, record_if, after_call, evidence_for}
use industrial_context_aware.Agent.Loop.{turn, run_steps, result_of}

-- `P` holds of the state that a turn goes on with, or `Q` of the result that it returns.
abbrev pub Ends :
    {N : Type 0}
    → (ℕ → State N → Type 0)
    → (InvestigationResult N → State N → Type 0)
    → ℕ
    → Turn N
    → Type 0
Ends P Q step (stop r s) = Q r s
Ends P Q step (go s) = P step s

turn_ends :
    {N : Type 0} (P : ℕ → State N → Type 0) (Q : InvestigationResult N → State N → Type 0)
    (step : ℕ) (t : Turn N) (rest : State N → InvestigationResult N × State N)
    → Ends P Q step t
    → ((u : State N) → P step u → Q (rest u).0 (rest u).1)
    → let end : InvestigationResult N × State N = elim t [ stop r u ↦ (r, u) | go u ↦ rest u ] in
      Q end.0 end.1
turn_ends P Q step (stop r u) rest h k = h
turn_ends P Q step (go u) rest h k = k u h

module _ {N : Type 0} ⦃f : Float N⦄ (w : World N) (o : Settings N) (objective : String) where
  -- What holds before each step of the loop, for the number of the step to come.
  pub run_steps_rule :
      (P : ℕ → State N → Type 0) (Q : InvestigationResult N → State N → Type 0)
      → ((step : ℕ) (s : State N)
          → P step s
          → step ≤ o.max_steps
          → Ends P Q (suc step) (turn w o objective step s))
      → ((step : ℕ) (s : State N)
          → P step s
          → Q
              (result_of objective "Investigation did not conclude within the step budget."
                step_budget_exceeded s)
              s)
      → (left step : ℕ) (s : State N) → left + step ≤ suc o.max_steps
      → P step s
      → Q (run_steps w o objective left step s).0 (run_steps w o objective left step s).1
  unfolding run_steps
  run_steps_rule P Q body finish zero step s low p = finish step s p
  run_steps_rule P Q body finish (suc left) step s low p =
      turn_ends P Q (suc step) (turn w o objective step s) (run_steps w o objective left (suc step))
        (body step s p (omega arith))
        (λ t q. run_steps_rule P Q body finish left (suc step) t (omega arith) q)

module _ {N : Type 0} (w : World N) (o : Settings N) (call : ToolCall N) (step : ℕ) where
  abbrev pub Keeps : State N → State N → Type 0
  Keeps s t =
      (t.evidence ≡ s.evidence)
      × (t.total_tool_calls ≡ s.total_tool_calls)
      × (t.total_tokens_used ≡ s.total_tokens_used)
      × (t.findings ≡ s.findings)

  record_if-Keeps : (b : Bool) (s : State N) (event : TraceEvent N) → Keeps s (record_if b s event)
  unfolding record_if
  record_if-Keeps true s event = (refl, refl, refl, refl)
  record_if-Keeps false s event = (refl, refl, refl, refl)

  settle-Keeps : (s : State N) (r : HttpReply N) → Keeps s (settle w o call step s r).1
  unfolding settle
  settle-Keeps s (raised message) = (refl, refl, refl, refl)
  settle-Keeps s (reply result) = record_if-Keeps o.is_traced s _

  -- What executing a call leaves alone.
  pub execute_tool-Keeps : (s : State N) → Keeps s (execute_tool w o call step s).1
  unfolding execute_tool
  execute_tool-Keeps s = elim (Option-cases (find (λ name. name == call.name) o.tools)) [
    | inl unknown ↦ rw (unknown, execute_tool) (refl, refl, refl, refl)
    | inr (name, known) ↦
        rw (known, execute_tool)
          (settle-Keeps (record s { requests = s.requests ++ (call.name, call.arguments) ∷ [] })
            (w.request (length s.requests) call.name call.arguments))
  ]

  -- An executed call counts once, and leaves one reference as evidence.
  pub after_call_counts :
      (s : State N)
      → (length (after_call w o call step s).evidence ≡ suc (length s.evidence))
        × ((after_call w o call step s).total_tool_calls ≡ suc s.total_tool_calls)
  unfolding after_call
  after_call_counts s =
      let (evidence, calls, tokens, findings) = execute_tool-Keeps s in
      (
        length-append (execute_tool w o call step s).1.evidence (evidence_for w call ∷ [])
            ∙ rw evidence (omega arith),
        ap suc calls,
      )
