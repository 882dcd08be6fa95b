-- ===== src/Agent/Loop/Budgets.antt =====
-- The budgets of a run.
use industrial_context_aware.Base.{
  ℕ, suc, ◌≤◌, ◌≡◌, refl, true, false, String, Option, none, some, List, [], ◌∷◌, arith, length,
  ◌==◌, string_eq, Bool-cases, inl, inr, leb→le,
}
use industrial_context_aware.Base.Float.{Float}
use industrial_context_aware.Base.Json.{Fields}
use industrial_context_aware.Agent.Interface.{
  InvestigationResult, TerminationReason, submitted, no_tool_call, step_budget_exceeded,
  tool_call_budget_exceeded, token_budget_exceeded, wall_time_budget_exceeded,
}
use industrial_context_aware.Agent.World.{ToolCall, World, Settings, State}
use industrial_context_aware.Agent.Calls.{after_call, record_if}
use industrial_context_aware.Agent.Loop.{
  turn, result_of, calls_loop, answer, respond, spend, is_late, is_spent, is_exceeded, run, initial,
  conclusion_of,
}
use industrial_context_aware.Agent.Loop.Rules.{Ends, run_steps_rule, after_call_counts}

module _ {N : Type 0} (o : Settings N) where
  -- The evidence counts the executed calls, which stay within the budget.
  pub record IsCounted (s : State N) : Type 0 where
    pub counted : length s.evidence ≡ s.total_tool_calls
    pub within : (limit : ℕ) → o.max_tool_calls ≡ some limit → s.total_tool_calls ≤ limit

  -- What a returned result says of its evidence.
  pub record IsBudgeted (r : InvestigationResult N) (s : State N) : Type 0 where
    pub counted : length r.evidence ≡ s.total_tool_calls
    pub within : (limit : ℕ) → o.max_tool_calls ≡ some limit → length r.evidence ≤ limit
    pub spent :
        r.termination ≡ tool_call_budget_exceeded
        → (limit : ℕ) × (o.max_tool_calls ≡ some limit) × (length r.evidence ≡ limit)

  abbrev Counted : ℕ → State N → Type 0
  Counted step s = IsCounted s

is_spent-limit :
    (max : Option ℕ) (total : ℕ)
    → is_spent max total ≡ true
    → (limit : ℕ) × (max ≡ some limit) × (limit ≤ total)
unfolding is_spent
is_spent-limit none total h = cc
is_spent-limit (some limit) total h = (limit, refl, leb→le limit total h)

module _ {N : Type 0} (w : World N) (o : Settings N) (objective : String) (next : ℕ) where
  after_call-IsCounted :
      (call : ToolCall N) (step : ℕ) (s : State N)
      → IsCounted o s
      → is_spent o.max_tool_calls s.total_tool_calls ≡ false
      → IsCounted o (after_call w o call step s)
  unfolding is_spent
  after_call-IsCounted call step s c fresh =
      let (evidence, calls) = after_call_counts w o call step s in
      record {
        counted = omega (arith, evidence, calls, c.counted);
        within = λ limit e. rw (calls) (ground (arith, rw (e, is_spent) at fresh));
      }

  result_of-IsBudgeted :
      (conclusion : String) (termination : TerminationReason) (s : State N)
      → IsCounted o s
      → (termination ≡ tool_call_budget_exceeded
          → is_spent o.max_tool_calls s.total_tool_calls ≡ true)
      → IsBudgeted o (result_of objective conclusion termination s) s
  unfolding result_of
  result_of-IsBudgeted conclusion termination s c h = record {
    counted = c.counted;
    within = λ limit e. rw c.counted (c.within limit e);
    spent = λ ended.
        let (limit, e, low) = is_spent-limit o.max_tool_calls s.total_tool_calls (h ended) in
        (limit, e, omega (arith, c.within limit e, c.counted));
  }

  calls_loop-Ends :
      (step : ℕ) (calls : List (ToolCall N)) (s : State N)
      → IsCounted o s
      → Ends (Counted o) (IsBudgeted o) next (calls_loop w o objective step calls s)
  unfolding calls_loop
  calls_loop-Ends step [] s c = c
  calls_loop-Ends step (call ∷ calls) s c =
      elim (Bool-cases (call.name == "submit_investigation")) [
        | inl submit ↦
            rw submit (result_of-IsBudgeted (conclusion_of w o call) submitted s c (λ e. cc))
        | inr work ↦ rw work (elim (Bool-cases (is_spent o.max_tool_calls s.total_tool_calls)) [
          | inl spent ↦ rw spent (result_of-IsBudgeted _ tool_call_budget_exceeded s c (λ e. spent))
          | inr fresh ↦ rw fresh (
              calls_loop-Ends step calls (after_call w o call step s)
                (after_call-IsCounted call step s c fresh))
        ])
      ]

  answer-Ends :
      (step : ℕ) (content : Option String) (calls : List (ToolCall N)) (s : State N)
      → IsCounted o s
      → Ends (Counted o) (IsBudgeted o) next (answer w o objective step content calls s)
  unfolding answer
  answer-Ends step content [] s c = result_of-IsBudgeted _ no_tool_call s c (λ e. cc)
  answer-Ends step content (call ∷ calls) s c =
      calls_loop-Ends step (call ∷ calls) _ (record { counted = c.counted; within = c.within })

  spend-IsCounted :
      (step : ℕ) (usage : List (String × ℕ)) (s : State N)
      → IsCounted o s
      → IsCounted o (spend w o step usage s)
  unfolding spend record_if
  spend-IsCounted step usage s c = ground arith

  respond-Ends :
      (step : ℕ) (content : Option String) (calls : List (ToolCall N))
      (usage : Option (List (String × ℕ))) (s : State N)
      → IsCounted o s
      → Ends (Counted o) (IsBudgeted o) next (respond w o objective step content calls usage s)
  unfolding respond
  respond-Ends step content calls none s c = answer-Ends step content calls s c
  respond-Ends step content calls (some usage) s c =
      let t = spend w o step usage s in
      let d = spend-IsCounted step usage s c in
      elim (Bool-cases (is_exceeded o.max_context_tokens t.total_tokens_used)) [
        | inl over ↦ rw over (result_of-IsBudgeted _ token_budget_exceeded t d (λ e. cc))
        | inr under ↦ rw under (answer-Ends step content calls t d)
      ]

module _ {N : Type 0} ⦃f : Float N⦄ (w : World N) (o : Settings N) (objective : String) where
  turn-Ends :
      (step : ℕ) (s : State N)
      → IsCounted o s
      → Ends (Counted o) (IsBudgeted o) (suc step) (turn w o objective step s)
  unfolding turn
  turn-Ends step s c = elim (Bool-cases (is_late w o step)) [
    | inl late ↦
        rw late (result_of-IsBudgeted w o objective step _ wall_time_budget_exceeded s c (λ e. cc))
    | inr early ↦
        let response = w.generate step s.messages in
        rw early (
          respond-Ends w o objective (suc step) step response.content response.tool_calls
            response.token_usage s c)
  ]

  run-IsBudgeted :
      (initial_state : Fields N)
      → IsBudgeted o (run w o objective initial_state).0 (run w o objective initial_state).1
  unfolding run initial
  run-IsBudgeted initial_state =
      run_steps_rule w o objective (Counted o) (IsBudgeted o) (λ step s c low. turn-Ends step s c)
        (λ step s c. result_of-IsBudgeted w o objective step _ step_budget_exceeded s c (λ e. cc))
        o.max_steps 1 _ (omega arith) (record { counted = refl; within = λ limit e. omega arith })

  -- However the model answers, a run returns a result with one piece of evidence for each executed
  -- tool call, and under a tool-call budget there are no more of them than the budget.
  pub run-evidence_le :
      (initial_state : Fields N) (limit : ℕ)
      → o.max_tool_calls ≡ some limit
      → (length (run w o objective initial_state).0.evidence
          ≡ (run w o objective initial_state).1.total_tool_calls)
        × (length (run w o objective initial_state).0.evidence ≤ limit)
  run-evidence_le initial_state limit e =
      let budgeted = run-IsBudgeted initial_state in (budgeted.counted, budgeted.within limit e)

  -- A run that reports its tool-call budget as exceeded had such a budget, and has executed
  -- exactly as many calls as it allows.
  pub run-tool_call_budget_exceeded :
      (initial_state : Fields N)
      → (run w o objective initial_state).0.termination ≡ tool_call_budget_exceeded
      → (limit : ℕ) × (o.max_tool_calls ≡ some limit)
        × (length (run w o objective initial_state).0.evidence ≡ limit)
  run-tool_call_budget_exceeded initial_state = (run-IsBudgeted initial_state).spent
