-- ===== src/Agent/Loop/Tokens.antt =====
-- The token and wall-time budgets of a run.
use industrial_context_aware.Base.{
  not-true, ℕ, suc, ◌≤◌, ◌<◌, ◌≡◌, ◌↔◌, refl, sym, ◌∙◌, true, false, String, Option, none, some,
  some-injective, List, [], ◌∷◌, arith, ◌==◌, string_eq, Bool-cases, Option-cases, inl, inr, ltb→lt,
  ◌⊎◌,
}
use industrial_context_aware.Base.Float.{Float}
use industrial_context_aware.Base.Json.{Fields}
use industrial_context_aware.Agent.Interface.{
  InvestigationResult, TerminationReason, submitted, no_tool_call, step_budget_exceeded,
  tool_call_budget_exceeded, token_budget_exceeded, wall_time_budget_exceeded,
}
use industrial_context_aware.Agent.World.{ToolCall, World, Settings, State}
use industrial_context_aware.Agent.Calls.{after_call}
use industrial_context_aware.Agent.Loop.{
  turn, result_of, calls_loop, answer, respond, spend, is_late, is_spent, is_exceeded, run, initial,
  conclusion_of,
}
use industrial_context_aware.Agent.Loop.Rules.{Ends, run_steps_rule, execute_tool-Keeps}

-- A state within the token budget, if there is one.
abbrev pub IsWithin : Option ℕ → ℕ → Type 0
IsWithin budget used = (limit : ℕ) → budget ≡ some limit → used ≤ limit

-- A state past the token budget.
abbrev pub IsOver : Option ℕ → ℕ → Type 0
IsOver budget used = (limit : ℕ) × (budget ≡ some limit) × (limit < used)

is_exceeded-IsOver :
    (budget : Option ℕ) (used : ℕ) → is_exceeded budget used ≡ true → IsOver budget used
unfolding is_exceeded
is_exceeded-IsOver none used h = cc
is_exceeded-IsOver (some limit) used h = (limit, refl, ltb→lt limit used h)

is_exceeded-IsWithin :
    (budget : Option ℕ) (used : ℕ) → is_exceeded budget used ≡ false → IsWithin budget used
unfolding is_exceeded
is_exceeded-IsWithin none used h limit e = cc
is_exceeded-IsWithin (some m) used h limit e = ground (arith, some-injective m limit e)

is_token_budget :
    (t : TerminationReason) → (t ≡ token_budget_exceeded) ⊎ (t ≡ token_budget_exceeded → ⊥)
is_token_budget token_budget_exceeded = inl refl
is_token_budget submitted = inr (λ e. cc)
is_token_budget no_tool_call = inr (λ e. cc)
is_token_budget step_budget_exceeded = inr (λ e. cc)
is_token_budget tool_call_budget_exceeded = inr (λ e. cc)
is_token_budget wall_time_budget_exceeded = inr (λ e. cc)

module _ {N : Type 0} ⦃f : Float N⦄ (w : World N) (o : Settings N) where
  -- The clock had passed the wall-time budget at the start of a step.
  abbrev pub IsLate : Type 0
  IsLate =
      (limit : N) × (o.max_wall_time_seconds ≡ some limit)
      × ((step : ℕ) × (step ≤ o.max_steps) × (f.lt (w.elapsed step) limit ≡ false))

  -- What a result says of the budgets: past the token budget exactly if it reports that, and late
  -- where it reports that.
  pub record IsTold (r : InvestigationResult N) (s : State N) : Type 0 where
    pub over :
        r.termination ≡ token_budget_exceeded → IsOver o.max_context_tokens s.total_tokens_used
    pub within :
        (r.termination ≡ token_budget_exceeded → ⊥)
        → IsWithin o.max_context_tokens s.total_tokens_used
    pub late : r.termination ≡ wall_time_budget_exceeded → IsLate

  abbrev Frugal : ℕ → State N → Type 0
  Frugal step s = IsWithin o.max_context_tokens s.total_tokens_used

  late_budget : (step : ℕ) → step ≤ o.max_steps → is_late w o step ≡ true → IsLate
  unfolding is_late
  late_budget step low h = elim (Option-cases o.max_wall_time_seconds) [
    | inl unset ↦ absurd (cc (rw unset at h))
    | inr (limit, e) ↦ (limit, e, (step, low, not-true (rw e at h)))
  ]

module _ {N : Type 0} ⦃f : Float N⦄ (w : World N) (o : Settings N) (objective : String)
    (next : ℕ) where
  after_call-tokens :
      (call : ToolCall N) (step : ℕ) (s : State N)
      → (after_call w o call step s).total_tokens_used ≡ s.total_tokens_used
  unfolding after_call
  after_call-tokens call step s = (execute_tool-Keeps w o call step s).2

  -- A result that reports neither of the two budgets.
  abbrev IsOther : TerminationReason → Type 0
  IsOther termination =
      (termination ≡ token_budget_exceeded → ⊥) × (termination ≡ wall_time_budget_exceeded → ⊥)

  result_of-IsTold :
      (conclusion : String) (termination : TerminationReason) (s : State N)
      → IsWithin o.max_context_tokens s.total_tokens_used
      → IsOther termination
      → IsTold w o (result_of objective conclusion termination s) s
  unfolding result_of
  result_of-IsTold conclusion termination s within (not_over, not_late) = record {
    over = λ e. absurd (not_over e);
    within = λ h. within;
    late = λ e. absurd (not_late e);
  }

  result_of_over :
      (conclusion : String) (s : State N)
      → IsOver o.max_context_tokens s.total_tokens_used
      → IsTold w o (result_of objective conclusion token_budget_exceeded s) s
  unfolding result_of
  result_of_over conclusion s over = record {
    over = λ e. over;
    within = λ h. absurd (h refl);
    late = λ e. cc;
  }

  pub result_of_late :
      (conclusion : String) (s : State N)
      → IsWithin o.max_context_tokens s.total_tokens_used
      → IsLate w o
      → IsTold w o (result_of objective conclusion wall_time_budget_exceeded s) s
  unfolding result_of
  result_of_late conclusion s within late = record {
    over = λ e. cc;
    within = λ h. within;
    late = λ e. late;
  }

  calls_loop-Ends :
      (step : ℕ) (calls : List (ToolCall N)) (s : State N)
      → Frugal w o next s
      → Ends (Frugal w o) (IsTold w o) next (calls_loop w o objective step calls s)
  unfolding calls_loop
  calls_loop-Ends step [] s c = c
  calls_loop-Ends step (call ∷ calls) s c =
      elim (Bool-cases (call.name == "submit_investigation")) [
        | inl submit ↦
            rw submit (result_of-IsTold (conclusion_of w o call) submitted s c (λ e. cc, λ e. cc))
        | inr work ↦ rw work (elim (Bool-cases (is_spent o.max_tool_calls s.total_tool_calls)) [
          | inl spent ↦
              rw spent (result_of-IsTold _ tool_call_budget_exceeded s c (λ e. cc, λ e. cc))
          | inr fresh ↦ rw fresh (
              calls_loop-Ends step calls (after_call w o call step s)
                (λ limit e. omega (arith, c limit e, after_call-tokens call step s)))
        ])
      ]

  answer-Ends :
      (step : ℕ) (content : Option String) (calls : List (ToolCall N)) (s : State N)
      → Frugal w o next s
      → Ends (Frugal w o) (IsTold w o) next (answer w o objective step content calls s)
  unfolding answer
  answer-Ends step content [] s c = result_of-IsTold _ no_tool_call s c (λ e. cc, λ e. cc)
  answer-Ends step content (call ∷ calls) s c = calls_loop-Ends step (call ∷ calls) _ c

  respond-Ends :
      (step : ℕ) (content : Option String) (calls : List (ToolCall N))
      (usage : Option (List (String × ℕ))) (s : State N)
      → Frugal w o next s
      → Ends (Frugal w o) (IsTold w o) next (respond w o objective step content calls usage s)
  unfolding respond
  respond-Ends step content calls none s c = answer-Ends step content calls s c
  respond-Ends step content calls (some usage) s c =
      let t = spend w o step usage s in
      elim (Bool-cases (is_exceeded o.max_context_tokens t.total_tokens_used)) [
        | inl over ↦ rw over (result_of_over _ t (is_exceeded-IsOver _ _ over))
        | inr under ↦ rw under (answer-Ends step content calls t (is_exceeded-IsWithin _ _ under))
      ]

module _ {N : Type 0} ⦃f : Float N⦄ (w : World N) (o : Settings N) (objective : String) where
  turn-Ends :
      (step : ℕ) (s : State N)
      → Frugal w o step s
      → step ≤ o.max_steps
      → Ends (Frugal w o) (IsTold w o) (suc step) (turn w o objective step s)
  unfolding turn
  turn-Ends step s c low = elim (Bool-cases (is_late w o step)) [
    | inl late ↦ rw late (result_of_late w o objective step _ s c (late_budget w o step low late))
    | inr early ↦
        let response = w.generate step s.messages in
        rw early (
          respond-Ends w o objective (suc step) step response.content response.tool_calls
            response.token_usage s c)
  ]

  run-IsTold :
      (initial_state : Fields N)
      → IsTold w o (run w o objective initial_state).0 (run w o objective initial_state).1
  unfolding run initial
  run-IsTold initial_state =
      run_steps_rule w o objective (Frugal w o) (IsTold w o) turn-Ends
        (λ step s c.
          result_of-IsTold w o objective step _ step_budget_exceeded s c (λ e. cc, λ e. cc))
        o.max_steps 1 _ (omega arith) (λ limit e. omega arith)

  -- However the model answers, a run under a token budget reports it as exceeded exactly if it used
  -- more tokens than the budget allows.
  pub run-token_budget_exceeded_iff :
      (initial_state : Fields N) (limit : ℕ)
      → o.max_context_tokens ≡ some limit
      → ((run w o objective initial_state).0.termination ≡ token_budget_exceeded)
        ↔ (limit < (run w o objective initial_state).1.total_tokens_used)
  run-token_budget_exceeded_iff initial_state limit e =
      let told = run-IsTold initial_state in
      (
        λ h.
            let (budget, same, over) = told.over h in
            omega (arith, over, some-injective budget limit (sym same ∙ e)),
        λ over. elim (is_token_budget (run w o objective initial_state).0.termination) [
          | inl h ↦ h
          | inr other ↦ absurd (omega (arith, told.within other limit e, over))
        ],
      )

  -- A run that reports its wall time as exceeded had such a budget, and at the start of one of its
  -- steps the clock was not below it.
  pub run-wall_time_budget_exceeded :
      (initial_state : Fields N)
      → (run w o objective initial_state).0.termination ≡ wall_time_budget_exceeded
      → IsLate w o
  run-wall_time_budget_exceeded initial_state = (run-IsTold initial_state).late
