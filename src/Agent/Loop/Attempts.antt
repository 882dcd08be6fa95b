-- ===== src/Agent/Loop/Attempts.antt =====
-- A run whose provider may raise, beside the run whose provider always responds.
use industrial_context_aware.Base.{
  ℕ, zero, suc, ◌+◌, ◌≤◌, ◌≡◌, refl, false, ◌⊎◌, inl, inr, String, Option, none, some, Bool-cases,
  arith,
}
use industrial_context_aware.Base.Attempts.{Attempt, raises, gives}
use industrial_context_aware.Base.Float.{Float}
use industrial_context_aware.Base.Json.{Fields}
use industrial_context_aware.Agent.Interface.{InvestigationResult}
use industrial_context_aware.Agent.World.{World, Settings, State, Turn, stop, go}
use industrial_context_aware.Agent.Loop.{
  turn, is_late, run_steps, run, initial, raised_at, proceed, attempt_steps, attempt,
}

module _ {N : Type 0} ⦃f : Float N⦄ (w : World N) (o : Settings N) (objective : String) where
  -- The run was left by an exception of the provider, in a step that had begun in time, with the
  -- state of that moment.
  pub record IsLeft (outcome : Attempt (InvestigationResult N) × State N) : Type 0 where
    pub step : ℕ
    pub text : String
    pub first : 1 ≤ step
    pub last : step ≤ o.max_steps
    pub early : is_late w o step ≡ false
    pub raised : w.generate_error step outcome.1.messages ≡ some text
    pub left_by : outcome.0 ≡ raises text

  -- The run gives the result of a run whose provider always responds, or was left.
  abbrev pub RunsOrLeaves :
      Attempt (InvestigationResult N) × State N → InvestigationResult N × State N → Type 0
  RunsOrLeaves outcome whole = (outcome ≡ (gives whole.0, whole.1)) ⊎ IsLeft outcome

  raised_at-early :
      (step : ℕ) (s : State N) {text : String}
      → raised_at w o step s ≡ some text
      → (is_late w o step ≡ false) × (w.generate_error step s.messages ≡ some text)
  unfolding raised_at
  raised_at-early step s h = elim (Bool-cases (is_late w o step)) [
    | inl late ↦ absurd (cc (rw late at h))
    | inr early ↦ (early, rw early at h)
  ]

  proceed-RunsOrLeaves :
      (step : ℕ) (error : Option String) (s : State N) (t : Turn N)
      (next : State N → Attempt (InvestigationResult N) × State N)
      (rest : State N → InvestigationResult N × State N)
      → 1 ≤ step
      → step ≤ o.max_steps
      → raised_at w o step s ≡ error
      → ((u : State N) → RunsOrLeaves (next u) (rest u))
      → RunsOrLeaves (proceed w o error s t next) (elim t [ stop r u ↦ (r, u) | go u ↦ rest u ])
  unfolding proceed
  proceed-RunsOrLeaves step (some text) s t next rest low high e h =
      let (early, raised) = raised_at-early step s e in
      inr (record {
        step = step;
        text = text;
        first = low;
        last = high;
        early = early;
        raised = raised;
        left_by = refl;
      })
  proceed-RunsOrLeaves step none s (stop result u) next rest low high e h = inl refl
  proceed-RunsOrLeaves step none s (go u) next rest low high e h = h u

  attempt_steps-RunsOrLeaves :
      (left step : ℕ) (s : State N)
      → 1 ≤ step
      → left + step ≤ suc o.max_steps
      → RunsOrLeaves (attempt_steps w o objective left step s) (run_steps w o objective left step s)
  unfolding attempt_steps run_steps
  attempt_steps-RunsOrLeaves zero step s low high = inl refl
  attempt_steps-RunsOrLeaves (suc left) step s low high =
      proceed-RunsOrLeaves step (raised_at w o step s) s (turn w o objective step s)
        (attempt_steps w o objective left (suc step)) (run_steps w o objective left (suc step)) low
        (omega arith) refl
        (λ u. attempt_steps-RunsOrLeaves left (suc step) u (omega arith) (omega arith))

  -- A run whose provider may raise gives exactly what the run gives whose provider responds in each
  -- step, or raises the very exception that the provider raised in one of the run's steps, before
  -- which the wall time was not exceeded.
  pub attempt-RunsOrLeaves :
      (initial_state : Fields N)
      → RunsOrLeaves (attempt w o objective initial_state) (run w o objective initial_state)
  unfolding attempt run
  attempt-RunsOrLeaves initial_state =
      attempt_steps-RunsOrLeaves o.max_steps 1 (initial w o objective initial_state) (omega arith)
        (omega arith)
