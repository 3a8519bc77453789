-- ===== src/Workflow/Runner/Ending.antt =====
-- workflow/engines.py: the loop of _SequentialRunner ends.
use synora_agentic_erp.Prelude.{
  ℕ, zero, suc, ◌+◌, ◌≤◌, ◌<◌, ◌≡◌, refl, ap, String, Bool, true, false, Option, none, some, List,
  [], ◌∷◌, ◌++◌, arith, length, inl, inr, Bool-cases, Option-cases, subst, sym,
}
use synora_agentic_erp.Prelude.Text.{prefix}
use synora_agentic_erp.Prelude.Result.{Result, ok, err, Result-cases, ◌>>=◌}
use synora_agentic_erp.Workflow.Contracts.{
  WorkflowStatus, StepStatus, PlanStep, WorkflowState, Fault,
}
use synora_agentic_erp.Workflow.Steps.{update_step, replace_step}
use synora_agentic_erp.Workflow.Engine.{
  with_status, start, ready_step, begin_step, complete_step, status_is_ready, status_is_running,
}
use synora_agentic_erp.Workflow.Control.{fail_step}
use synora_agentic_erp.Workflow.Opens.{opens, opens-length, begin_step-opens, complete_step-opens}
use synora_agentic_erp.Workflow.Settled.{complete_step-started, start-started}
use synora_agentic_erp.Workflow.Runner.{
  Execution, observed, refused, raised, code_or, text_or, Ran, Iteration, returns, again,
  settle_execution, run_step, go_on, run_steps, start_if_ready, drive, run,
}

-- The workflow is not running any more, or it never was, and there are at most n observations.
unfoldable pub IsOver : ℕ → Ran → Type 0
IsOver n r =
    (status_is_running r.current.status ≡ false)
    × (status_is_ready r.current.status ≡ false)
    × (length r.observations ≤ n)

-- What holds between two iterations.
record Goes (n : ℕ) (r : Ran) : Type 0 where
  live : status_is_ready r.current.status ≡ false
  few : length r.observations + opens r.current.steps ≤ n

-- What an iteration that begins with m steps to begin leaves.
abbrev Leaves : ℕ → ℕ → Iteration → Type 0
Leaves n m (returns r) = IsOver n r
Leaves n m (again r) = Goes n r × (opens r.current.steps < m)

length-snoc : (xs : List String) (x : String) → length (xs ++ x ∷ []) ≡ length xs + 1
length-snoc [] x = refl
length-snoc (y ∷ xs) x = ground (arith, length-snoc xs x)

length-update :
    (f : PlanStep → PlanStep) (id : String) (steps : List PlanStep)
    → length (update_step f id steps) ≡ length steps
unfolding update_step
length-update f id [] = refl
length-update f id (x ∷ steps) = ground (arith, length-update f id steps)

start-length :
    (now : ℕ) (s t : WorkflowState) → start now s ≡ ok t → length t.steps ≡ length s.steps
unfolding start replace_step
start-length now s t h =
    elim (Result-cases (ready_step (record s { status = WorkflowStatus.running }))) [
      | inr (x, p) ↦ absurd (ground arith)
      | inl (found, p) ↦ elim (Option-cases found) [
        | inl q ↦ absurd (ground arith)
        | inr (step, q) ↦
            ground (arith, length-update (with_status StepStatus.ready) step.step_id s.steps)
      ]
    ]

fail_step-over :
    (now : ℕ) (s t : WorkflowState) (code detail : String)
    → fail_step now s code detail ≡ ok t
    → (status_is_running t.status ≡ false) × (status_is_ready t.status ≡ false)
unfolding fail_step
fail_step-over now s t code detail h = (ground arith, ground arith)

fails-Leaves :
    (n m now : ℕ) (code detail : String) (r : Ran) (done : Iteration)
    → length r.observations + opens r.current.steps < n
    → (fail_step now r.current code detail >>= λ failed.
        ok (returns (record r { current = failed })))
      ≡ ok done
    → Leaves n m done
unfolding IsOver
fails-Leaves n m now code detail r done h e =
    elim (Result-cases (fail_step now r.current code detail)) [
      | inr (x, p) ↦ absurd (ground arith)
      | inl (t, p) ↦
          let same : returns (record r { current = t }) ≡ done = ground arith in
          let (idle, live) = fail_step-over now r.current t code detail p in
          subst (Leaves n m) same (idle, live, ground arith)
    ]

settle_execution-Leaves :
    (n m now : ℕ) (stamp : String) (r : Ran) (e : Execution) (done : Iteration)
    → length r.observations + opens r.current.steps < n
    → opens r.current.steps < m
    → settle_execution now stamp r e ≡ ok done
    → Leaves n m done
unfolding settle_execution
settle_execution-Leaves n m now stamp r (observed o) done h k e =
    elim (Result-cases (complete_step now stamp r.current o)) [
      | inr (x, p) ↦ absurd (ground arith)
      | inl (t, p) ↦
          let r' : Ran = record { current = t; observations = r.observations ++ o.digest ∷ [] } in
          let same : again r' ≡ done = ground arith in
          let fewer = complete_step-opens now stamp r.current t o p in
          subst (Leaves n m) same (
            record {
              live = complete_step-started now stamp r.current t o p;
              few = ground (arith, fewer, length-snoc r.observations o.digest);
            },
            ground (arith, fewer),
          )
    ]
settle_execution-Leaves n m now stamp r (refused code detail) done h k e =
    fails-Leaves n m now (code_or code "TOOL_ERROR") detail r done h e
settle_execution-Leaves n m now stamp r (raised detail) done h k e =
    fails-Leaves n m now "TOOL_ERROR" (text_or (prefix 400 detail) "tool failed") r done h e

-- The loop is not out of fuel, and what it returns is over.
unfoldable pub Finishes : ℕ → Option (Result Fault Ran) → Type 0
Finishes n none = ⊥
Finishes n (some (err e)) = Unit {0}
Finishes n (some (ok r)) = IsOver n r

module _ (now : ℕ → ℕ) (stamp : ℕ → String) (execute : PlanStep → Execution) where
  run_step-Leaves :
      (n k : ℕ) (r : Ran) (done : Iteration)
      → Goes n r
      → run_step now stamp execute k r ≡ ok done
      → Leaves n (opens r.current.steps) done
  unfolding run_step
  run_step-Leaves n k r done g e = elim (Result-cases (ready_step r.current)) [
    | inr (x, p) ↦ absurd (ground arith)
    | inl (found, p) ↦ elim (Option-cases found) [
      | inl q ↦ absurd (ground arith)
      | inr (step, q) ↦ elim (Result-cases (begin_step (now k) r.current step.step_id)) [
        | inr (x, b) ↦ absurd (ground arith)
        | inl (begun, b) ↦
            let fewer = begin_step-opens (now k) r.current begun step.step_id b in
            settle_execution-Leaves n (opens r.current.steps) (now (k + 1)) (stamp k)
              (record r { current = begun }) (execute step) done (ground (arith, fewer, g.few))
              fewer (ground arith)
      ]
    ]
  ]

  over-Finishes :
      (n : ℕ) (r : Ran)
      → status_is_running r.current.status ≡ false
      → Goes n r
      → Finishes n (some (ok r))
  unfolding Finishes IsOver
  over-Finishes n r idle g = (idle, g.live, ground (arith, g.few))

  either-Finishes :
      (n : ℕ) (b : Bool) (x y : Option (Result Fault Ran))
      → (b ≡ true → Finishes n x)
      → (b ≡ false → Finishes n y)
      → Finishes n (elim b as (λ _. Option (Result Fault Ran)) [ true ↦ x | false ↦ y ])
  either-Finishes n true x y t f = t refl
  either-Finishes n false x y t f = f refl

  go_on-Finishes :
      (n m : ℕ) (rest : Ran → Option (Result Fault Ran)) (done : Result Fault Iteration)
      → ((t : Iteration) → done ≡ ok t → Leaves n m t)
      → ((r : Ran) → Goes n r → opens r.current.steps < m → Finishes n (rest r))
      → Finishes n (go_on rest done)
  unfolding Finishes
  go_on-Finishes n m rest (err e) h k = tt
  go_on-Finishes n m rest (ok (returns r)) h k = h (returns r) refl
  go_on-Finishes n m rest (ok (again r)) h k = let (g, l) = h (again r) refl in k r g l

  run_steps-Finishes :
      (n fuel k : ℕ) (r : Ran)
      → Goes n r
      → opens r.current.steps < fuel
      → Finishes n (run_steps now stamp execute fuel k r)
  unfolding run_steps
  run_steps-Finishes n zero k r g h = absurd (ground arith)
  run_steps-Finishes n (suc fuel) k r g h =
      either-Finishes n (status_is_running r.current.status) _ _
        (λ _.
          go_on-Finishes n (opens r.current.steps) _ _ (λ done e. run_step-Leaves n k r done g e)
            (λ r' g' l. run_steps-Finishes n fuel (k + 2) r' g' (omega arith)))
        (λ idle. over-Finishes n r idle g)

  start_if_ready_lem :
      (s t : WorkflowState)
      → start_if_ready now stamp execute s ≡ ok t
      → (status_is_ready t.status ≡ false) × (length t.steps ≡ length s.steps)
  unfolding start_if_ready
  start_if_ready_lem s t e = elim (Bool-cases (status_is_ready s.status)) [
    | inl p ↦
        let h : start (now 0) s ≡ ok t = ground arith in
        (start-started (now 0) s t h, start-length (now 0) s t h)
    | inr p ↦
        let same : s ≡ t = ground arith in
        (subst (λ x. status_is_ready x.status ≡ false) same p, ap (λ x. length x.steps) (sym same))
  ]

  drive-Finishes :
      (n : ℕ) (r : Result Fault WorkflowState)
      → ((t : WorkflowState) → r ≡ ok t → (status_is_ready t.status ≡ false) × (length t.steps ≤ n))
      → Finishes n (drive now stamp execute r)
  unfolding Finishes
  drive-Finishes n (err e) h = tt
  drive-Finishes n (ok t) h =
      let (live, few) = h t refl in
      run_steps-Finishes n (length t.steps + 1) 1 (record { current = t; observations = [] })
        (record { live = live; few = ground (arith, opens-length t.steps) })
        (ground (arith, opens-length t.steps))

-- A run of the sequential runner ends, whatever the executor does and the clock shows: it raises, or it
-- returns a state that is neither ready nor running, with at most one observation for each step of the
-- plan.
pub run-Finishes :
    (now : ℕ → ℕ) (stamp : ℕ → String) (execute : PlanStep → Execution) (s : WorkflowState)
    → Finishes (length s.steps) (run now stamp execute s)
unfolding run
run-Finishes now stamp execute s =
    drive-Finishes now stamp execute (length s.steps) (start_if_ready now stamp execute s)
      (λ t e. let (live, same) = start_if_ready_lem now stamp execute s t e in (live, omega arith))
