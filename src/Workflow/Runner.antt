-- ===== src/Workflow/Runner.antt =====
-- workflow/engines.py: _SequentialRunner, the deterministic loop of the offline runners. `now` and
-- `stamp` are what the engine reads of its clock at each call, and `execute` is the caller's executor.
pub mod Ending
pub mod Examples
use synora_agentic_erp.Prelude.{
  ℕ, zero, suc, ◌+◌, String, ◌==◌, Bool, true, false, Option, none, some, List, [], ◌∷◌, ◌++◌,
  length, if◌then◌else◌,
}
use synora_agentic_erp.Prelude.Text.{prefix}
use synora_agentic_erp.Prelude.Result.{Result, ok, err, ◌>>=◌}
use synora_agentic_erp.Workflow.Contracts.{
  PlanStep, WorkflowState, Fault, workflow_error, workflow_invalid,
}
use synora_agentic_erp.Workflow.Engine.{
  Observed, start, ready_step, begin_step, complete_step, status_is_ready, status_is_running,
}
use synora_agentic_erp.Workflow.Control.{fail_step}

-- What the executor does: an observation with `ok`, one without, which has its error code, if any, and
-- its summary, or an exception with its text.
pub data Execution : Type 0 where
  observed : Observed → Execution
  refused : Option String → String → Execution
  raised : String → Execution

-- The variables `current` and `observations`, which the result has, too.
pub record Ran : Type 0 where
  pub current : WorkflowState
  pub observations : List String

-- How an iteration ends: by a `return`, or by the next test of the loop.
pub data Iteration : Type 0 where
  returns : Ran → Iteration
  again : Ran → Iteration

abbrev pub require_ready : Option PlanStep → Result Fault PlanStep
require_ready none = err (workflow_error workflow_invalid "running workflow has no ready step")
require_ready (some step) = ok step

-- a or b, for texts that may be empty or absent
abbrev pub text_or : String → String → String
text_or a b = if a == "" then b else a

abbrev pub code_or : Option String → String → String
code_or none b = b
code_or (some a) b = text_or a b

unfoldable pub settle_execution : ℕ → String → Ran → Execution → Result Fault Iteration
unfolding prefix
settle_execution now stamp r (observed o) = do
  completed ← complete_step now stamp r.current o
  ok (again (record { current = completed; observations = r.observations ++ o.digest ∷ [] }))
settle_execution now stamp r (refused code detail) = do
  failed ← fail_step now r.current (code_or code "TOOL_ERROR") detail
  ok (returns (record r { current = failed }))
settle_execution now stamp r (raised detail) = do
  failed ← fail_step now r.current "TOOL_ERROR" (text_or (prefix 400 detail) "tool failed")
  ok (returns (record r { current = failed }))

abbrev pub go_on :
    (Ran → Option (Result Fault Ran)) → Result Fault Iteration → Option (Result Fault Ran)
go_on run_steps (err e) = some (err e)
go_on run_steps (ok (returns r)) = some (ok r)
go_on run_steps (ok (again r)) = run_steps r

module _ (now : ℕ → ℕ) (stamp : ℕ → String) (execute : PlanStep → Execution) where
  -- The body of the loop; `k` counts the readings of the clock.
  unfoldable pub run_step : ℕ → Ran → Result Fault Iteration
  run_step k r = do
    found ← ready_step r.current
    step ← require_ready found
    begun ← begin_step (now k) r.current step.step_id
    settle_execution (now (k + 1)) (stamp k) (record r { current = begun }) (execute step)

  -- while current.status == "RUNNING": ..., for at most so many iterations; none if they are not enough
  unfoldable pub run_steps : ℕ → ℕ → Ran → Option (Result Fault Ran)
  run_steps zero k r = none
  run_steps (suc fuel) k r = elim (status_is_running r.current.status) [
    | true ↦ go_on (run_steps fuel (k + 2)) (run_step k r)
    | false ↦ some (ok r)
  ]

  -- self.engine.start(state) if state.status == "READY" else state
  unfoldable pub start_if_ready : WorkflowState → Result Fault WorkflowState
  start_if_ready state = if status_is_ready state.status then start (now 0) state else ok state

  abbrev pub drive : Result Fault WorkflowState → Option (Result Fault Ran)
  drive (err e) = some (err e)
  drive (ok current) =
      run_steps (length current.steps + 1) 1 (record { current = current; observations = [] })

  -- run(state, execute)
  unfoldable pub run : WorkflowState → Option (Result Fault Ran)
  run state = drive (start_if_ready state)
