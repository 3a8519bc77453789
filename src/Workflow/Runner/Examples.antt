-- ===== src/Workflow/Runner/Examples.antt =====
-- A plan of two steps, run to its end.
use synora_agentic_erp.Prelude.{◌≡◌, refl, Option, none, some, length}
use synora_agentic_erp.Prelude.Result.{Result, ok, err}
use synora_agentic_erp.Workflow.Contracts.{WorkflowStatus, PlanStep, Fault}
use synora_agentic_erp.Workflow.Steps.{next_ready, find_step, get_step, replace_step, update_step}
use synora_agentic_erp.Workflow.Engine.{
  start, ensure_not_expired, ensure_running, ready_step, begin_step, complete_step, advance,
}
use synora_agentic_erp.Workflow.Examples.{blank}
use synora_agentic_erp.Workflow.Runner.{
  Execution, observed, Ran, settle_execution, run_step, run_steps, start_if_ready, run,
}
use synora_agentic_erp.Workflow.Runner.Ending.{Finishes, run-Finishes}

abbrev reads : PlanStep → Execution
reads step = observed (record { tool_name = "stock.projected"; digest = step.step_id })

run-Finishes_example : Finishes (length blank.steps) (run (λ k. k) (λ k. "t") reads blank)
run-Finishes_example = run-Finishes (λ k. k) (λ k. "t") reads blank

abbrev status_of : Option (Result Fault Ran) → Option WorkflowStatus
status_of (some (ok r)) = some r.current.status
status_of (some (err e)) = none
status_of none = none

runs_to_success : status_of (run (λ k. k) (λ k. "t") reads blank) ≡ some WorkflowStatus.succeeded
unfolding run start_if_ready run_steps run_step settle_execution start ensure_not_expired
    ensure_running ready_step begin_step complete_step advance next_ready find_step get_step
    replace_step update_step
runs_to_success = refl
