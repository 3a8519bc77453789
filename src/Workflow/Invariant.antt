-- ===== src/Workflow/Invariant.antt =====
-- What holds of a workflow between two calls of the engine: a valid plan, at most one active step,
-- which is the current one, no step that was started before its dependencies had
-- succeeded, and a current step that waits while the user is asked.
use synora_agentic_erp.Prelude.{
  String, ◌≡◌, Bool, true, false, not, ◌||◌, Option, none, some, List, all, subset,
}
use synora_agentic_erp.Prelude.Result.{ok}
use synora_agentic_erp.Workflow.Contracts.{StepStatus, PlanStep, WorkflowState, WorkflowStatus}
use synora_agentic_erp.Workflow.Dag.{validate_plan_dag}
use synora_agentic_erp.Workflow.Steps.{succeeded_ids, is_active, find_step}
use synora_agentic_erp.Workflow.Steps.Update.{active_only}

-- The step runs, waits, or has run.
abbrev pub started : StepStatus → Bool
started StepStatus.running = true
started StepStatus.waiting = true
started StepStatus.succeeded = true
started StepStatus.failed = true
started _ = false

abbrev pub in_turn : List String → PlanStep → Bool
in_turn done step = not (started step.status) || subset step.depends_on done

-- The current step is one of the plan, and is active.
unfoldable pub current_active : Option String → List PlanStep → Bool
current_active none steps = false
current_active (some id) steps = elim (find_step id steps) [
  | none ↦ false
  | some step ↦ is_active step.status
]

-- While the user is asked, the current step is the one that waits for the answer.
abbrev pub asks_for_current : WorkflowStatus → Option String → List PlanStep → Bool
asks_for_current WorkflowStatus.interrupted cur steps = current_active cur steps
asks_for_current _ cur steps = true

pub record IsSound (state : WorkflowState) : Type 0 where
  pub plan : validate_plan_dag state.steps ≡ ok tt
  pub single : all (active_only state.current_step_id) state.steps ≡ true
  pub in_order : all (in_turn (succeeded_ids state.steps)) state.steps ≡ true
  pub asks : asks_for_current state.status state.current_step_id state.steps ≡ true
