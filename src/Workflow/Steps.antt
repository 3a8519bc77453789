-- ===== src/Workflow/Steps.antt =====
-- The helpers of workflow/engine.py that look through the steps of a plan and rewrite them.
pub mod Each
pub mod Update
use synora_agentic_erp.Prelude.{
  String, ◌==◌, Bool, true, false, ◌&&◌, Option, none, some, List, [], ◌∷◌, find?, elem, subset,
  if◌then◌else◌,
}
use synora_agentic_erp.Prelude.Result.{Result, ok, err}
use synora_agentic_erp.Workflow.Contracts.{
  StepStatus, pending, waiting, skipped, PlanStep, step_ids, Fault, workflow_error,
  workflow_invalid,
}

-- step.status in {"PENDING", "READY"}
abbrev pub is_open : StepStatus → Bool
is_open pending = true
is_open StepStatus.ready = true
is_open _ = false

-- step.status in {"RUNNING", "WAITING"}
abbrev pub is_active : StepStatus → Bool
is_active StepStatus.running = true
is_active waiting = true
is_active _ = false

abbrev pub is_running : StepStatus → Bool
is_running StepStatus.running = true
is_running _ = false

abbrev pub is_waiting : StepStatus → Bool
is_waiting waiting = true
is_waiting _ = false

abbrev pub is_succeeded : StepStatus → Bool
is_succeeded StepStatus.succeeded = true
is_succeeded _ = false

-- item.status in {"SUCCEEDED", "SKIPPED"}
abbrev pub is_finished : StepStatus → Bool
is_finished StepStatus.succeeded = true
is_finished skipped = true
is_finished _ = false

-- {step.step_id for step in steps if step.status == "SUCCEEDED"}
abbrev pub succeeded_ids : List PlanStep → List String
succeeded_ids [] = []
succeeded_ids (step ∷ steps) =
    if is_succeeded step.status then step.step_id ∷ succeeded_ids steps else succeeded_ids steps

-- step.status in {"PENDING", "READY"} and set(step.depends_on) <= done
abbrev pub is_ready : List String → PlanStep → Bool
is_ready done step = is_open step.status && subset step.depends_on done

-- The first step that is open and has all its dependencies in `done`.
unfoldable pub next_ready : List PlanStep → Option PlanStep
next_ready steps = find? (is_ready (succeeded_ids steps)) steps

unfoldable pub find_step : String → List PlanStep → Option PlanStep
find_step id [] = none
find_step id (step ∷ steps) = if step.step_id == id then some step else find_step id steps

abbrev pub step_unknown : Fault
step_unknown = workflow_error workflow_invalid "step is unknown"

-- _get_step(state, step_id)
unfoldable pub get_step : List PlanStep → String → Result Fault PlanStep
get_step steps id = elim (find_step id steps) [ none ↦ err step_unknown | some step ↦ ok step ]

-- tuple(f(item) if item.step_id == step_id else item for item in steps)
unfoldable pub update_step : (PlanStep → PlanStep) → String → List PlanStep → List PlanStep
update_step f id [] = []
update_step f id (step ∷ steps) =
    (if step.step_id == id then f step else step) ∷ update_step f id steps

-- _replace_step(steps, step_id, **updates), the updates being a function of the step
unfoldable pub replace_step :
    (PlanStep → PlanStep) → String → List PlanStep → Result Fault (List PlanStep)
replace_step f id steps =
    if elem id (step_ids steps) then ok (update_step f id steps) else err step_unknown
