-- ===== src/Workflow/Control.antt =====
-- workflow/engine.py: the methods by which a step fails, the user is asked and answers, the plan
-- is replaced, and the workflow is cancelled or expires. `now`, `stamp` and `sha256` are those of
-- `Workflow.Engine`.
use synora_agentic_erp.Prelude.{
  ℕ, ◌+◌, String, ◌==◌, Bool, true, false, not, ◌&&◌, ◌||◌, Option, none, some, List, [], ◌∷◌, any,
  elem, leb, if◌then◌else◌,
}
use synora_agentic_erp.Prelude.Result.{Result, ok, err, guard, reject, ◌>>=◌, ◌>>◌}
use synora_agentic_erp.Prelude.Text.{text_length, prefix, has_text, concat}
use synora_agentic_erp.Workflow.Contracts.{
  WorkflowStatus, StepStatus, ReplanReason, Fault, workflow_error, ClarificationRequest, PlanStep,
  WorkflowState, interrupt_conflict, invalid_answer, manual_recovery_required, plan_conflict,
  is_choice, is_terminal,
}
use synora_agentic_erp.Workflow.Dag.{validate_plan_dag}
use synora_agentic_erp.Workflow.StepEq.{step_eq}
use synora_agentic_erp.Workflow.Steps.{
  is_open, is_running, is_succeeded, find_step, get_step, update_step, replace_step,
}
use synora_agentic_erp.Workflow.Engine.{
  conflict, ensure_not_expired, ensure_running, require_current, status_is_interrupted, with_status,
  succeed,
}

-- f"{code}: {detail}"[:500]
unfoldable pub failure_text : String → String → String
unfolding prefix concat
failure_text code detail = prefix 500 (concat code (concat ": " detail))

abbrev pub failed_with : String → PlanStep → PlanStep
failed_with text step = record step { status = StepStatus.failed; error = some text }

-- fail_step(state, code=, detail=)
unfoldable pub fail_step : ℕ → WorkflowState → String → String → Result Fault WorkflowState
unfolding ensure_running get_step
fail_step now state code detail = do
  ensure_running now state
  step_id ← require_current state
  step ← get_step state.steps step_id
  guard (is_running step.status) (conflict "step is not running")
  ok (record state {
    steps = update_step (λ _. failed_with (failure_text code detail) step) step.step_id state.steps;
    status = WorkflowStatus.failed;
    current_step_id = some step.step_id;
    stop_reason = some (failure_text code detail);
    revision = state.revision + 1;
  })

-- interrupt(state, request)
unfoldable pub interrupt : ℕ → WorkflowState → ClarificationRequest → Result Fault WorkflowState
unfolding ensure_running get_step replace_step
interrupt now state request = do
  ensure_running now state
  step_id ← require_current state
  step ← get_step state.steps step_id
  guard (is_running step.status) (conflict "step is not running")
  steps ← replace_step (with_status StepStatus.waiting) step.step_id state.steps
  ok (record state {
    steps = steps;
    status = WorkflowStatus.interrupted;
    clarification = some request;
    revision = state.revision + 1;
  })

abbrev pub recovery_text : String
recovery_text = "MANUAL_RECOVERY_REQUIRED: inspect uncertain tool result"

-- state.current_step_id, or "" for None
abbrev pub current_or_empty : Option String → String
current_or_empty none = ""
current_or_empty (some id) = id

-- the branch of `resume` for a workflow that was recovered from a crash
resume_crashed : WorkflowState → String → Result Fault WorkflowState
unfolding replace_step
resume_crashed state answer = do
  guard (answer == "inspect") (
      workflow_error manual_recovery_required
        "a new plan version is required before retrying an uncertain tool")
  step_id ← elim state.current_step_id [
    | none ↦ err (conflict "no recoverable step")
    | some id ↦ ok id
  ]
  steps ← replace_step (failed_with recovery_text) step_id state.steps
  ok (record state {
    status = WorkflowStatus.failed;
    steps = steps;
    clarification = none;
    stop_reason = some recovery_text;
    replan_reason = some ReplanReason.state_drift;
    revision = state.revision + 1;
  })

-- the branch of `resume` for a workflow that was merely interrupted
resume_answered : (String → String) → String → WorkflowState → Result Fault WorkflowState
unfolding replace_step
resume_answered sha256 stamp state = do
  steps ←
      replace_step (succeed (sha256 "clarification-answer-accepted") stamp)
        (current_or_empty state.current_step_id) state.steps
  ok (record state {
    status = WorkflowStatus.running;
    steps = steps;
    current_step_id = none;
    clarification = none;
    replan_reason = some ReplanReason.input_clarified;
    revision = state.revision + 1;
  })

abbrev pub not_waiting : Fault
not_waiting = conflict "workflow is not waiting for clarification"

-- request = state.clarification; raises unless the workflow is interrupted with a request
abbrev pub require_request : WorkflowState → Result Fault ClarificationRequest
require_request state = elim state.clarification [
  | none ↦ err not_waiting
  | some request ↦ if status_is_interrupted state.status then ok request else err not_waiting
]

-- resume(state, interrupt_id=, answer=)
unfoldable pub resume :
    (String → String) → ℕ → String → WorkflowState → String → String → Result Fault WorkflowState
unfolding ensure_not_expired resume_crashed resume_answered
resume sha256 now stamp state interrupt_id answer = do
  ensure_not_expired now state
  request ← require_request state
  guard (request.interrupt_id == interrupt_id)
      (workflow_error interrupt_conflict "interrupt is no longer current")
  reject (not (has_text answer) || not (leb (text_length answer) request.answer_max_length))
      (workflow_error invalid_answer "clarification answer is invalid")
  reject (is_choice request.answer_type && not (elem answer request.choices))
      (workflow_error invalid_answer "clarification answer is not an allowed choice")
  (if state.crash_recovered
      then resume_crashed state answer
      else resume_answered sha256 stamp state)

-- new_step == old_step for the first new step of that id
abbrev same_as_new : List PlanStep → PlanStep → Bool
same_as_new new_steps old = elim (find_step old.step_id new_steps) [
  | none ↦ false
  | some new ↦ step_eq new old
]

-- every completed step stands unchanged in the new plan
unfoldable pub keeps_completed : List PlanStep → List PlanStep → Bool
keeps_completed new_steps [] = true
keeps_completed new_steps (old ∷ rest) =
    (not (is_succeeded old.status) || same_as_new new_steps old) && keeps_completed new_steps rest

-- the checks of one new step against the old plan; `old_steps` has one step for each id
unfoldable pub check_new_step : List PlanStep → PlanStep → Result Fault Unit
check_new_step old_steps item = elim (find_step item.step_id old_steps) [
  | none ↦ guard (is_open item.status) (workflow_error plan_conflict "new steps must start pending")
  | some old ↦
      reject (not (is_succeeded old.status) && not (is_open item.status))
        (workflow_error plan_conflict "unstarted steps cannot be completed by replan")
]

unfoldable pub check_new_steps : List PlanStep → List PlanStep → Result Fault Unit
unfolding check_new_step
check_new_steps old_steps [] = ok tt
check_new_steps old_steps (item ∷ items) =
    check_new_step old_steps item >> check_new_steps old_steps items

-- replan(state, steps, reason)
unfoldable pub replan :
    ℕ → WorkflowState → List PlanStep → ReplanReason → Result Fault WorkflowState
unfolding ensure_not_expired
replan now state steps reason = do
  ensure_not_expired now state
  validate_plan_dag steps
  guard (keeps_completed steps state.steps)
      (workflow_error plan_conflict "completed steps cannot be modified")
  reject (any (λ item. is_running item.status) steps)
      (workflow_error plan_conflict "replacement plan cannot contain running steps")
  check_new_steps state.steps steps
  ok (record state {
    steps = steps;
    plan_version = state.plan_version + 1;
    revision = state.revision + 1;
    status = WorkflowStatus.running;
    current_step_id = none;
    clarification = none;
    replan_reason = some reason;
    stop_reason = none;
  })

-- cancel(state, detail)
unfoldable pub cancel : WorkflowState → String → Result Fault WorkflowState
cancel state detail = do
  reject (is_terminal state.status) (conflict "workflow is terminal")
  ok (record state {
    status = WorkflowStatus.cancelled;
    stop_reason = some (prefix 500 detail);
    revision = state.revision + 1;
    clarification = none;
  })

-- expire(state)
unfoldable pub expire : WorkflowState → WorkflowState
expire state = if is_terminal state.status then state else record state {
  status = WorkflowStatus.expired;
  stop_reason = some "workflow deadline expired";
  revision = state.revision + 1;
  clarification = none;
}
