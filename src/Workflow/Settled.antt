-- ===== src/Workflow/Settled.antt =====
-- The states that a workflow can be left in: by the calls of workflow/engine.py after which
-- WorkflowRuntime._advance of workflow/runtime.py returns.
use synora_agentic_erp.Prelude.{
  ℕ, ◌≡◌, refl, String, Bool, true, false, not, ◌&&◌, ◌||◌, Option, none, some, List, [], ◌∷◌,
  arith, inl, inr, Option-cases, eq_iff,
}
use synora_agentic_erp.Prelude.Result.{ok}
use synora_agentic_erp.Workflow.Contracts.{
  PlanStep, WorkflowState, StepStatus, ReplanReason, ClarificationRequest, is_terminal,
}
use synora_agentic_erp.Workflow.Steps.{find_step, get_step, update_step, replace_step, is_waiting}
use synora_agentic_erp.Workflow.Engine.{
  Observed, advance, start, complete_step, wait_for_governed_action, ensure_running, with_status,
  status_is_running, status_is_ready, status_is_interrupted,
}
use synora_agentic_erp.Workflow.Control.{interrupt, fail_step}

abbrev waits : Option PlanStep → Bool
waits none = false
waits (some step) = is_waiting step.status

-- The current step waits for its receipt or its answer.
abbrev awaits : Option String → List PlanStep → Bool
awaits none steps = false
awaits (some id) steps = waits (find_step id steps)

-- The workflow has been started, and it is over, or it waits for the user or for a governed action.
unfoldable pub is_settled : WorkflowState → Bool
is_settled t =
    not (status_is_ready t.status)
    && (not (status_is_running t.status) || awaits t.current_step_id t.steps)

find_step-update :
    (f : PlanStep → PlanStep) (id : String) (steps : List PlanStep) (step : PlanStep)
    → ((x : PlanStep) → (f x).step_id ≡ x.step_id)
    → find_step id steps ≡ some step
    → find_step id (update_step f id steps) ≡ some (f step)
unfolding find_step update_step
find_step-update f id [] step h e = absurd (ground arith)
find_step-update f id (x ∷ steps) step h e =
    ground (arith, h x, eq_iff x.step_id id, find_step-update f id steps step h)

pub settled_unless_running :
    (t : WorkflowState)
    → status_is_ready t.status ≡ false
    → status_is_running t.status ≡ false
    → is_settled t ≡ true
unfolding is_settled
settled_unless_running t h k = ground arith

pub over-settled :
    (t : WorkflowState)
    → (status_is_interrupted t.status || is_terminal t.status) ≡ true
    → is_settled t ≡ true
unfolding is_settled
over-settled t h = ground arith

pub interrupt-settled :
    (now : ℕ) (s t : WorkflowState) (request : ClarificationRequest)
    → interrupt now s request ≡ ok t
    → is_settled t ≡ true
unfolding is_settled interrupt
interrupt-settled now s t request h = ground arith

pub fail_step-settled :
    (now : ℕ) (s t : WorkflowState) (code detail : String) (reason : ReplanReason)
    → fail_step now s code detail ≡ ok t
    → is_settled (record t { replan_reason = some reason }) ≡ true
unfolding is_settled fail_step
fail_step-settled now s t code detail reason h = ground arith

pub wait_for_governed_action-settled :
    (now : ℕ) (s t : WorkflowState) (id : String)
    → wait_for_governed_action now s id ≡ ok t
    → is_settled t ≡ true
unfolding is_settled wait_for_governed_action ensure_running get_step replace_step
wait_for_governed_action-settled now s t id h = elim (Option-cases (find_step id s.steps)) [
  | inl p ↦ absurd (ground arith)
  | inr (step, p) ↦
      let found = find_step-update (with_status StepStatus.waiting) id s.steps step (λ x. refl) p in
      ground (arith, found)
]

pub complete_step-started :
    (now : ℕ) (stamp : String) (s t : WorkflowState) (o : Observed)
    → complete_step now stamp s o ≡ ok t
    → status_is_ready t.status ≡ false
unfolding complete_step ensure_running advance
complete_step-started now stamp s t o h = ground arith

pub start-started :
    (now : ℕ) (s t : WorkflowState) → start now s ≡ ok t → status_is_ready t.status ≡ false
unfolding start
start-started now s t h = ground arith
