-- ===== src/Workflow/Validation.antt =====
-- workflow/contracts.py: what the validators of WorkflowState, with those of its steps and requests,
-- accept. The types of single fields and their other bounds are the decoder's matter.
use synora_agentic_erp.Prelude.{
  ◌≡◌, ◌&&◌, Option, none, some, List, [], ◌∷◌, length, leb, arith, inl, inr,
}
use synora_agentic_erp.Prelude.Result.{Result, ok, err, guard, ◌>>◌, Result-cases}
use synora_agentic_erp.Workflow.Contracts.{
  Fault, value_error, ClarificationRequest, PlanStep, WorkflowState, validate_answer_shape,
  validate_tool_shape, validate_state_shape,
}
use synora_agentic_erp.Workflow.Dag.{validate_plan_dag}

unfoldable pub validate_request : Option ClarificationRequest → Result Fault Unit
validate_request none = ok tt
validate_request (some request) = validate_answer_shape request

unfoldable pub validate_each_step : List PlanStep → Result Fault Unit
validate_each_step [] = ok tt
validate_each_step (step ∷ steps) = do
  validate_request step.clarification
  validate_tool_shape step
  validate_each_step steps

-- WorkflowState(...): the validators of the steps, the bounds of their number, validate_steps, the
-- validator of the request, and validate_state_shape
unfoldable pub validate_state : WorkflowState → Result Fault Unit
validate_state state = do
  validate_each_step state.steps
  guard (leb 1 (length state.steps) && leb (length state.steps) 256) (value_error "steps")
  validate_plan_dag state.steps
  validate_request state.clarification
  validate_state_shape state

abbrev pub unless_raised : WorkflowState → Result Fault Unit → Option WorkflowState
unless_raised state (ok _) = some state
unless_raised state (err _) = none

-- The state that is read, if its validators accept it.
unfoldable pub accepted : Option WorkflowState → Option WorkflowState
accepted none = none
accepted (some state) = unless_raised state (validate_state state)

pub accepted-some :
    (o : Option WorkflowState) (t : WorkflowState) → accepted o ≡ some t → o ≡ some t
unfolding accepted
accepted-some none t h = h
accepted-some (some s) t h = elim (Result-cases (validate_state s)) [
  | inl (u, p) ↦ ground arith
  | inr (e, p) ↦ absurd (ground arith)
]
