-- ===== src/Workflow/Contracts.antt =====
-- workflow/contracts.py: the frozen models of a workflow, their validators, and the exceptions.
-- UUIDs and digests are texts. A deadline is the instant that its ISO text denotes, in
-- milliseconds, which the validator of the field has parsed.
use synora_agentic_erp.Prelude.{
  ℕ, String, ◌==◌, Bool, true, false, not, ◌&&◌, ◌||◌, Option, none, some, List, [], ◌∷◌, elem,
  is_none,
}
use synora_agentic_erp.Prelude.Result.{Result, ok, reject, ◌>>◌}

pub data WorkflowStatus : Type 0 where
  ready running interrupted succeeded failed cancelled expired : WorkflowStatus

pub data StepStatus : Type 0 where
  pending ready running waiting succeeded failed skipped cancelled : StepStatus

pub data ReplanReason : Type 0 where
  input_clarified tool_error observation_conflict state_drift no_progress : ReplanReason

pub data StepType : Type 0 where
  tool clarification governed_action finalize : StepType

pub data AnswerType : Type 0 where
  text choice boolean number : AnswerType

-- The exceptions of the workflow code: `WorkflowError` with its code, and the `ValueError`s of
-- the models and of `validate_plan_dag`. `recursion_error` is Python's, for a recursion too deep.
pub data Code : Type 0 where
  workflow_conflict workflow_invalid workflow_expired interrupt_conflict invalid_answer : Code
  invalid_observation manual_recovery_required plan_conflict : Code

pub data Fault : Type 0 where
  workflow_error : Code → String → Fault
  value_error : String → Fault
  recursion_error : Fault

pub record ClarificationRequest : Type 0 where
  pub interrupt_id : String
  pub question : String
  pub answer_type : AnswerType
  pub answer_max_length : ℕ
  pub choices : List String

-- `items` and `payment` are JSON, compared only as wholes: their canonical texts.
pub record GovernedActionIntent : Type 0 where
  pub run_id : String
  pub goal_version : ℕ
  pub run_version : ℕ
  pub action_type : String
  pub source_doctype : String
  pub source_name : String
  pub items : String
  pub payment : Option String
  pub reason : String

-- `parameters` is JSON, compared only as a whole: its canonical text.
pub record PlanStep : Type 0 where
  pub step_id : String
  pub order : ℕ
  pub type : StepType
  pub depends_on : List String
  pub allowed_tools : List String
  pub tool_name : Option String
  pub clarification : Option ClarificationRequest
  pub governed_action : Option GovernedActionIntent
  pub parameters : String
  pub status : StepStatus
  pub observation_digest : Option String
  pub error : Option String
  pub completed_at : Option String

pub record WorkflowBudget : Type 0 where
  pub max_steps : ℕ
  pub max_elapsed_ms : ℕ
  pub max_observation_bytes : ℕ

pub record WorkflowState : Type 0 where
  pub run_id : String
  pub revision : ℕ
  pub plan_version : ℕ
  pub graph_version : String
  pub status : WorkflowStatus
  pub current_step_id : Option String
  pub steps : List PlanStep
  pub clarification : Option ClarificationRequest
  pub replan_reason : Option ReplanReason
  pub budget : WorkflowBudget
  pub deadline : ℕ
  pub trace_id : String
  pub stop_reason : Option String
  pub crash_recovered : Bool

abbrev pub is_choice : AnswerType → Bool
is_choice choice = true
is_choice _ = false

abbrev pub is_empty {ℓ} : {A : Type ℓ} → List A → Bool
is_empty [] = true
is_empty (_ ∷ _) = false

-- ClarificationRequest.validate_answer_shape
unfoldable pub validate_answer_shape : ClarificationRequest → Result Fault Unit
validate_answer_shape request = do
  reject (is_choice request.answer_type && is_empty request.choices)
      (value_error "choice clarification requires choices")
  reject (not (is_choice request.answer_type) && not (is_empty request.choices))
      (value_error "choices are only valid for choice clarification")

-- `not self.error`: no text, or an empty one
abbrev pub is_blank : Option String → Bool
is_blank none = true
is_blank (some s) = s == ""

-- tool_name not in allowed_tools, where there is a tool name
abbrev outside : Option String → List String → Bool
outside none tools = false
outside (some name) tools = not (elem name tools)

check_type : StepType → PlanStep → Result Fault Unit
check_type tool step = do
  reject (is_none step.tool_name) (value_error "tool step requires tool_name")
  reject (outside step.tool_name step.allowed_tools)
      (value_error "tool_name must be in allowed_tools")
  reject (not (is_none step.clarification) || not (is_none step.governed_action))
      (value_error "tool step cannot declare a wait contract")
check_type clarification step = do
  reject (is_none step.clarification) (value_error "clarification step requires clarification")
  reject
      (not (is_none step.tool_name)
        || not (is_empty step.allowed_tools)
        || not (is_none step.governed_action))
      (value_error "clarification step cannot declare tools or governed actions")
check_type governed_action step = do
  reject (is_none step.governed_action) (value_error "governed action step requires an intent")
  reject
      (not (is_none step.tool_name)
        || not (is_empty step.allowed_tools)
        || not (is_none step.clarification))
      (value_error "governed action step cannot declare tools or clarification")
check_type finalize step = do
  reject (not (is_none step.tool_name) || not (is_empty step.allowed_tools))
      (value_error "only tool steps may declare tools")
  reject (not (is_none step.clarification) || not (is_none step.governed_action))
      (value_error "finalize steps cannot declare a wait contract")

check_status : StepStatus → PlanStep → Result Fault Unit
check_status succeeded step = do
  reject (is_none step.observation_digest)
      (value_error "succeeded step requires observation_digest")
  reject (is_none step.completed_at) (value_error "succeeded step requires completed_at")
check_status failed step =
    reject (is_blank step.error) (value_error "failed or cancelled step requires error")
check_status cancelled step =
    reject (is_blank step.error) (value_error "failed or cancelled step requires error")
check_status _ step = ok tt

-- PlanStep.validate_tool_shape
unfoldable pub validate_tool_shape : PlanStep → Result Fault Unit
unfolding check_type check_status
validate_tool_shape step = do check_type step.type step; check_status step.status step

abbrev pub step_ids : List PlanStep → List String
step_ids [] = []
step_ids (step ∷ steps) = step.step_id ∷ step_ids steps

check_waiting : WorkflowStatus → WorkflowState → Result Fault Unit
check_waiting interrupted state =
    reject (is_none state.clarification || is_none state.current_step_id)
      (value_error "interrupted workflow requires clarification and current step")
check_waiting _ state =
    reject (not (is_none state.clarification))
      (value_error "clarification is only valid while interrupted")

-- current_step_id is not None and current_step_id not in {step.step_id for step in steps}
abbrev pub unknown_current : Option String → List PlanStep → Bool
unknown_current none steps = false
unknown_current (some id) steps = not (elem id (step_ids steps))

abbrev pub is_terminal : WorkflowStatus → Bool
is_terminal succeeded = true
is_terminal failed = true
is_terminal cancelled = true
is_terminal expired = true
is_terminal _ = false

-- WorkflowState.validate_state_shape
unfoldable pub validate_state_shape : WorkflowState → Result Fault Unit
unfolding check_waiting
validate_state_shape state = do
  check_waiting state.status state
  reject (unknown_current state.current_step_id state.steps)
      (value_error "current_step_id is unknown")
  reject (is_terminal state.status && is_blank state.stop_reason)
      (value_error "terminal workflow requires stop_reason")
