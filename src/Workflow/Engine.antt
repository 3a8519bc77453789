-- ===== src/Workflow/Engine.antt =====
-- workflow/engine.py: WorkflowEngine. A method takes the state and returns the next one, or raises.
-- `now` is the instant that the method's check of the deadline reads from the clock, `stamp` the
-- text of the instant that it reads for `completed_at`, and `sha256` the digest of a text.
use synora_agentic_erp.Prelude.{
  ℕ, ◌+◌, String, ◌==◌, Bool, true, false, not, ◌&&◌, ◌||◌, Option, none, some, List, all, length,
  leb, nat_eq, text?_eq, if◌then◌else◌,
}
use synora_agentic_erp.Prelude.Result.{Result, ok, err, guard, reject, ◌>>=◌, ◌>>◌}
use synora_agentic_erp.Prelude.Text.{text_length, all_codes, is_hex}
use synora_agentic_erp.Workflow.Contracts.{
  WorkflowStatus, StepStatus, StepType, Fault, workflow_error, value_error, PlanStep, WorkflowState,
  WorkflowBudget, workflow_conflict, workflow_invalid, workflow_expired, invalid_observation,
}
use synora_agentic_erp.Workflow.Dag.{validate_plan_dag}
use synora_agentic_erp.Workflow.Steps.{
  is_open, is_active, is_running, is_waiting, is_finished, next_ready, get_step, update_step,
  replace_step,
}

abbrev pub status_is_running : WorkflowStatus → Bool
status_is_running WorkflowStatus.running = true
status_is_running _ = false

abbrev pub status_is_ready : WorkflowStatus → Bool
status_is_ready WorkflowStatus.ready = true
status_is_ready _ = false

abbrev pub status_is_interrupted : WorkflowStatus → Bool
status_is_interrupted WorkflowStatus.interrupted = true
status_is_interrupted _ = false

abbrev pub is_governed : StepType → Bool
is_governed StepType.governed_action = true
is_governed _ = false

abbrev pub conflict : String → Fault
conflict detail = workflow_error workflow_conflict detail

abbrev pub deadline_expired : Fault
deadline_expired = workflow_error workflow_expired "workflow deadline expired"

-- _ensure_not_expired(state)
unfoldable pub ensure_not_expired : ℕ → WorkflowState → Result Fault Unit
ensure_not_expired now state = reject (leb state.deadline now) deadline_expired

-- is_expired(state)
unfoldable pub is_expired : ℕ → WorkflowState → Bool
is_expired now state = leb state.deadline now

-- _ensure_running(state)
unfoldable pub ensure_running : ℕ → WorkflowState → Result Fault Unit
unfolding ensure_not_expired
ensure_running now state = do
  ensure_not_expired now state
  guard (status_is_running state.status) (conflict "workflow is not running")

-- WorkflowState(...) with the defaults of its fields; its validators run `validate_plan_dag` again
abbrev default_budget : WorkflowBudget
default_budget = record { max_steps = 64; max_elapsed_ms = 300000; max_observation_bytes = 4000 }

abbrev initial_state : String → String → List PlanStep → ℕ → WorkflowState
initial_state run_id trace_id steps deadline = record {
  run_id = run_id;
  revision = 0;
  plan_version = 1;
  graph_version = "workflow-v1";
  status = WorkflowStatus.ready;
  current_step_id = none;
  steps = steps;
  clarification = none;
  replan_reason = none;
  budget = default_budget;
  deadline = deadline;
  trace_id = trace_id;
  stop_reason = none;
  crash_recovered = false;
}

-- create_state(run_id=, trace_id=, steps=, deadline=): the check of the plan, which the state's
-- validator repeats, and the bounds of its field. A missing trace id has been drawn before.
unfoldable pub create_state : String → String → List PlanStep → ℕ → Result Fault WorkflowState
create_state run_id trace_id steps deadline = do
  validate_plan_dag steps
  guard (leb 1 (length steps) && leb (length steps) 256) (value_error "steps")
  ok (initial_state run_id trace_id steps deadline)

-- if state.current_step_id is not None: the current step is active
current_is_active : Option String → List PlanStep → Result Fault Bool
current_is_active none steps = ok false
current_is_active (some id) steps = do current ← get_step steps id; ok (is_active current.status)

-- ready_step(state)
unfoldable pub ready_step : WorkflowState → Result Fault (Option PlanStep)
unfolding current_is_active get_step
ready_step state =
    if status_is_running state.status
    then (do
      busy ← current_is_active state.current_step_id state.steps
      ok (if busy then none else next_ready state.steps))
    else ok none

-- raises where there is no ready step
abbrev require_step : Option PlanStep → Fault → Result Fault PlanStep
require_step none fault = err fault
require_step (some step) fault = ok step

abbrev pub with_status : StepStatus → PlanStep → PlanStep
with_status status step = record step { status = status }

-- start(state)
unfoldable pub start : ℕ → WorkflowState → Result Fault WorkflowState
unfolding ensure_not_expired replace_step
start now state = do
  ensure_not_expired now state
  guard (status_is_ready state.status) (conflict "workflow is not ready")
  found ← ready_step (record state { status = WorkflowStatus.running })
  step ← require_step found (workflow_error workflow_invalid "workflow has no executable step")
  steps ← replace_step (with_status StepStatus.ready) step.step_id state.steps
  ok (record state {
    status = WorkflowStatus.running;
    steps = steps;
    revision = state.revision + 1;
  })

-- ready is None or ready.step_id != step_id
abbrev is_other : String → Option PlanStep → Bool
is_other id none = true
is_other id (some step) = not (step.step_id == id)

-- begin_step(state, step_id)
unfoldable pub begin_step : ℕ → WorkflowState → String → Result Fault WorkflowState
unfolding ensure_running get_step replace_step
begin_step now state step_id = do
  ensure_running now state
  step ← get_step state.steps step_id
  found ← ready_step state
  reject (not (is_open step.status) || is_other step_id found) (conflict "step is not ready")
  steps ← replace_step (with_status StepStatus.running) step_id state.steps
  ok (record state { current_step_id = some step_id; steps = steps; revision = state.revision + 1 })

-- wait_for_governed_action(state, step_id)
unfoldable pub wait_for_governed_action : ℕ → WorkflowState → String → Result Fault WorkflowState
unfolding ensure_running get_step replace_step
wait_for_governed_action now state step_id = do
  ensure_running now state
  step ← get_step state.steps step_id
  reject (not (is_running step.status) || not (is_governed step.type))
      (conflict "step is not waiting for a governed action")
  steps ← replace_step (with_status StepStatus.waiting) step_id state.steps
  ok (record state { steps = steps; current_step_id = some step_id; revision = state.revision + 1 })

-- the step with its success recorded
abbrev pub succeed : String → String → PlanStep → PlanStep
succeed digest stamp step = record step {
  status = StepStatus.succeeded;
  observation_digest = some digest;
  completed_at = some stamp;
  error = none;
}

abbrev pub id_of : Option PlanStep → Option String
id_of none = none
id_of (some step) = some step.step_id

-- The end of both complete_… methods: the workflow is over, or goes on with the next ready step.
unfoldable pub advance : WorkflowState → List PlanStep → String → WorkflowState
advance state steps reason =
    if all (λ item. is_finished item.status) steps
    then record state {
      steps = steps;
      current_step_id = none;
      status = WorkflowStatus.succeeded;
      stop_reason = some reason;
      revision = state.revision + 1;
    }
    else record state {
      steps = steps;
      current_step_id = id_of (next_ready steps);
      revision = state.revision + 1;
    }

-- complete_governed_action(state, step_id=, observation_digest=)
unfoldable pub complete_governed_action :
    ℕ → String → WorkflowState → String → String → Result Fault WorkflowState
unfolding ensure_running get_step
complete_governed_action now stamp state step_id digest = do
  ensure_running now state
  reject (not (nat_eq (text_length digest) 64) || not (all_codes is_hex digest))
      (workflow_error invalid_observation "governed action Receipt digest is invalid")
  step ← get_step state.steps step_id
  reject (not (is_waiting step.status) || not (is_governed step.type))
      (conflict "governed action is not waiting for a Receipt")
  ok (
      advance state (update_step (λ _. succeed digest stamp step) step_id state.steps)
        "governed action Receipt recorded")

-- the part of an Observation that the engine reads
pub record Observed : Type 0 where
  pub tool_name : String
  pub digest : String

-- step_id = state.current_step_id; raises if it is None
abbrev pub require_current : WorkflowState → Result Fault String
require_current state = elim state.current_step_id [
  | none ↦ err (conflict "no running step")
  | some id ↦ ok id
]

-- complete_step(state, observation)
unfoldable pub complete_step : ℕ → String → WorkflowState → Observed → Result Fault WorkflowState
unfolding ensure_running get_step
complete_step now stamp state observation = do
  ensure_running now state
  step_id ← require_current state
  step ← get_step state.steps step_id
  reject
      (not (is_running step.status) || not (text?_eq step.tool_name (some observation.tool_name)))
      (conflict "observation does not belong to running step")
  ok (
      advance state (update_step (λ _. succeed observation.digest stamp step) step_id state.steps)
        "workflow completed")
