-- ===== src/Runtime.antt =====
-- workflow/runtime.py: WorkflowRuntime, the requests that drive a workflow through the engine and keep it
-- in the checkpoint store. A response only wraps the state, which stands for it. The validation of the
-- requests is not part of the model.
pub mod Effects
pub mod Advance
pub mod Follows
pub mod Posts
pub mod Advancing
pub mod Loading
pub mod Committing
pub mod Planning
pub mod Requests
pub mod Failures
pub mod Apart
pub mod Recovery
pub mod Ends
pub mod Ending
pub mod Examples
pub mod Restart
use synora_agentic_erp.Prelude.{
  ℕ, ◌+◌, String, ◌==◌, Bool, true, false, not, ◌&&◌, ◌||◌, Option, none, some, List, [], ◌∷◌, ◌++◌,
  any, length, nat_eq, if◌then◌else◌,
}
use synora_agentic_erp.Prelude.Text.{contains}
use synora_agentic_erp.Prelude.Result.{Result, ok, err}
use synora_agentic_erp.Workflow.Contracts.{
  WorkflowStatus, StepStatus, StepType, AnswerType, ReplanReason, PlanStep, WorkflowState,
  ClarificationRequest, GovernedActionIntent, Fault, is_terminal,
}
use synora_agentic_erp.Workflow.StepEq.{intent_eq}
use synora_agentic_erp.Workflow.Steps.{find_step, is_active, is_running}
use synora_agentic_erp.Workflow.Engine.{
  create_state, complete_governed_action, is_expired, status_is_running, status_is_ready,
  status_is_interrupted,
}
use synora_agentic_erp.Workflow.Control.{interrupt, resume, replan, cancel, expire}
use synora_agentic_erp.Checkpoint.{
  CheckpointError, conflict, not_found, Codec, Row, Store, create, load, recoverable_row,
}
use synora_agentic_erp.Runtime.Effects.{
  RuntimeError, checkpoint_error, engine_error, runtime_error, Runtime, pure, throw, ◌>>=◌, ◌>>◌,
  from_engine, written, Times, fetch, acquire, persist, protect,
}
use synora_agentic_erp.Runtime.Advance.{StepReply, names_step, advance}

-- A step of the plans that the runtime makes itself.
abbrev pub blank_step : String → ℕ → StepType → List String → PlanStep
blank_step id order type depends_on = record {
  step_id = id;
  order = order;
  type = type;
  depends_on = depends_on;
  allowed_tools = [];
  tool_name = none;
  clarification = none;
  governed_action = none;
  parameters = "{}";
  status = StepStatus.pending;
  observation_digest = none;
  error = none;
  completed_at = none;
}

abbrev pub requests_step : ℕ → List String → PlanStep
requests_step order depends_on =
    record (blank_step "open-material-requests" order StepType.tool depends_on) {
      allowed_tools = "material_request.open" ∷ [];
      tool_name = some "material_request.open";
      parameters = "{\"limit\":20,\"offset\":0}";
    }

abbrev pub warehouse_request : String → ClarificationRequest
warehouse_request interrupt_id = record {
  interrupt_id = interrupt_id;
  question = "请选择本次只读分析要使用的仓库。";
  answer_type = AnswerType.text;
  answer_max_length = 140;
  choices = [];
}

-- The plan for a goal with a marker or without; `interrupt_id` is the UUID that is drawn from the run.
abbrev pub read_only_plan : Bool → String → List PlanStep
read_only_plan false interrupt_id = requests_step 1 [] ∷ []
read_only_plan true interrupt_id =
    record (blank_step "warehouse-clarification" 1 StepType.clarification []) {
      clarification = some (warehouse_request interrupt_id);
    }
    ∷ requests_step 2 ("warehouse-clarification" ∷ [])
    ∷ []

-- any(marker in normalized for marker in ("clarif", "which warehouse", "需要确认"))
abbrev pub asks_for_input : String → Bool
asks_for_input normalized =
    any (λ marker. contains marker normalized) ("clarif" ∷ "which warehouse" ∷ "需要确认" ∷ [])

-- default_plan(goal, run_id), `casefold` being str.casefold
unfoldable pub default_plan : (String → String) → String → String → List PlanStep
default_plan casefold goal interrupt_id =
    read_only_plan (asks_for_input (casefold goal)) interrupt_id

-- request.steps or default_plan(request.goal, request.run_id), an absent value being an empty one
abbrev pub requested_steps : List PlanStep → List PlanStep → List PlanStep
requested_steps [] plan = plan
requested_steps (step ∷ steps) plan = step ∷ steps

-- _p2p_step(intent, step_id=, order=, depends_on=)
unfoldable pub p2p_step : GovernedActionIntent → String → ℕ → List String → PlanStep
p2p_step intent id order depends_on =
    record (blank_step id order StepType.governed_action depends_on) {
      governed_action = some intent;
    }

-- (steps[-1].step_id,) if steps else ()
abbrev pub last_id : List PlanStep → List String
last_id [] = []
last_id (step ∷ []) = step.step_id ∷ []
last_id (step ∷ next ∷ steps) = last_id (next ∷ steps)

-- the current step, if current_step_id is a text and names one
abbrev pub find_current : WorkflowState → Option PlanStep
find_current state = elim state.current_step_id [
  | none ↦ none
  | some id ↦ if id == "" then none else find_step id state.steps
]

abbrev pub fresh_revision : ℕ → WorkflowState → Runtime Unit
fresh_revision revision state =
    if nat_eq state.revision revision then pure tt else throw (checkpoint_error conflict)

abbrev pub only_intent : GovernedActionIntent → List PlanStep → Bool
only_intent intent (step ∷ []) = intent_eq step.governed_action intent
only_intent intent _ = false

abbrev pub is_p2p_current : GovernedActionIntent → PlanStep → Bool
is_p2p_current intent step = elim step.type [
  | StepType.governed_action ↦ intent_eq step.governed_action intent
  | _ ↦ false
]

abbrev pub is_busy : Option PlanStep → Bool
is_busy none = false
is_busy (some step) = is_active step.status

abbrev pub is_same : GovernedActionIntent → Option PlanStep → Bool
is_same intent none = false
is_same intent (some step) = is_p2p_current intent step

-- failed, cancelled, expired or interrupted
abbrev pub refuses : WorkflowStatus → Bool
refuses WorkflowStatus.failed = true
refuses WorkflowStatus.cancelled = true
refuses WorkflowStatus.expired = true
refuses WorkflowStatus.interrupted = true
refuses _ = false

abbrev pub crash_request : String → ClarificationRequest
crash_request interrupt_id = record {
  interrupt_id = interrupt_id;
  question = "Runtime 在只读工具调用期间重启。结果不确定。请选择 inspect; 重试必须先创建新的计划版本。";
  answer_type = AnswerType.choice;
  answer_max_length = 20;
  choices = "inspect" ∷ [];
}

abbrev pub mark_recovered : WorkflowState → WorkflowState
mark_recovered state = record state {
  crash_recovered = true;
  replan_reason = some ReplanReason.state_drift;
}

abbrev pub marked : Result Fault WorkflowState → Result Fault WorkflowState
marked (ok state) = ok (mark_recovered state)
marked (err e) = err e

abbrev pub crash_id_of : (WorkflowState → String) → Option WorkflowState → String
crash_id_of crash_id none = ""
crash_id_of crash_id (some state) = crash_id state

module _ (codec : Codec) (seconds : ℕ) where
  -- The body of the try statement of `commit`.
  abbrev pub save_outcome :
      Times
      → WorkflowState
      → (WorkflowState → Bool)
      → Result Fault WorkflowState
      → String
      → Runtime (String × WorkflowState)
  save_outcome t state keep outcome lease = do
    next ← from_engine outcome
    persist codec seconds t state next (some lease) (keep next)
    pure (lease, next)

  -- acquire_lease; try: engine, save; except Exception: release_lease, raise. The lease, and the state
  -- that was saved. `keep` says whether the lease is kept.
  unfoldable pub commit :
      Times
      → WorkflowState
      → (WorkflowState → Bool)
      → Result Fault WorkflowState
      → Runtime (String × WorkflowState)
  commit t state keep outcome = do
    lease ← acquire codec seconds t state.run_id state.revision
    protect state.run_id lease (save_outcome t state keep outcome lease)

  -- status(request)
  unfoldable pub status : Times → String → Runtime WorkflowState
  status t id = do
    state ← fetch codec seconds id
    (if not (is_terminal state.status) && is_expired t.engine state
        then (do saved ← commit t state (λ _. false) (ok (expire state)); pure saved.1)
        else pure state)

  -- cancel(request)
  unfoldable pub cancel_run : Times → String → ℕ → Runtime WorkflowState
  cancel_run t id revision = do
    state ← fetch codec seconds id
    fresh_revision revision state
    saved ← commit t state (λ _. false) (cancel state "cancelled")
    pure saved.1

  -- complete_governed_action(request)
  unfoldable pub complete_action : Times → String → ℕ → String → String → Runtime WorkflowState
  complete_action t id revision step_id digest = do
    state ← fetch codec seconds id
    fresh_revision revision state
    saved ←
        commit t state (λ _. false) (complete_governed_action t.engine t.stamp state step_id digest)
    pure saved.1

  abbrev pub created_or_loaded :
      WorkflowState → Result CheckpointError Store → Runtime WorkflowState
  created_or_loaded initial (ok after) store = (ok initial, after)
  created_or_loaded initial (err conflict) store = fetch codec seconds initial.run_id store
  created_or_loaded initial (err e) store = (err (checkpoint_error e), store)

  -- try: self.store.create(initial) except CheckpointConflict: self.store.load(run_id)
  unfoldable pub create_or_load : Times → WorkflowState → Runtime WorkflowState
  create_or_load t initial store =
      created_or_loaded initial (create codec seconds initial none t.saved t.renewed store) store

  module _ (tools : PlanStep → StepReply) (times : ℕ → Times) where
    -- resume(request)
    unfoldable pub resume_run :
        (String → String) → Times → String → ℕ → String → String → Runtime WorkflowState
    resume_run sha256 t id revision interrupt_id answer = do
      state ← fetch codec seconds id
      fresh_revision revision state
      saved ←
          commit t state (λ next. status_is_running next.status)
            (resume sha256 t.engine t.stamp state interrupt_id answer)
      (if status_is_running saved.1.status
          then advance codec seconds (some tools) times saved.1 (some saved.0)
          else pure saved.1)

    -- start(request), where `interrupt_id` is the UUID that default_plan draws from the run
    unfoldable pub start_run :
        (String → String)
        → Times
        → String
        → String
        → List PlanStep
        → String
        → String
        → ℕ
        → Runtime WorkflowState
    start_run casefold t id trace_id requested goal interrupt_id deadline = do
      initial ← from_engine (
          create_state id trace_id
            (requested_steps requested (default_plan casefold goal interrupt_id)) deadline)
      state ← create_or_load t initial
      advance codec seconds (some tools) times state none

  abbrev pub loaded_or_created :
      Times
      → String
      → String
      → PlanStep
      → ℕ
      → Result CheckpointError WorkflowState
      → Runtime WorkflowState
  loaded_or_created t id trace_id step deadline (ok state) store = (ok state, store)
  loaded_or_created t id trace_id step deadline (err not_found) store =
      (do
        initial ← from_engine (create_state id trace_id (step ∷ []) deadline)
        written (create codec seconds initial none t.saved t.renewed store)
        pure initial)
        store
  loaded_or_created t id trace_id step deadline (err e) store = (err (checkpoint_error e), store)

  -- The checkpoint of the run, or a new one for the intent.
  unfoldable pub load_or_create : Times → String → String → PlanStep → ℕ → Runtime WorkflowState
  load_or_create t id trace_id step deadline store =
      loaded_or_created t id trace_id step deadline (load codec id store) store

  module _ (times : ℕ → Times) where
    -- A new candidate is planned after the last step, and waits for its receipt.
    unfoldable pub plan_next :
        Times → GovernedActionIntent → String → WorkflowState → Runtime WorkflowState
    plan_next t intent step_id state = do
      saved ←
          commit t state (λ _. false)
            (replan t.engine state
              (state.steps
                ++ p2p_step intent step_id (length state.steps + 1) (last_id state.steps) ∷ [])
              ReplanReason.no_progress)
      advance codec seconds none times saved.1 none

    -- plan_governed_action(request), `step_id` being _p2p_step_id(request.intent)
    unfoldable pub plan_governed_action :
        Times → String → GovernedActionIntent → String → String → ℕ → Runtime WorkflowState
    plan_governed_action t id intent step_id trace_id deadline = do
      state ← load_or_create t id trace_id (p2p_step intent step_id 1 []) deadline
      (if is_busy (find_current state)
          then (if is_same intent (find_current state)
              then pure state
              else throw (runtime_error "WORKFLOW_CONFLICT"))
          else if status_is_ready state.status
          then (if only_intent intent state.steps
              then advance codec seconds none times state none
              else throw (runtime_error "WORKFLOW_CONFLICT"))
          else if refuses state.status
          then throw (runtime_error "WORKFLOW_CONFLICT")
          else if any (λ item. item.step_id == step_id) state.steps
          then throw (runtime_error "WORKFLOW_CONFLICT")
          else plan_next t intent step_id state)

  unfoldable pub recover_step : Times → String → WorkflowState → Option PlanStep → Runtime Bool
  recover_step t interrupt_id state none = throw (runtime_error "StopIteration")
  recover_step t interrupt_id state (some step) =
      if is_running step.status
      then (do
        saved ←
            commit t state (λ _. false)
              (marked (interrupt t.engine state (crash_request interrupt_id)))
        pure true)
      else pure false

  unfoldable pub recover_current : Times → String → WorkflowState → Option String → Runtime Bool
  recover_current t interrupt_id state none = pure false
  recover_current t interrupt_id state (some id) =
      recover_step t interrupt_id state (find_step id state.steps)

  -- The body of the loop of recover(), for one state of the scan: whether it was recovered.
  unfoldable pub recover_one : Times → String → WorkflowState → Runtime Bool
  recover_one t interrupt_id state =
      if status_is_running state.status
      then recover_current t interrupt_id state state.current_step_id
      else pure false

  unfoldable pub recover_row : Times → String → Option WorkflowState → Runtime Bool
  recover_row t interrupt_id none = pure false
  recover_row t interrupt_id (some state) = recover_one t interrupt_id state

  -- The loop of recover() over recoverable(), which reads its rows as it goes on; `n` counts those that
  -- were recovered, and `crash_id` is the UUID that is drawn from a state.
  unfoldable pub recover_rows :
      (ℕ → Times) → (WorkflowState → String) → ℕ → List Row → ℕ → Runtime ℕ
  recover_rows times crash_id now [] n = pure n
  recover_rows times crash_id now (row ∷ rows) n = do
    done ←
        recover_row (times (length rows)) (crash_id_of crash_id (recoverable_row codec now row))
          (recoverable_row codec now row)
    recover_rows times crash_id now rows (if done then n + 1 else n)

  -- recover(), where the query of recoverable() returns the rows `selected`, and `now` is its clock
  unfoldable pub recover : (ℕ → Times) → (WorkflowState → String) → ℕ → List Row → Runtime ℕ
  recover times crash_id now selected = recover_rows times crash_id now selected 0

-- The requests to one run, with what the code draws and reads for them. `plan_action` has the identity of the
-- step for its intent, and `start_with` the steps that it asks for and the UUID for a default plan.
pub data Request : Type 0 where
  get_status : Request
  cancel_at : ℕ → Request
  complete : ℕ → String → String → Request
  resume_with : ℕ → String → String → Request
  start_with : String → List PlanStep → String → String → ℕ → Request
  plan_action : GovernedActionIntent → String → String → ℕ → Request

-- The method of WorkflowRuntime for a request
unfoldable pub serve :
    Codec
    → ℕ
    → (PlanStep → StepReply)
    → (String → String)
    → (String → String)
    → (ℕ → Times)
    → Times
    → String
    → Request
    → Runtime WorkflowState
serve codec seconds tools casefold sha256 times t id get_status = status codec seconds t id
serve codec seconds tools casefold sha256 times t id (cancel_at revision) =
    cancel_run codec seconds t id revision
serve codec seconds tools casefold sha256 times t id (complete revision step_id digest) =
    complete_action codec seconds t id revision step_id digest
serve codec seconds tools casefold sha256 times t id (resume_with revision interrupt_id answer) =
    resume_run codec seconds tools times sha256 t id revision interrupt_id answer
serve codec seconds tools casefold sha256 times t id
      (start_with trace_id requested goal interrupt_id deadline) =
    start_run codec seconds tools times casefold t id trace_id requested goal interrupt_id deadline
serve codec seconds tools casefold sha256 times t id
      (plan_action intent step_id trace_id deadline) =
    plan_governed_action codec seconds times t id intent step_id trace_id deadline
