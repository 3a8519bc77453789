-- ===== src/Runtime/Advance.antt =====
-- WorkflowRuntime._advance of workflow/runtime.py: a workflow is driven until it is over, waits or fails,
-- and saved at every safe point.
use synora_agentic_erp.Prelude.{
  ℕ, zero, suc, ◌+◌, String, ◌==◌, Bool, true, false, not, ◌&&◌, ◌||◌, Option, none, some, length,
  if◌then◌else◌,
}
use synora_agentic_erp.Prelude.Result.{Result, ok, err}
use synora_agentic_erp.Workflow.Contracts.{
  StepType, ReplanReason, PlanStep, WorkflowState, ClarificationRequest, workflow_error,
  value_error, recursion_error, is_terminal,
}
use synora_agentic_erp.Workflow.Steps.{find_step, is_running}
use synora_agentic_erp.Workflow.Engine.{
  start, ready_step, begin_step, wait_for_governed_action, complete_step, Observed,
  status_is_running, status_is_ready, status_is_interrupted,
}
use synora_agentic_erp.Workflow.Control.{interrupt, fail_step}
use synora_agentic_erp.Checkpoint.{Codec, Store}
use synora_agentic_erp.Runtime.Effects.{
  RuntimeError, checkpoint_error, engine_error, runtime_error, unending, Runtime, pure, throw,
  ◌>>=◌, ◌>>◌, from_engine, Times, acquire, persist, release_held,
}

-- What the adapter of the gateway returns or raises; `failure` is a ToolExecutionFailure with its code.
pub data StepReply : Type 0 where
  observed : Observed → StepReply
  failure : String → StepReply
  crashed : StepReply

-- The variables `current` and `held_lease`.
pub record Loop : Type 0 where
  pub current : WorkflowState
  pub held : Option String

-- How an iteration ends: by a `return`, or by the next test of the loop.
pub data Turn : Type 0 where
  returns : WorkflowState → Turn
  again : Loop → Turn

-- The except clauses around the body: a CheckpointError passes, a WorkflowError passes after the lease is
-- released, and any other exception becomes a WorkflowError then.
abbrev pub handled :
    {A : Type 0}
    → String
    → Option String
    → Result RuntimeError A × Store
    → Result RuntimeError A × Store
handled id held (ok a, store) = (ok a, store)
handled id held (err (checkpoint_error e), store) = (err (checkpoint_error e), store)
handled id held (err (engine_error (workflow_error code detail)), store) =
    (err (engine_error (workflow_error code detail)), release_held id held store)
handled id held (err (engine_error (value_error t)), store) =
    (err (runtime_error "TOOL_ERROR"), release_held id held store)
handled id held (err (engine_error recursion_error), store) =
    (err (runtime_error "TOOL_ERROR"), release_held id held store)
handled id held (err (runtime_error code), store) =
    (err (runtime_error code), release_held id held store)
handled id held (err unending, store) = (err unending, store)

unfoldable pub guarded : {A : Type 0} → WorkflowState → Option String → Runtime A → Runtime A
guarded current held body store = handled current.run_id held (body store)

abbrev pub required : {A : Type 0} → Option A → String → Runtime A
required none code = throw (runtime_error code)
required (some a) code = pure a

-- current.current_step_id is not None, and not ""
abbrev pub names_step : Option String → Bool
names_step none = false
names_step (some id) = not (id == "")

abbrev pub resumes : (Loop → Runtime WorkflowState) → Turn → Runtime WorkflowState
resumes loop (returns state) = pure state
resumes loop (again l) = loop l

-- if current.current_step_id is not None: the current step is not a running one
unfoldable pub check_in_flight : WorkflowState → Runtime Unit
check_in_flight current = elim current.current_step_id [
  | none ↦ pure tt
  | some id ↦ required (find_step id current.steps) "TOOL_ERROR" >>= λ active.
      if is_running active.status then throw (runtime_error "UNCERTAIN_TOOL_RESULT") else pure tt
]

module _ (codec : Codec) (seconds : ℕ) (tools : Option (PlanStep → StepReply))
    (times : ℕ → Times) where
  -- held_lease or self.store.acquire_lease(...)
  unfoldable pub hold : Times → WorkflowState → Option String → Runtime String
  hold t current (some lease) = pure lease
  hold t current none = acquire codec seconds t current.run_id current.revision

  -- if current.status == "READY": ...
  unfoldable pub start_ready : WorkflowState → Option String → Runtime Loop
  start_ready current held =
      if status_is_ready current.status
      then (do
        lease ← hold (times 0) current held
        started ← guarded current (some lease) (from_engine (start (times 0).engine current))
        persist codec seconds (times 0) current started (some lease) true
        pure (record { current = started; held = some lease }))
      else pure (record { current = current; held = held })

  -- The step that was begun was a tool, which has answered.
  unfoldable pub settle : Times → WorkflowState → String → StepReply → Runtime Turn
  settle t started lease (observed o) = do
    completed ←
        guarded started (some lease) (from_engine (complete_step t.engine t.stamp started o))
    persist codec seconds t started completed (some lease) false
    pure (again (record { current = completed; held = none }))
  settle t started lease (failure code) =
      if status_is_running started.status && names_step started.current_step_id
      then (do
        failed ← from_engine (fail_step t.engine started "TOOL_ERROR" code)
        persist codec seconds t started
            (record failed { replan_reason = some ReplanReason.tool_error }) (some lease) false
        pure (returns (record failed { replan_reason = some ReplanReason.tool_error })))
      else throw (runtime_error "TOOL_ERROR")
  settle t started lease crashed = guarded started (some lease) (throw (runtime_error "TOOL_ERROR"))

  unfoldable pub ask_user :
      Times → WorkflowState → String → Option ClarificationRequest → Runtime Turn
  ask_user t started lease none =
      guarded started (some lease) (throw (runtime_error "WORKFLOW_INVALID"))
  ask_user t started lease (some request) = do
    interrupted ← guarded started (some lease) (from_engine (interrupt t.engine started request))
    persist codec seconds t started interrupted (some lease) false
    pure (returns interrupted)

  unfoldable pub await_action : Times → WorkflowState → String → PlanStep → Runtime Turn
  await_action t started lease step = do
    waiting ←
        guarded started (some lease)
          (from_engine (wait_for_governed_action t.engine started step.step_id))
    persist codec seconds t started waiting (some lease) false
    pure (returns waiting)

  unfoldable pub run_tool : Times → WorkflowState → String → PlanStep → Runtime Turn
  run_tool t started lease step = do
    name ← guarded started (some lease) (required step.tool_name "WORKFLOW_INVALID")
    execute ← guarded started (some lease) (required tools "WORKFLOW_INVALID")
    settle t started lease (execute step)

  unfoldable pub dispatch : Times → WorkflowState → String → PlanStep → StepType → Runtime Turn
  dispatch t started lease step StepType.clarification = ask_user t started lease step.clarification
  dispatch t started lease step StepType.governed_action = await_action t started lease step
  dispatch t started lease step StepType.tool = run_tool t started lease step
  dispatch t started lease step StepType.finalize = run_tool t started lease step

  -- The body of the loop, which reads `times k` up to its first save, and then `times (k + 1)`.
  unfoldable pub turn : ℕ → WorkflowState → Option String → Runtime Turn
  turn k current held = do
    ready ← guarded current held (from_engine (ready_step current))
    step ← guarded current held (required ready "WORKFLOW_INVALID")
    lease ← hold (times k) current held
    started ←
        guarded current (some lease)
          (from_engine (begin_step (times k).engine current step.step_id))
    persist codec seconds (times k) current started (some lease) true
    dispatch (times (k + 1)) started lease step step.type

  -- while current.status == "RUNNING": ..., for at most so many iterations
  unfoldable pub loop : ℕ → ℕ → Loop → Runtime WorkflowState
  loop zero k l = throw unending
  loop (suc fuel) k l = elim (status_is_running l.current.status) [
    | true ↦ turn k l.current l.held >>= resumes (loop fuel (k + 2))
    | false ↦ pure l.current
  ]

  -- _advance(state, request, lease=)
  unfoldable pub advance : WorkflowState → Option String → Runtime WorkflowState
  advance state lease = do
    l ← start_ready state lease
    (if status_is_interrupted l.current.status || is_terminal l.current.status
        then pure l.current
        else (do
          guarded l.current l.held (check_in_flight l.current)
          loop (length l.current.steps + 1) 1 l))
