-- ===== src/Runtime/Ending.antt =====
-- The loop of WorkflowRuntime._advance in workflow/runtime.py ends: an iteration begins a step for good.
use synora_agentic_erp.Prelude.{
  ℕ, zero, suc, ◌+◌, ◌≤◌, ◌<◌, ◌≡◌, String, Bool, true, false, ◌&&◌, ◌||◌, Option, none, some,
  arith, length, inl, inr, Option-cases,
}
use synora_agentic_erp.Prelude.Result.{Result, ok, err}
use synora_agentic_erp.Workflow.Contracts.{
  WorkflowState, PlanStep, StepType, Fault, ClarificationRequest, ReplanReason, is_terminal,
}
use synora_agentic_erp.Workflow.Steps.{find_step, is_running}
use synora_agentic_erp.Workflow.Engine.{
  status_is_running, status_is_ready, status_is_interrupted, begin_step, complete_step, ready_step,
}
use synora_agentic_erp.Workflow.Control.{fail_step}
use synora_agentic_erp.Checkpoint.{Codec, Store}
use synora_agentic_erp.Runtime.Effects.{
  RuntimeError, checkpoint_error, engine_error, runtime_error, unending, Runtime, Times, ◌>>=◌,
  ◌>>◌, from_engine, acquire, persist,
}
use synora_agentic_erp.Runtime.Advance.{
  StepReply, observed, failure, crashed, Loop, Turn, returns, again, guarded, names_step, hold,
  start_ready, settle, ask_user, await_action, run_tool, dispatch, turn, resumes, loop,
  check_in_flight, advance,
}
use synora_agentic_erp.Workflow.Opens.{opens, opens-length, begin_step-opens, complete_step-opens}
use synora_agentic_erp.Workflow.Settled.{
  is_settled, settled_unless_running, over-settled, interrupt-settled, fail_step-settled,
  wait_for_governed_action-settled, complete_step-started, start-started,
}
use synora_agentic_erp.Runtime.Ends.{
  Ends, bind-Ends, pure-Ends, stop-Ends, from_engine-Ends, required-Ends, guarded-Ends, if-Ends,
  either-Ends, when-Ends, written-Ends, leased-Ends,
}

module _ (codec : Codec) (seconds : ℕ) where
  persist-Ends :
      (clock : Times) (t u : WorkflowState) (lease : Option String) (keep : Bool) (store : Store)
      → Ends (λ done. Unit {0}) (persist codec seconds clock t u lease keep store)
  unfolding persist
  persist-Ends clock t u lease keep store = written-Ends _ store

  -- A call of the engine whose outcome is saved.
  step-Ends :
      {B : Type 0} (R : B → Type 0) (clock : Times) (t : WorkflowState) (held lease : Option String)
      (keep : Bool) (call : Result Fault WorkflowState) (rest : WorkflowState → Runtime B)
      (store : Store)
      → ((u : WorkflowState) (σ : Store) → call ≡ ok u → Ends R (rest u σ))
      → Ends R (
          (guarded t held (from_engine call) >>= λ u.
          persist codec seconds clock t u lease keep >> rest u)
            store)
  step-Ends R clock t held lease keep call rest store k =
      bind-Ends (λ u. call ≡ ok u) R _ _
        (guarded-Ends _ t held (from_engine call) store (from_engine-Ends call store))
        (λ u σ e.
          bind-Ends (λ done. Unit {0}) R _ _ (persist-Ends clock t u lease keep σ)
            (λ done τ _. k u τ e))

  -- An iteration that goes on leaves fewer steps to begin, and the workflow started.
  abbrev Fewer : ℕ → Turn → Type 0
  Fewer n (returns t) = is_settled t ≡ true
  Fewer n (again l) = (opens l.current.steps < n) × (status_is_ready l.current.status ≡ false)

  Fewer-le :
      (m n : ℕ) (outcome : Result RuntimeError Turn × Store)
      → m ≤ n
      → Ends (Fewer m) outcome
      → Ends (Fewer n) outcome
  unfolding Ends
  Fewer-le m n (ok (returns t), store) h e = e
  Fewer-le m n (ok (again l), store) h (fewer, live) = (ground arith, live)
  Fewer-le m n (err unending, store) h e = e
  Fewer-le m n (err (checkpoint_error c), store) h e = tt
  Fewer-le m n (err (engine_error c), store) h e = tt
  Fewer-le m n (err (runtime_error c), store) h e = tt

  module _ (tools : Option (PlanStep → StepReply)) (times : ℕ → Times) where
    hold-Ends :
        (clock : Times) (t : WorkflowState) (held : Option String) (store : Store)
        → Ends (λ lease. Unit {0}) (hold codec seconds tools times clock t held store)
    unfolding hold acquire
    hold-Ends clock t none store = leased-Ends _ store
    hold-Ends clock t (some lease) store = pure-Ends _ lease store tt

    settle-Ends :
        (clock : Times) (t : WorkflowState) (lease : String) (reply : StepReply) (store : Store)
        → Ends
            (Fewer (suc (opens t.steps)))
            (settle codec seconds tools times clock t lease reply store)
    unfolding settle
    settle-Ends clock t lease (observed o) store =
        step-Ends _ clock t (some lease) (some lease) false
          (complete_step clock.engine clock.stamp t o) _ store
          (λ u σ e. pure-Ends _ (again (record { current = u; held = none })) σ (
            ground (arith, complete_step-opens clock.engine clock.stamp t u o e),
            complete_step-started clock.engine clock.stamp t u o e,
          ))
    settle-Ends clock t lease (failure code) store =
        if-Ends _ (status_is_running t.status && names_step t.current_step_id) _ _ store
          (bind-Ends _ _ _ _ (from_engine-Ends (fail_step clock.engine t "TOOL_ERROR" code) store)
            (λ u σ e. bind-Ends _ _ _ _ (persist-Ends clock t _ (some lease) false σ) (λ done τ _.
              pure-Ends _ (returns _) τ
                (fail_step-settled clock.engine t u "TOOL_ERROR" code ReplanReason.tool_error e))))
          (stop-Ends _ "TOOL_ERROR" store)
    settle-Ends clock t lease crashed store =
        guarded-Ends _ t (some lease) _ store (stop-Ends _ "TOOL_ERROR" store)

    ask_user-Ends :
        (clock : Times) (t : WorkflowState) (lease : String) (request : Option ClarificationRequest)
        (n : ℕ) (store : Store)
        → Ends (Fewer n) (ask_user codec seconds tools times clock t lease request store)
    unfolding ask_user
    ask_user-Ends clock t lease none n store =
        guarded-Ends _ t (some lease) _ store (stop-Ends _ "WORKFLOW_INVALID" store)
    ask_user-Ends clock t lease (some request) n store =
        step-Ends _ clock t (some lease) (some lease) false _ _ store
          (λ u σ e. pure-Ends _ (returns u) σ (interrupt-settled clock.engine t u request e))

    run_tool-Ends :
        (clock : Times) (t : WorkflowState) (lease : String) (step : PlanStep) (store : Store)
        → Ends
            (Fewer (suc (opens t.steps)))
            (run_tool codec seconds tools times clock t lease step store)
    unfolding run_tool
    run_tool-Ends clock t lease step store =
        bind-Ends (λ name. Unit {0}) _ _ _
          (guarded-Ends _ t (some lease) _ store
            (required-Ends step.tool_name "WORKFLOW_INVALID" store))
          (λ name σ _.
            bind-Ends (λ execute. Unit {0}) _ _ _
              (guarded-Ends _ t (some lease) _ σ (required-Ends tools "WORKFLOW_INVALID" σ))
              (λ execute τ _. settle-Ends clock t lease (execute step) τ))

    dispatch-Ends :
        (clock : Times) (t : WorkflowState) (lease : String) (step : PlanStep) (type : StepType)
        (store : Store)
        → Ends
            (Fewer (suc (opens t.steps)))
            (dispatch codec seconds tools times clock t lease step type store)
    unfolding dispatch await_action
    dispatch-Ends clock t lease step StepType.clarification store =
        ask_user-Ends clock t lease step.clarification (suc (opens t.steps)) store
    dispatch-Ends clock t lease step StepType.governed_action store =
        step-Ends _ clock t (some lease) (some lease) false _ _ store (λ u σ e.
          pure-Ends _ (returns u) σ
            (wait_for_governed_action-settled clock.engine t u step.step_id e))
    dispatch-Ends clock t lease step StepType.tool store = run_tool-Ends clock t lease step store
    dispatch-Ends clock t lease step StepType.finalize store =
        run_tool-Ends clock t lease step store

    turn-Ends :
        (k n : ℕ) (t : WorkflowState) (held : Option String) (store : Store)
        → opens t.steps ≤ n
        → Ends (Fewer n) (turn codec seconds tools times k t held store)
    unfolding turn
    turn-Ends k n t held store h =
        bind-Ends _ _ _ _
          (guarded-Ends _ t held (from_engine (ready_step t)) store
            (from_engine-Ends (ready_step t) store))
          (λ ready σ _.
            bind-Ends _ _ _ _ (guarded-Ends _ t held _ σ (required-Ends ready "WORKFLOW_INVALID" σ))
              (λ step σ' _. bind-Ends _ _ _ _ (hold-Ends (times k) t held σ') (λ lease τ _.
                step-Ends _ (times k) t (some lease) (some lease) true
                  (begin_step (times k).engine t step.step_id) _ τ
                  (λ u τ' e.
                    Fewer-le _ n _
                      (ground (arith, begin_step-opens (times k).engine t u step.step_id e))
                      (dispatch-Ends (times (k + 1)) u lease step step.type τ')))))

    resumes-Ends :
        (n : ℕ) (rest : Loop → Runtime WorkflowState) (done : Turn) (store : Store)
        → Fewer n done
        → ((l : Loop) (σ : Store)
            → opens l.current.steps < n
            → status_is_ready l.current.status ≡ false
            → Ends (λ t. is_settled t ≡ true) (rest l σ))
        → Ends (λ t. is_settled t ≡ true) (resumes rest done store)
    resumes-Ends n rest (returns t) store h k = pure-Ends _ t store h
    resumes-Ends n rest (again l) store (h, live) k = k l store h live

    loop-Ends :
        (fuel k : ℕ) (l : Loop) (store : Store)
        → opens l.current.steps < fuel
        → status_is_ready l.current.status ≡ false
        → Ends (λ t. is_settled t ≡ true) (loop codec seconds tools times fuel k l store)
    unfolding loop
    loop-Ends zero k l store h live = absurd (ground arith)
    loop-Ends (suc fuel) k l store h live =
        either-Ends _ (status_is_running l.current.status) _ _ store
          (λ _.
            bind-Ends _ _ _ _ (turn-Ends k fuel l.current l.held store (ground arith))
              (λ done σ f. resumes-Ends fuel _ done σ f (loop-Ends fuel (k + 2))))
          (λ idle. pure-Ends _ l.current store (settled_unless_running l.current live idle))

    start_ready-Ends :
        (t : WorkflowState) (held : Option String) (store : Store)
        → Ends
            (λ l. status_is_ready l.current.status ≡ false)
            (start_ready codec seconds tools times t held store)
    unfolding start_ready
    start_ready-Ends t held store =
        when-Ends _ (status_is_ready t.status) _ _ store
          (λ _. bind-Ends _ _ _ _ (hold-Ends (times 0) t held store) (λ lease σ _.
            step-Ends _ (times 0) t (some lease) (some lease) true _ _ σ
              (λ u τ e. pure-Ends _ _ τ (start-started (times 0).engine t u e))))
          (λ live. pure-Ends _ _ store live)

    check_in_flight-Ends :
        (t : WorkflowState) (store : Store) → Ends (λ done. Unit {0}) (check_in_flight t store)
    unfolding check_in_flight
    check_in_flight-Ends t store = elim (Option-cases t.current_step_id) [
      | inl p ↦ rw p (pure-Ends _ tt store tt)
      | inr (id, p) ↦ rw p (
          bind-Ends _ _ _ _ (required-Ends (find_step id t.steps) "TOOL_ERROR" store) (λ step σ _.
            if-Ends _ (is_running step.status) _ _ σ (stop-Ends _ "UNCERTAIN_TOOL_RESULT" σ)
              (pure-Ends _ tt σ tt)))
    ]

    advance-Ends :
        (t : WorkflowState) (held : Option String) (store : Store)
        → Ends (λ u. is_settled u ≡ true) (advance codec seconds tools times t held store)
    unfolding advance
    advance-Ends t held store = bind-Ends _ _ _ _ (start_ready-Ends t held store) (λ l σ live.
        when-Ends _ (status_is_interrupted l.current.status || is_terminal l.current.status) _ _ σ
          (λ over. pure-Ends _ l.current σ (over-settled l.current over))
          (λ _.
            bind-Ends _ _ _ _
              (guarded-Ends _ l.current l.held _ σ (check_in_flight-Ends l.current σ))
              (λ done τ _.
                loop-Ends (length l.current.steps + 1) 1 l τ
                  (ground (arith, opens-length l.current.steps)) live)))

-- Driving a workflow ends, whatever the tools answer and the clock shows: it raises, or it returns a
-- state that has been started and is over, or waits for the user or for a governed action.
pub advance_settles :
    (codec : Codec) (seconds : ℕ) (tools : Option (PlanStep → StepReply)) (times : ℕ → Times)
    (t : WorkflowState) (held : Option String) (store : Store)
    → Ends (λ u. is_settled u ≡ true) (advance codec seconds tools times t held store)
advance_settles codec seconds tools times t held store =
    advance-Ends codec seconds tools times t held store
