-- ===== src/Runtime/Advancing.antt =====
-- WorkflowRuntime._advance of workflow/runtime.py: what it saves are the states that calls of the engine
-- make, one after the other.
use synora_agentic_erp.Prelude.{
  ℕ, zero, suc, ◌+◌, ◌≡◌, refl, String, Bool, true, false, ◌&&◌, ◌||◌, Option, none, some, length,
  inl, inr, Option-cases,
}
use synora_agentic_erp.Prelude.Result.{Result, ok}
use synora_agentic_erp.Workflow.Contracts.{
  WorkflowState, StepType, PlanStep, Fault, ClarificationRequest, ReplanReason, is_terminal,
}
use synora_agentic_erp.Workflow.Histories.{started, began, waited, completed, failed, asked}
use synora_agentic_erp.Workflow.Steps.{find_step, is_running}
use synora_agentic_erp.Workflow.Engine.{
  status_is_ready, status_is_running, status_is_interrupted, ready_step,
}
use synora_agentic_erp.Workflow.Control.{fail_step}
use synora_agentic_erp.Checkpoint.{Codec, Store}
use synora_agentic_erp.Runtime.Effects.{Runtime, Times, from_engine, ◌>>=◌, ◌>>◌, persist}
use synora_agentic_erp.Runtime.Advance.{
  StepReply, observed, failure, crashed, Loop, Turn, returns, again, guarded, required, names_step,
  hold, start_ready, settle, ask_user, await_action, run_tool, dispatch, turn, resumes, loop,
  check_in_flight, advance,
}
use synora_agentic_erp.Runtime.Follows.{Follows, noted, next, note}
use synora_agentic_erp.Runtime.Posts.{
  Post, bind-Post, from_engine-Post, pure-Post, throw-Post, required-Post, if-Post, either-Post, At,
  Kept, At-Kept, guarded-Post, acquire-Post, persist-Post,
}

module _ (codec : Codec) (seconds : ℕ) (sha256 : String → String) (s : WorkflowState) where
  -- What an iteration leaves: the returned state, or the one to go on with, is the stored one.
  abbrev pub AtTurn : Turn → Store → Type 0
  AtTurn (returns t) store = At codec seconds sha256 s t store
  AtTurn (again l) store = At codec seconds sha256 s l.current store

  abbrev AtLoop : Loop → Store → Type 0
  AtLoop l store = At codec seconds sha256 s l.current store

  -- A call of the engine under the lease whose outcome is saved.
  step-Post :
      {B : Type 0} (R : B → Store → Type 0) (clock : Times) (t : WorkflowState)
      (held lease : Option String) (keep : Bool) (call : Result Fault WorkflowState)
      (rest : WorkflowState → Runtime B) (store : Store)
      → At codec seconds sha256 s t store
      → ((u : WorkflowState) → call ≡ ok u → Follows sha256 s u)
      → ((u : WorkflowState) (σ : Store)
          → call ≡ ok u
          → At codec seconds sha256 s u σ
          → Post (Kept codec seconds sha256 s) R (rest u σ))
      → Post (Kept codec seconds sha256 s) R (
          (guarded t held (from_engine call) >>= λ u.
          persist codec seconds clock t u lease keep >> rest u)
            store)
  step-Post R clock t held lease keep call rest store h follows k =
      bind-Post _ (λ u σ. At codec seconds sha256 s t σ × (call ≡ ok u)) R _ _
        (guarded-Post codec seconds sha256 s _ t held (from_engine call) store (
          from_engine-Post _ _ call store (At-Kept codec seconds sha256 s t store h)
            (λ u e. (h, e))))
        (λ u σ (g, e).
          bind-Post _ (λ done. At codec seconds sha256 s u) R _ _
            (persist-Post codec seconds sha256 s clock t t u lease keep σ g (follows u e))
            (λ done σ' g'. k u σ' e g'))

  -- A reading call of the engine, and a value that must be there.
  calls-Post :
      {A B : Type 0} (R : B → Store → Type 0) (call : Result Fault A) (t : WorkflowState)
      (held : Option String) (rest : A → Runtime B) (store : Store)
      → At codec seconds sha256 s t store
      → ((a : A) (σ : Store)
          → At codec seconds sha256 s t σ
          → Post (Kept codec seconds sha256 s) R (rest a σ))
      → Post (Kept codec seconds sha256 s) R ((guarded t held (from_engine call) >>= rest) store)
  calls-Post R call t held rest store h k =
      bind-Post _ (λ a. At codec seconds sha256 s t) R _ _
        (guarded-Post codec seconds sha256 s _ t held (from_engine call) store
          (from_engine-Post _ _ call store (At-Kept codec seconds sha256 s t store h) (λ a e. h)))
        k

  needs-Post :
      {A B : Type 0} (R : B → Store → Type 0) (value : Option A) (code : String) (t : WorkflowState)
      (held : Option String) (rest : A → Runtime B) (store : Store)
      → At codec seconds sha256 s t store
      → ((a : A) (σ : Store)
          → At codec seconds sha256 s t σ
          → Post (Kept codec seconds sha256 s) R (rest a σ))
      → Post (Kept codec seconds sha256 s) R ((guarded t held (required value code) >>= rest) store)
  needs-Post R value code t held rest store h k =
      bind-Post _ (λ a. At codec seconds sha256 s t) R _ _
        (guarded-Post codec seconds sha256 s _ t held (required value code) store (
          required-Post _ _ value code store (At-Kept codec seconds sha256 s t store h) (λ a e. h)))
        k

  module _ (tools : Option (PlanStep → StepReply)) (times : ℕ → Times) where
    settle-Post :
        (clock : Times) (t : WorkflowState) (lease : String) (reply : StepReply) (store : Store)
        → At codec seconds sha256 s t store
        → Post
            (Kept codec seconds sha256 s)
            AtTurn
            (settle codec seconds tools times clock t lease reply store)
    unfolding settle At
    settle-Post clock t lease (observed o) store (f, h) =
        step-Post _ clock t (some lease) (some lease) false _ _ store (f, h)
          (λ u e. next f (completed clock.engine clock.stamp o e)) (λ u σ e g. pure-Post _ _ _ σ g)
    settle-Post clock t lease (failure code) store (f, h) =
        if-Post _ _ (status_is_running t.status && names_step t.current_step_id) _ _ store
          (λ _.
            bind-Post _
              (λ u σ.
                At codec seconds sha256 s t σ × (fail_step clock.engine t "TOOL_ERROR" code ≡ ok u))
              _ _ _
              (from_engine-Post (Kept codec seconds sha256 s)
                (λ u σ.
                  At codec seconds sha256 s t σ
                  × (fail_step clock.engine t "TOOL_ERROR" code ≡ ok u))
                (fail_step clock.engine t "TOOL_ERROR" code) store
                (At-Kept codec seconds sha256 s t store (f, h)) (λ u e. ((f, h), e)))
              (λ u σ (g, e).
                bind-Post _
                  (λ done.
                    At codec seconds sha256 s (noted u.crash_recovered ReplanReason.tool_error u))
                  _ _ _
                  (persist-Post codec seconds sha256 s clock t t _ (some lease) false σ g (
                    note u.crash_recovered ReplanReason.tool_error
                      (next f (failed clock.engine "TOOL_ERROR" code e)) refl))
                  (λ done σ' g'. pure-Post _ _ _ σ' g')))
          (λ _. throw-Post _ _ _ store (At-Kept codec seconds sha256 s t store (f, h)))
    settle-Post clock t lease crashed store (f, h) =
        guarded-Post codec seconds sha256 s _ t (some lease) _ store
          (throw-Post _ _ _ store (At-Kept codec seconds sha256 s t store (f, h)))

    ask_user-Post :
        (clock : Times) (t : WorkflowState) (lease : String) (request : Option ClarificationRequest)
        (store : Store)
        → At codec seconds sha256 s t store
        → Post
            (Kept codec seconds sha256 s)
            AtTurn
            (ask_user codec seconds tools times clock t lease request store)
    unfolding ask_user At
    ask_user-Post clock t lease none store h =
        guarded-Post codec seconds sha256 s _ t (some lease) _ store
          (throw-Post _ _ _ store (At-Kept codec seconds sha256 s t store h))
    ask_user-Post clock t lease (some request) store (f, h) =
        step-Post _ clock t (some lease) (some lease) false _ _ store (f, h)
          (λ u e. next f (asked clock.engine request e)) (λ u σ e g. pure-Post _ _ (returns u) σ g)

    await_action-Post :
        (clock : Times) (t : WorkflowState) (lease : String) (step : PlanStep) (store : Store)
        → At codec seconds sha256 s t store
        → Post
            (Kept codec seconds sha256 s)
            AtTurn
            (await_action codec seconds tools times clock t lease step store)
    unfolding await_action At
    await_action-Post clock t lease step store (f, h) =
        step-Post _ clock t (some lease) (some lease) false _ _ store (f, h)
          (λ u e. next f (waited clock.engine step.step_id e))
          (λ u σ e g. pure-Post _ _ (returns u) σ g)

    run_tool-Post :
        (clock : Times) (t : WorkflowState) (lease : String) (step : PlanStep) (store : Store)
        → At codec seconds sha256 s t store
        → Post
            (Kept codec seconds sha256 s)
            AtTurn
            (run_tool codec seconds tools times clock t lease step store)
    unfolding run_tool
    run_tool-Post clock t lease step store h =
        needs-Post _ step.tool_name "WORKFLOW_INVALID" t (some lease) _ store h (λ name σ g.
          needs-Post _ tools "WORKFLOW_INVALID" t (some lease) _ σ g
            (λ execute σ' g'. settle-Post clock t lease (execute step) σ' g'))

    dispatch-Post :
        (clock : Times) (t : WorkflowState) (lease : String) (step : PlanStep) (type : StepType)
        (store : Store)
        → At codec seconds sha256 s t store
        → Post
            (Kept codec seconds sha256 s)
            AtTurn
            (dispatch codec seconds tools times clock t lease step type store)
    unfolding dispatch
    dispatch-Post clock t lease step StepType.clarification store h =
        ask_user-Post clock t lease step.clarification store h
    dispatch-Post clock t lease step StepType.governed_action store h =
        await_action-Post clock t lease step store h
    dispatch-Post clock t lease step StepType.tool store h =
        run_tool-Post clock t lease step store h
    dispatch-Post clock t lease step StepType.finalize store h =
        run_tool-Post clock t lease step store h

    hold-Post :
        (clock : Times) (t : WorkflowState) (held : Option String) (store : Store)
        → At codec seconds sha256 s t store
        → Post
            (Kept codec seconds sha256 s)
            (λ lease. At codec seconds sha256 s t)
            (hold codec seconds tools times clock t held store)
    unfolding hold Post
    hold-Post clock t none store h =
        acquire-Post codec seconds sha256 s clock t t.run_id t.revision store h
    hold-Post clock t (some lease) store h = h

    pub turn-Post :
        (k : ℕ) (t : WorkflowState) (held : Option String) (store : Store)
        → At codec seconds sha256 s t store
        → Post (Kept codec seconds sha256 s) AtTurn (turn codec seconds tools times k t held store)
    unfolding turn At
    turn-Post k t held store h = calls-Post _ (ready_step t) t held _ store h (λ ready σ g.
        needs-Post _ ready "WORKFLOW_INVALID" t held _ σ g (λ step σ' g'.
          bind-Post _ (λ lease. At codec seconds sha256 s t) AtTurn _ _
            (hold-Post (times k) t held σ' g')
            (λ lease τ (f, i).
              step-Post _ (times k) t (some lease) (some lease) true _ _ τ (f, i)
                (λ u e. next f (began (times k).engine step.step_id e))
                (λ u τ' e i'. dispatch-Post (times (k + 1)) u lease step step.type τ' i'))))

    resumes-Post :
        (rest : Loop → Runtime WorkflowState) (done : Turn) (store : Store)
        → AtTurn done store
        → ((l : Loop) (σ : Store)
            → At codec seconds sha256 s l.current σ
            → Post (Kept codec seconds sha256 s) (At codec seconds sha256 s) (rest l σ))
        → Post (Kept codec seconds sha256 s) (At codec seconds sha256 s) (resumes rest done store)
    resumes-Post rest (returns t) store h k = pure-Post _ _ _ store h
    resumes-Post rest (again l) store h k = k l store h

    loop-Post :
        (fuel k : ℕ) (l : Loop) (store : Store)
        → At codec seconds sha256 s l.current store
        → Post
            (Kept codec seconds sha256 s)
            (At codec seconds sha256 s)
            (loop codec seconds tools times fuel k l store)
    unfolding loop
    loop-Post zero k l store h =
        throw-Post _ _ _ store (At-Kept codec seconds sha256 s l.current store h)
    loop-Post (suc fuel) k l store h =
        either-Post _ _ (status_is_running l.current.status) _ _ store
          (λ _. bind-Post _ AtTurn _ _ _ (turn-Post k l.current l.held store h) (λ done σ g.
            resumes-Post (loop codec seconds tools times fuel (k + 2)) done σ g
              (loop-Post fuel (k + 2))))
          (λ _. pure-Post _ _ _ store h)

    start_ready-Post :
        (t : WorkflowState) (held : Option String) (store : Store)
        → At codec seconds sha256 s t store
        → Post
            (Kept codec seconds sha256 s)
            AtLoop
            (start_ready codec seconds tools times t held store)
    unfolding start_ready At
    start_ready-Post t held store h =
        if-Post _ _ (status_is_ready t.status) _ _ store
          (λ _.
            bind-Post _ (λ lease. At codec seconds sha256 s t) AtLoop _ _
              (hold-Post (times 0) t held store h)
              (λ lease τ (f, i).
                step-Post _ (times 0) t (some lease) (some lease) true _ _ τ (f, i)
                  (λ u e. next f (started (times 0).engine e))
                  (λ u τ' e i'. pure-Post _ _ _ τ' i')))
          (λ _. pure-Post _ _ _ store h)

    check_in_flight-Post :
        (t u : WorkflowState) (store : Store)
        → At codec seconds sha256 s u store
        → Post
            (Kept codec seconds sha256 s)
            (λ done. At codec seconds sha256 s u)
            (check_in_flight t store)
    unfolding check_in_flight
    check_in_flight-Post t u store h = elim (Option-cases t.current_step_id) [
      | inl p ↦ rw p (pure-Post _ _ _ store h)
      | inr (id, p) ↦ rw p (
          bind-Post _ (λ step. At codec seconds sha256 s u) (λ done. At codec seconds sha256 s u) _
            _
            (required-Post _ _ (find_step id t.steps) "TOOL_ERROR" store
              (At-Kept codec seconds sha256 s u store h) (λ step e. h))
            (λ step σ g.
              if-Post _ _ (is_running step.status) _ _ σ
                (λ _. throw-Post _ _ _ σ (At-Kept codec seconds sha256 s u σ g))
                (λ _. pure-Post _ _ _ σ g)))
    ]

    pub advance-Post :
        (t : WorkflowState) (held : Option String) (store : Store)
        → At codec seconds sha256 s t store
        → Post
            (Kept codec seconds sha256 s)
            (At codec seconds sha256 s)
            (advance codec seconds tools times t held store)
    unfolding advance
    advance-Post t held store h =
        bind-Post _ AtLoop _ _ _ (start_ready-Post t held store h) (λ l σ g.
          if-Post _ _ (status_is_interrupted l.current.status || is_terminal l.current.status) _ _ σ
            (λ _. pure-Post _ _ _ σ g)
            (λ _.
              bind-Post _ (λ done. At codec seconds sha256 s l.current) _ _ _
                (guarded-Post codec seconds sha256 s _ l.current l.held _ σ
                  (check_in_flight-Post l.current l.current σ g))
                (λ done τ i. loop-Post (length l.current.steps + 1) 1 l τ i)))
