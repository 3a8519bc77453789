-- ===== src/Runtime/Committing.antt =====
-- The requests of workflow/runtime.py that make one call of the engine under a lease.
use synora_agentic_erp.Prelude.{
  ℕ, ◌≡◌, refl, String, Bool, true, false, not, ◌&&◌, Option, none, some, arith,
}
use synora_agentic_erp.Prelude.Result.{Result, ok, err}
use synora_agentic_erp.Workflow.Contracts.{
  WorkflowState, PlanStep, ReplanReason, Fault, is_terminal,
}
use synora_agentic_erp.Workflow.Histories.{received, answered, cancelled, expired, asked}
use synora_agentic_erp.Workflow.Engine.{is_expired, status_is_running}
use synora_agentic_erp.Workflow.Control.{cancel, expire, interrupt}
use synora_agentic_erp.Checkpoint.{Codec, Store}
use synora_agentic_erp.Runtime.Effects.{Times}
use synora_agentic_erp.Runtime.Advance.{StepReply}
use synora_agentic_erp.Runtime.Follows.{Follows, next, note, Stores}
use synora_agentic_erp.Runtime.Posts.{
  Post, bind-Post, from_engine-Post, pure-Post, throw-Post, if-Post, At, Kept, At-Kept,
  acquire-Post, persist-Post, protect-Post,
}
use synora_agentic_erp.Runtime.Advancing.{advance-Post}
use synora_agentic_erp.Workflow.Steps.{is_running, find_step}
use synora_agentic_erp.Runtime.{
  crash_request, recover_step, recover_current, save_outcome, commit, status, cancel_run,
  complete_action, resume_run, recover_one, marked,
}
use synora_agentic_erp.Runtime.Loading.{loaded-Post, fresh_loaded-Post}

module _ (codec : Codec) (seconds : ℕ) (sha256 : String → String) (s : WorkflowState) where
  save_outcome-Post :
      (clock : Times) (t : WorkflowState) (keep : WorkflowState → Bool)
      (outcome : Result Fault WorkflowState) (lease : String) (store : Store)
      → At codec seconds sha256 s t store
      → ((u : WorkflowState) → outcome ≡ ok u → Follows sha256 s u)
      → Post
          (Kept codec seconds sha256 s)
          (λ saved. At codec seconds sha256 s saved.1)
          (save_outcome codec seconds clock t keep outcome lease store)
  save_outcome-Post clock t keep outcome lease store h follows =
      bind-Post _ (λ u τ. At codec seconds sha256 s t τ × (outcome ≡ ok u)) _ _ _
        (from_engine-Post (Kept codec seconds sha256 s)
          (λ u τ. At codec seconds sha256 s t τ × (outcome ≡ ok u)) outcome store
          (At-Kept codec seconds sha256 s t store h) (λ u e. (h, e)))
        (λ u τ (i, e).
          bind-Post _ (λ done. At codec seconds sha256 s u) _ _ _
            (persist-Post codec seconds sha256 s clock t t u (some lease) (keep u) τ i
              (follows u e))
            (λ done τ' i'. pure-Post _ _ (lease, u) τ' i'))

  pub commit-Post :
      (clock : Times) (t : WorkflowState) (keep : WorkflowState → Bool)
      (outcome : Result Fault WorkflowState) (store : Store)
      → At codec seconds sha256 s t store
      → ((u : WorkflowState) → outcome ≡ ok u → Follows sha256 s u)
      → Post
          (Kept codec seconds sha256 s)
          (λ saved. At codec seconds sha256 s saved.1)
          (commit codec seconds clock t keep outcome store)
  unfolding commit
  commit-Post clock t keep outcome store h follows =
      bind-Post _ (λ lease. At codec seconds sha256 s t) _ _ _
        (acquire-Post codec seconds sha256 s clock t t.run_id t.revision store h)
        (λ lease σ g.
          protect-Post codec seconds sha256 s _ t.run_id lease
            (save_outcome codec seconds clock t keep outcome lease) σ
            (save_outcome-Post clock t keep outcome lease σ g follows))

  marked-Follows :
      (clock : Times) (interrupt_id : String) (t u : WorkflowState)
      → Follows sha256 s t
      → (r : Result Fault WorkflowState) → interrupt clock.engine t (crash_request interrupt_id) ≡ r
      → marked r ≡ ok u
      → Follows sha256 s u
  marked-Follows clock interrupt_id t u f (ok v) e p =
      note true ReplanReason.state_drift
        (next f (asked clock.engine (crash_request interrupt_id) e)) (ground arith)
  marked-Follows clock interrupt_id t u f (err e') e p = absurd (ground arith)

  module _ (read : codec.parse (codec.dump s) ≡ some s) where
    pub cancel_run-Post :
        (clock : Times) (revision : ℕ) (store : Store)
        → Stores codec s.run_id s store
        → Post
            (Kept codec seconds sha256 s)
            (At codec seconds sha256 s)
            (cancel_run codec seconds clock s.run_id revision store)
    unfolding cancel_run At
    cancel_run-Post clock revision store h =
        fresh_loaded-Post codec seconds sha256 s read _ revision _ store h (λ σ (f, i).
          bind-Post _ (λ saved. At codec seconds sha256 s saved.1) _ _ _
            (commit-Post clock s _ (cancel s "cancelled") σ (f, i)
              (λ u e. next f (cancelled "cancelled" e)))
            (λ saved τ g. pure-Post _ _ saved.1 τ g))

    pub complete_action-Post :
        (clock : Times) (revision : ℕ) (step_id digest : String) (store : Store)
        → Stores codec s.run_id s store
        → Post
            (Kept codec seconds sha256 s)
            (At codec seconds sha256 s)
            (complete_action codec seconds clock s.run_id revision step_id digest store)
    unfolding complete_action At
    complete_action-Post clock revision step_id digest store h =
        fresh_loaded-Post codec seconds sha256 s read _ revision _ store h (λ σ (f, i).
          bind-Post _ (λ saved. At codec seconds sha256 s saved.1) _ _ _
            (commit-Post clock s _ _ σ (f, i)
              (λ u e. next f (received clock.engine clock.stamp step_id digest e)))
            (λ saved τ g. pure-Post _ _ saved.1 τ g))

    pub status-Post :
        (clock : Times) (store : Store)
        → Stores codec s.run_id s store
        → Post
            (Kept codec seconds sha256 s)
            (At codec seconds sha256 s)
            (status codec seconds clock s.run_id store)
    unfolding status At
    status-Post clock store h = loaded-Post codec seconds sha256 s read _ _ store h (λ σ (f, i).
        if-Post _ _ (not (is_terminal s.status) && is_expired clock.engine s) _ _ σ
          (λ p.
            bind-Post _ (λ saved. At codec seconds sha256 s saved.1) _ _ _
              (commit-Post clock s _ (ok (expire s)) σ (f, i)
                (λ u e. next f (expired (ground arith))))
              (λ saved τ g. pure-Post _ _ saved.1 τ g))
          (λ _. pure-Post _ _ s σ (f, i)))

    pub resume_run-Post :
        (tools : PlanStep → StepReply) (times : ℕ → Times) (clock : Times) (revision : ℕ)
        (interrupt_id answer : String) (store : Store)
        → Stores codec s.run_id s store
        → Post (Kept codec seconds sha256 s) (At codec seconds sha256 s) (
            resume_run codec seconds tools times sha256 clock s.run_id revision interrupt_id answer
              store)
    unfolding resume_run At
    resume_run-Post tools times clock revision interrupt_id answer store h =
        fresh_loaded-Post codec seconds sha256 s read _ revision _ store h (λ σ (f, i).
          bind-Post _ (λ saved. At codec seconds sha256 s saved.1) _ _ _
            (commit-Post clock s _ _ σ (f, i)
              (λ u e. next f (answered clock.engine clock.stamp interrupt_id answer e)))
            (λ saved τ g.
              if-Post _ _ (status_is_running saved.1.status) _ _ τ
                (λ _.
                  advance-Post codec seconds sha256 s (some tools) times saved.1 (some saved.0) τ g)
                (λ _. pure-Post _ _ saved.1 τ g)))

  recover_step-Post :
      (clock : Times) (interrupt_id : String) (t : WorkflowState) (found : Option PlanStep)
      (store : Store)
      → At codec seconds sha256 s t store
      → Post
          (Kept codec seconds sha256 s)
          (λ done. Kept codec seconds sha256 s)
          (recover_step codec seconds clock interrupt_id t found store)
  unfolding recover_step At
  recover_step-Post clock interrupt_id t none store h =
      throw-Post _ _ _ store (At-Kept codec seconds sha256 s t store h)
  recover_step-Post clock interrupt_id t (some step) store (f, h) =
      if-Post _ _ (is_running step.status) _ _ store
        (λ _.
          bind-Post _ (λ saved. At codec seconds sha256 s saved.1) _ _ _
            (commit-Post clock t _ (marked (interrupt clock.engine t (crash_request interrupt_id)))
              store (f, h) (λ u e. marked-Follows clock interrupt_id t u f _ refl e))
            (λ saved τ g. pure-Post _ _ true τ (At-Kept codec seconds sha256 s saved.1 τ g)))
        (λ _. pure-Post _ _ false store (At-Kept codec seconds sha256 s t store (f, h)))

  recover_current-Post :
      (clock : Times) (interrupt_id : String) (t : WorkflowState) (current : Option String)
      (store : Store)
      → At codec seconds sha256 s t store
      → Post
          (Kept codec seconds sha256 s)
          (λ done. Kept codec seconds sha256 s)
          (recover_current codec seconds clock interrupt_id t current store)
  unfolding recover_current
  recover_current-Post clock interrupt_id t none store h =
      pure-Post _ _ false store (At-Kept codec seconds sha256 s t store h)
  recover_current-Post clock interrupt_id t (some id) store h =
      recover_step-Post clock interrupt_id t (find_step id t.steps) store h

  pub recover_one-Post :
      (clock : Times) (interrupt_id : String) (t : WorkflowState) (store : Store)
      → At codec seconds sha256 s t store
      → Post
          (Kept codec seconds sha256 s)
          (λ done. Kept codec seconds sha256 s)
          (recover_one codec seconds clock interrupt_id t store)
  unfolding recover_one
  recover_one-Post clock interrupt_id t store h =
      if-Post _ _ (status_is_running t.status) _ _ store
        (λ _. recover_current-Post clock interrupt_id t t.current_step_id store h)
        (λ _. pure-Post _ _ false store (At-Kept codec seconds sha256 s t store h))
