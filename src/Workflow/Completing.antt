-- ===== src/Workflow/Completing.antt =====
-- Starting a workflow and completing a step keep the invariant.
use synora_agentic_erp.Prelude.{
  ℕ, ◌≡◌, refl, subst, ◌∙◌, String, true, none, some, List, arith, Option-cases, inl, inr,
}
use synora_agentic_erp.Prelude.Result.{ok, Result-cases}
use synora_agentic_erp.Workflow.Contracts.{PlanStep, WorkflowState, WorkflowStatus, StepStatus}
use synora_agentic_erp.Workflow.Steps.{is_active, find_step, update_step}
use synora_agentic_erp.Workflow.Steps.Update.{active_only, all-update, update_step-const}
use synora_agentic_erp.Workflow.Invariant.{IsSound, asks_for_current}
use synora_agentic_erp.Workflow.Change.{plan-distinct, change-IsSound}
use synora_agentic_erp.Workflow.Engine.{
  with_status, ready_step, start, complete_governed_action, complete_step, succeed, advance,
  Observed,
}
use synora_agentic_erp.Workflow.Progress.{
  with_status-KeepsPlace, succeed-KeepsPlace, ready_step-some, next_ready-is_ready,
  next_ready-find_step, end-IsSound,
}

advance-steps :
    (state : WorkflowState) (steps : List PlanStep) (reason : String)
    → (advance state steps reason).steps ≡ steps
unfolding advance
advance-steps state steps reason = ground arith

advance-asks :
    (state : WorkflowState) (steps : List PlanStep) (reason : String)
    → state.status ≡ WorkflowStatus.running
    → asks_for_current
        (advance state steps reason).status
        (advance state steps reason).current_step_id
        (advance state steps reason).steps
      ≡ true
unfolding advance
advance-asks state steps reason r = ground arith

-- The change that both complete_… methods make.
complete-IsSound :
    (digest stamp reason : String) (state : WorkflowState) (id : String) (found : PlanStep)
    → IsSound state
    → find_step id state.steps ≡ some found
    → is_active found.status ≡ true
    → state.status ≡ WorkflowStatus.running
    → IsSound (advance state (update_step (λ _. succeed digest stamp found) id state.steps) reason)
complete-IsSound digest stamp reason state id found s f a r =
    let g = succeed digest stamp in
    let steps = update_step (λ _. g found) id state.steps in
    end-IsSound g state (advance state steps reason) id found (succeed-KeepsPlace digest stamp) s f
      a refl
      (advance-steps state steps reason
        ∙ update_step-const g id state.steps found (plan-distinct state.steps s.plan) f)
      (advance-asks state steps reason r)

pub complete_governed_action-IsSound :
    (now : ℕ) (stamp : String) (state t : WorkflowState) (id digest : String)
    → IsSound state
    → complete_governed_action now stamp state id digest ≡ ok t
    → IsSound t
unfolding complete_governed_action
complete_governed_action-IsSound now stamp state t id digest s h =
    elim (Option-cases (find_step id state.steps)) [
      | inl n ↦ absurd (ground arith)
      | inr (found, f) ↦
          let same : advance state (update_step (λ _. succeed digest stamp found) id state.steps)
                "governed action Receipt recorded"
              ≡ t =
            ground arith in
          subst IsSound same (
            complete-IsSound digest stamp "governed action Receipt recorded" state id found s f
              (ground arith) (ground arith))
    ]

pub complete_step-IsSound :
    (now : ℕ) (stamp : String) (state t : WorkflowState) (observation : Observed)
    → IsSound state
    → complete_step now stamp state observation ≡ ok t
    → IsSound t
unfolding complete_step
complete_step-IsSound now stamp state t observation s h =
    elim (Option-cases state.current_step_id) [
      | inl n ↦ absurd (ground arith)
      | inr (id, c) ↦ elim (Option-cases (find_step id state.steps)) [
        | inl n ↦ absurd (ground arith)
        | inr (found, f) ↦
            let same : advance state
                  (update_step (λ _. succeed observation.digest stamp found) id state.steps)
                  "workflow completed"
                ≡ t =
              ground arith in
            subst IsSound same (
              complete-IsSound observation.digest stamp "workflow completed" state id found s f
                (ground arith) (ground arith))
      ]
    ]

abbrev as_running : WorkflowState → WorkflowState
as_running state = record state { status = WorkflowStatus.running }

started_ready :
    (now : ℕ) (state t : WorkflowState)
    → start now state ≡ ok t
    → (step : PlanStep) × (ready_step (as_running state) ≡ ok (some step))
      × (t.steps ≡ update_step (with_status StepStatus.ready) step.step_id state.steps)
      × (t.current_step_id ≡ state.current_step_id)
      × (asks_for_current t.status t.current_step_id t.steps ≡ true)
unfolding start
started_ready now state t h = elim (Result-cases (ready_step (as_running state))) [
  | inr (e, r) ↦ absurd (ground arith)
  | inl (none, r) ↦ absurd (ground arith)
  | inl (some step, r) ↦ (step, r, ground arith, ground arith, ground arith)
]

pub start-IsSound :
    (now : ℕ) (state t : WorkflowState) → IsSound state → start now state ≡ ok t → IsSound t
start-IsSound now state t s h =
    let (step, r, e, c, asks) = started_ready now state t h in
    let (idle, next) =
      ready_step-some (as_running state) step
        (record { plan = s.plan; single = s.single; in_order = s.in_order; asks = refl }) r in
    let d = plan-distinct state.steps s.plan in
    let g = with_status StepStatus.ready in
    let keeps = with_status-KeepsPlace StepStatus.ready in
    let f = next_ready-find_step state.steps step d next in
    let turn = next_ready-is_ready state.steps step next in
    let single =
      all-update g keeps.id (active_only state.current_step_id) step.step_id state.steps step d f
        s.single refl in
    change-IsSound state g keeps step.step_id step state.current_step_id t s f (ground arith) refl
      single e c asks
