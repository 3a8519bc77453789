-- ===== src/Workflow/Controlling.antt =====
-- Failing, interrupting, resuming, replanning, cancelling and expiring keep the invariant.
use synora_agentic_erp.Prelude.{
  ℕ, ◌≡◌, refl, ◌∙◌, String, ◌==◌, true, some, List, all, arith, eq_iff, Bool-cases, Option-cases,
  inl, inr, [], ◌∷◌,
}
use synora_agentic_erp.Prelude.Result.{ok}
use synora_agentic_erp.Workflow.Contracts.{
  PlanStep, WorkflowState, WorkflowStatus, StepStatus, ClarificationRequest,
}
use synora_agentic_erp.Workflow.Steps.{is_active, find_step, update_step}
use synora_agentic_erp.Workflow.Steps.Update.{find_step-all, update_step-const}
use synora_agentic_erp.Workflow.Invariant.{IsSound, current_active}
use synora_agentic_erp.Workflow.Change.{KeepsPlace, plan-distinct}
use synora_agentic_erp.Workflow.Engine.{with_status, succeed}
use synora_agentic_erp.Workflow.Control.{
  fail_step, failed_with, failure_text, interrupt, resume, recovery_text, cancel, expire,
}
use synora_agentic_erp.Workflow.Progress.{
  succeed-KeepsPlace, wait-IsSound, end-IsSound, ids_of_found,
}

all-true : (steps : List PlanStep) → all (λ _. true) steps ≡ true
all-true [] = refl
all-true (s ∷ steps) = all-true steps

failed_with-KeepsPlace : (text : String) → KeepsPlace (failed_with text)
failed_with-KeepsPlace text = record { id = λ s. refl; order = λ s. refl; deps = λ s. refl }

pub fail_step-IsSound :
    (now : ℕ) (state t : WorkflowState) (code detail : String)
    → IsSound state
    → fail_step now state code detail ≡ ok t
    → IsSound t
unfolding fail_step
fail_step-IsSound now state t code detail s h = elim (Option-cases state.current_step_id) [
  | inl n ↦ absurd (ground arith)
  | inr (id, c) ↦ elim (Option-cases (find_step id state.steps)) [
    | inl n ↦ absurd (ground arith)
    | inr (found, f) ↦
        let (_, named) = find_step-all (λ _. true) id state.steps found f (all-true state.steps) in
        let g = failed_with (failure_text code detail) in
        let steps : t.steps ≡ update_step (λ _. g found) id state.steps = ground arith in
        end-IsSound g state t id found (failed_with-KeepsPlace (failure_text code detail)) s f
          (ground arith) refl
          (steps ∙ update_step-const g id state.steps found (plan-distinct state.steps s.plan) f)
          (ground arith)
  ]
]

find_step-update :
    (g : PlanStep → PlanStep) (id : String) (steps : List PlanStep) (found : PlanStep)
    → ((x : PlanStep) → (g x).step_id ≡ x.step_id)
    → find_step id steps ≡ some found
    → find_step id (update_step g id steps) ≡ some (g found)
unfolding find_step update_step
find_step-update g id [] found k f = cc
find_step-update g id (x ∷ steps) found k f = elim (Bool-cases (x.step_id == id)) [
  | inl e ↦ ground (arith, k x, eq_iff x.step_id id)
  | inr n ↦ ground (arith, k x, find_step-update g id steps found k)
]

pub interrupt-IsSound :
    (now : ℕ) (state t : WorkflowState) (request : ClarificationRequest)
    → IsSound state
    → interrupt now state request ≡ ok t
    → IsSound t
unfolding interrupt current_active
interrupt-IsSound now state t request s h = elim (Option-cases state.current_step_id) [
  | inl n ↦ absurd (ground arith)
  | inr (id, c) ↦ elim (Option-cases (find_step id state.steps)) [
    | inl n ↦ absurd (ground arith)
    | inr (found, f) ↦
        let (_, named) = find_step-all (λ _. true) id state.steps found f (all-true state.steps) in
        let known = ids_of_found id state.steps found f in
        wait-IsSound state t id found s f (ground arith) (ground arith) (ground arith) (
          ground (
            arith,
            find_step-update (with_status StepStatus.waiting) id state.steps found (λ x. refl) f,
          ))
  ]
]

-- Cancelling and expiring change no step.
pub cancel-IsSound :
    (state t : WorkflowState) (detail : String)
    → IsSound state
    → cancel state detail ≡ ok t
    → IsSound t
unfolding cancel
cancel-IsSound state t detail s h =
    let st : t.steps ≡ state.steps = ground arith in
    let cur : t.current_step_id ≡ state.current_step_id = ground arith in
    record {
      plan = rw st s.plan;
      single = rw (st, cur) s.single;
      in_order = rw st s.in_order;
      asks = ground (arith, s.asks);
    }

pub expire-IsSound : (state : WorkflowState) → IsSound state → IsSound (expire state)
unfolding expire
expire-IsSound state s =
    let st : (expire state).steps ≡ state.steps = ground arith in
    let cur : (expire state).current_step_id ≡ state.current_step_id = ground arith in
    record {
      plan = rw st s.plan;
      single = rw (st, cur) s.single;
      in_order = rw st s.in_order;
      asks = ground (arith, s.asks);
    }

-- While the user is asked, the current step is found in the plan, and is active.
asked_step :
    (state : WorkflowState)
    → IsSound state
    → state.status ≡ WorkflowStatus.interrupted
    → (id : String) × (found : PlanStep) × (state.current_step_id ≡ some id)
      × (find_step id state.steps ≡ some found)
      × (is_active found.status ≡ true)
unfolding current_active
asked_step state s i = elim (Option-cases state.current_step_id) [
  | inl n ↦ absurd (ground (arith, s.asks))
  | inr (id, c) ↦ elim (Option-cases (find_step id state.steps)) [
    | inl n ↦ absurd (ground (arith, s.asks))
    | inr (found, f) ↦ (id, found, c, f, ground (arith, s.asks))
  ]
]

pub resume-IsSound :
    (sha256 : String → String) (now : ℕ) (stamp : String) (state t : WorkflowState)
    (interrupt_id answer : String)
    → IsSound state
    → resume sha256 now stamp state interrupt_id answer ≡ ok t
    → IsSound t
unfolding resume
resume-IsSound sha256 now stamp state t interrupt_id answer s h =
    let asked : state.status ≡ WorkflowStatus.interrupted = ground arith in
    let (id, found, c, f, a) = asked_step state s asked in
    let known = ids_of_found id state.steps found f in
    elim (Bool-cases state.crash_recovered) [
      | inl crashed ↦
          end-IsSound (failed_with recovery_text) state t id found
            (failed_with-KeepsPlace recovery_text) s f a (ground arith) (ground arith)
            (ground arith)
      | inr answered ↦
          let digest = sha256 "clarification-answer-accepted" in
          end-IsSound (succeed digest stamp) state t id found (succeed-KeepsPlace digest stamp) s f
            a (ground arith) (ground arith) (ground arith)
    ]
