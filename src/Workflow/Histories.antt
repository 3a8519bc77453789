-- ===== src/Workflow/Histories.antt =====
-- Whole histories of a workflow: the calls of the engine that succeeded, one after the other.
use synora_agentic_erp.Prelude.{ℕ, suc, ◌≡◌, subst, String, true, List, all, arith}
use synora_agentic_erp.Prelude.Result.{ok}
use synora_agentic_erp.Workflow.Contracts.{
  PlanStep, WorkflowState, ClarificationRequest, ReplanReason,
}
use synora_agentic_erp.Workflow.Dag.{validate_plan_dag}
use synora_agentic_erp.Workflow.Steps.{is_open, succeeded_ids}
use synora_agentic_erp.Workflow.Steps.Update.{active_only, all_mono}
use synora_agentic_erp.Workflow.Invariant.{IsSound, in_turn}
use synora_agentic_erp.Workflow.Engine.{
  create_state, start, begin_step, wait_for_governed_action, complete_governed_action,
  complete_step, Observed,
}
use synora_agentic_erp.Workflow.Control.{fail_step, interrupt, resume, replan, cancel, expire}
use synora_agentic_erp.Workflow.Progress.{begin_step-IsSound, wait_for_governed_action-IsSound}
use synora_agentic_erp.Workflow.Completing.{
  complete_governed_action-IsSound, complete_step-IsSound, start-IsSound,
}
use synora_agentic_erp.Workflow.Controlling.{
  fail_step-IsSound, interrupt-IsSound, resume-IsSound, cancel-IsSound, expire-IsSound,
}
use synora_agentic_erp.Workflow.Replanning.{replan-IsSound}

-- One successful call, at whatever instants the clock shows. `expire` succeeds always, and leaves a
-- workflow that is over as it is.
pub data Step (sha256 : String → String) (s t : WorkflowState) : Type 0 where
  started : (now : ℕ) → start now s ≡ ok t → Step sha256 s t
  began : (now : ℕ) (id : String) → begin_step now s id ≡ ok t → Step sha256 s t
  waited : (now : ℕ) (id : String) → wait_for_governed_action now s id ≡ ok t → Step sha256 s t
  received :
      (now : ℕ) (stamp id digest : String)
      → complete_governed_action now stamp s id digest ≡ ok t
      → Step sha256 s t
  completed :
      (now : ℕ) (stamp : String) (observation : Observed)
      → complete_step now stamp s observation ≡ ok t
      → Step sha256 s t
  failed : (now : ℕ) (code detail : String) → fail_step now s code detail ≡ ok t → Step sha256 s t
  asked :
      (now : ℕ) (request : ClarificationRequest) → interrupt now s request ≡ ok t → Step sha256 s t
  answered :
      (now : ℕ) (stamp interrupt_id answer : String)
      → resume sha256 now stamp s interrupt_id answer ≡ ok t
      → Step sha256 s t
  replanned :
      (now : ℕ) (steps : List PlanStep) (reason : ReplanReason)
      → replan now s steps reason ≡ ok t
      → Step sha256 s t
  cancelled : (detail : String) → cancel s detail ≡ ok t → Step sha256 s t
  expired : expire s ≡ t → Step sha256 s t

-- n successful calls lead from s to t.
pub data Reach (sha256 : String → String) (s : WorkflowState) : ℕ → WorkflowState → Type 0 where
  here : {t : WorkflowState} → s ≡ t → Reach sha256 s 0 t
  next :
      {n : ℕ} {t u : WorkflowState}
      → Reach sha256 s n t
      → Step sha256 t u
      → Reach sha256 s (suc n) u

pub Step-IsSound :
    (sha256 : String → String) (s t : WorkflowState) → Step sha256 s t → IsSound s → IsSound t
Step-IsSound sha256 s t (started now h) i = start-IsSound now s t i h
Step-IsSound sha256 s t (began now id h) i = begin_step-IsSound now s t id i h
Step-IsSound sha256 s t (waited now id h) i = wait_for_governed_action-IsSound now s t id i h
Step-IsSound sha256 s t (received now stamp id digest h) i =
    complete_governed_action-IsSound now stamp s t id digest i h
Step-IsSound sha256 s t (completed now stamp observation h) i =
    complete_step-IsSound now stamp s t observation i h
Step-IsSound sha256 s t (failed now code detail h) i = fail_step-IsSound now s t code detail i h
Step-IsSound sha256 s t (asked now request h) i = interrupt-IsSound now s t request i h
Step-IsSound sha256 s t (answered now stamp interrupt_id answer h) i =
    resume-IsSound sha256 now stamp s t interrupt_id answer i h
Step-IsSound sha256 s t (replanned now steps reason h) i = replan-IsSound now s t steps reason i h
Step-IsSound sha256 s t (cancelled detail h) i = cancel-IsSound s t detail i h
Step-IsSound sha256 s t (expired h) i = subst IsSound h (expire-IsSound s i)

created-IsSound :
    (run_id trace_id : String) (steps : List PlanStep) (deadline : ℕ) (s : WorkflowState)
    → create_state run_id trace_id steps deadline ≡ ok s
    → all (λ x. is_open x.status) steps ≡ true
    → IsSound s
unfolding create_state
created-IsSound run_id trace_id steps deadline s h o =
    let plan : validate_plan_dag steps ≡ ok tt = ground arith in
    let same : s.steps ≡ steps = ground arith in
    let single =
      all_mono (λ x. is_open x.status) (active_only s.current_step_id) steps (λ x k. ground arith)
        o in
    let turn =
      all_mono (λ x. is_open x.status) (in_turn (succeeded_ids steps)) steps (λ x k. ground arith)
        o in
    record {
      plan = rw same plan;
      single = rw same single;
      in_order = rw same turn;
      asks = ground arith;
    }

Reach-IsSound :
    (sha256 : String → String) (s t : WorkflowState) (n : ℕ)
    → IsSound s
    → Reach sha256 s n t
    → IsSound t
Reach-IsSound sha256 s t n i (here e) = subst IsSound e i
Reach-IsSound sha256 s t n i (next {n = m} {t = u} r st) =
    Step-IsSound sha256 u t st (Reach-IsSound sha256 s u m i r)

-- Whatever calls succeed on a workflow that was created with open steps, its plan stays a valid
-- one, at most one step is active, and it is the current one, every step that was started had all
-- its dependencies succeeded, and the current step waits while the user is asked.
pub workflow-IsSound :
    (sha256 : String → String) (run_id trace_id : String) (steps : List PlanStep) (deadline : ℕ)
    (s t : WorkflowState) (n : ℕ)
    → create_state run_id trace_id steps deadline ≡ ok s
    → all (λ x. is_open x.status) steps ≡ true
    → Reach sha256 s n t
    → IsSound t
workflow-IsSound sha256 run_id trace_id steps deadline s t n h o r =
    Reach-IsSound sha256 s t n (created-IsSound run_id trace_id steps deadline s h o) r
