-- ===== src/Workflow/Examples.antt =====
-- A plan of two steps and some calls of the engine on it, to which the theorems are applied.
use synora_agentic_erp.Prelude.{
  ℕ, ◌+◌, ◌≡◌, refl, String, true, false, none, some, List, [], ◌∷◌, ◌↔◌, ◌⊎◌, all,
}
use synora_agentic_erp.Prelude.Result.{Result, ok, err}
use synora_agentic_erp.Workflow.Contracts.{
  PlanStep, WorkflowState, WorkflowStatus, StepStatus, StepType, Fault, ReplanReason, value_error,
  unknown_current, is_terminal,
}
use synora_agentic_erp.Workflow.Dag.{validate_plan_dag, search_all, visit, deps_of}
use synora_agentic_erp.Workflow.Dag.Complete.{IsPlan, validate_plan_dag-eq-ok_iff}
use synora_agentic_erp.Workflow.Steps.{next_ready, find_step, update_step, is_succeeded}
use synora_agentic_erp.Workflow.Invariant.{IsSound}
use synora_agentic_erp.Workflow.Engine.{
  create_state, start, begin_step, complete_step, advance, ready_step,
}
use synora_agentic_erp.Workflow.Control.{replan, cancel, expire, keeps_completed, check_new_steps}
use synora_agentic_erp.Workflow.Histories.{
  Step, Reach, workflow-IsSound, started, began, completed, replanned, cancelled, expired, here,
  next,
}
use synora_agentic_erp.Workflow.Revisions.{
  is_idle, idle_calls, revision_counts, over_until_replanned,
}
use synora_agentic_erp.Workflow.Deadlock.{open_or_done, ready_step_exists}
use synora_agentic_erp.Workflow.StepEq.{step_eq}

abbrev tool_step : String → ℕ → List String → PlanStep
tool_step id order deps = record {
  step_id = id;
  order = order;
  type = StepType.tool;
  depends_on = deps;
  allowed_tools = "stock.projected" ∷ [];
  tool_name = some "stock.projected";
  clarification = none;
  governed_action = none;
  parameters = "{}";
  status = StepStatus.pending;
  observation_digest = none;
  error = none;
  completed_at = none;
}

abbrev two_steps : List PlanStep
two_steps = tool_step "read" 1 [] ∷ tool_step "report" 2 ("read" ∷ []) ∷ []

abbrev cyclic_steps : List PlanStep
cyclic_steps = tool_step "read" 1 ("report" ∷ []) ∷ tool_step "report" 2 ("read" ∷ []) ∷ []

-- The state of a call that succeeds.
abbrev state_of : Result Fault WorkflowState → WorkflowState → WorkflowState
state_of (ok s) d = s
state_of (err e) d = d

abbrev pub blank : WorkflowState
blank = record {
  run_id = "run-1";
  revision = 0;
  plan_version = 1;
  graph_version = "workflow-v1";
  status = WorkflowStatus.ready;
  current_step_id = none;
  steps = two_steps;
  clarification = none;
  replan_reason = none;
  budget = record { max_steps = 64; max_elapsed_ms = 300000; max_observation_bytes = 4000 };
  deadline = 1000;
  trace_id = "trace-1";
  stop_reason = none;
  crash_recovered = false;
}

created_is_blank : create_state "run-1" "trace-1" two_steps 1000 ≡ ok blank
unfolding create_state validate_plan_dag search_all visit deps_of
created_is_blank = refl

abbrev begun_state : WorkflowState
begun_state = state_of (begin_step 20 (state_of (start 10 blank) blank) "read") blank

begun_by_two : (sha256 : String → String) → Reach sha256 blank 2 begun_state
unfolding start begin_step ready_step next_ready find_step update_step
begun_by_two sha256 = next (next (here refl) (started 10 refl)) (began 20 "read" refl)

abbrev done_state : WorkflowState
done_state =
    state_of
      (complete_step 30 "t30" begun_state (record { tool_name = "stock.projected"; digest = "d" }))
      blank

completed_by_three : (sha256 : String → String) → Reach sha256 blank 3 done_state
unfolding start begin_step complete_step advance ready_step next_ready find_step update_step
completed_by_three sha256 =
    next (begun_by_two sha256)
      (completed 30 "t30" (record { tool_name = "stock.projected"; digest = "d" }) refl)

validate_plan_dag-eq-ok_iff_example : (validate_plan_dag cyclic_steps ≡ ok tt) ↔ IsPlan cyclic_steps
validate_plan_dag-eq-ok_iff_example = validate_plan_dag-eq-ok_iff cyclic_steps

cyclic_rejected :
    validate_plan_dag cyclic_steps ≡ err (value_error "plan dependency graph contains a cycle")
unfolding validate_plan_dag search_all visit deps_of
cyclic_rejected = refl

workflow-IsSound_example : IsSound done_state
workflow-IsSound_example =
    workflow-IsSound (λ s. s) "run-1" "trace-1" two_steps 1000 blank done_state 3 created_is_blank
      refl (completed_by_three (λ s. s))

-- `report` is next, once `read` has succeeded.
done_is_running :
    (done_state.status ≡ WorkflowStatus.running)
    × (unknown_current done_state.current_step_id done_state.steps ≡ false)
    × (all open_or_done done_state.steps ≡ true)
    × (all (λ s. is_succeeded s.status) done_state.steps ≡ false)
unfolding start begin_step complete_step advance ready_step next_ready find_step update_step
done_is_running = (refl, refl, refl, refl)

ready_step_exists_example : (step : PlanStep) × (ready_step done_state ≡ ok (some step))
ready_step_exists_example =
    ready_step_exists done_state workflow-IsSound_example done_is_running.0 done_is_running.1
      done_is_running.2 done_is_running.3

abbrev cancelled_state : WorkflowState
cancelled_state = state_of (cancel done_state "cancelled") blank

abbrev revived_state : WorkflowState
revived_state = state_of (replan 40 cancelled_state done_state.steps ReplanReason.no_progress) blank

cancelled_is_over : is_terminal cancelled_state.status ≡ true
unfolding cancel start begin_step complete_step advance ready_step next_ready find_step update_step
cancelled_is_over = refl

revived : Step (λ s. s) cancelled_state revived_state
unfolding replan validate_plan_dag search_all visit deps_of keeps_completed check_new_steps cancel
    start begin_step complete_step advance ready_step next_ready find_step update_step step_eq
revived = replanned 40 done_state.steps ReplanReason.no_progress refl

over_until_replanned_example :
    ((is_idle revived ≡ true) × (revived_state ≡ cancelled_state))
    ⊎ ((revived_state.status ≡ WorkflowStatus.running)
        × (revived_state.plan_version ≡ cancelled_state.plan_version + 1))
over_until_replanned_example =
    over_until_replanned (λ s. s) cancelled_state revived_state revived cancelled_is_over

-- The workflow is cancelled after three calls, and then there is nothing to expire.
expired_in_vain : Reach (λ s. s) blank 5 cancelled_state
unfolding cancel expire start begin_step complete_step advance ready_step next_ready find_step
    update_step
expired_in_vain =
    next (next (completed_by_three (λ s. s)) (cancelled "cancelled" refl)) (expired refl)

counts_one : idle_calls expired_in_vain ≡ 1
unfolding idle_calls is_idle expired_in_vain completed_by_three begun_by_two cancel start begin_step
    complete_step advance ready_step next_ready find_step update_step
counts_one = refl

revision_counts_example :
    (cancelled_state.revision + idle_calls expired_in_vain ≡ blank.revision + 5)
    × (cancelled_state.run_id ≡ blank.run_id)
    × (cancelled_state.trace_id ≡ blank.trace_id)
    × (cancelled_state.deadline ≡ blank.deadline)
revision_counts_example = revision_counts (λ s. s) blank cancelled_state 5 expired_in_vain
