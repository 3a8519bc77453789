-- ===== src/Runtime/Restart.antt =====
-- A concrete restart: of two stored runs one was in flight, and the other cannot be read.
use synora_agentic_erp.Prelude.{ℕ, String, ◌≡◌, refl, true, Option, none, some, [], ◌∷◌}
use synora_agentic_erp.Prelude.Result.{ok, err}
use synora_agentic_erp.Workflow.Contracts.{
  StepStatus, StepType, WorkflowStatus, WorkflowState, PlanStep, validate_answer_shape,
  validate_tool_shape, validate_state_shape,
}
use synora_agentic_erp.Workflow.Validation.{
  accepted, validate_state, validate_each_step, validate_request,
}
use synora_agentic_erp.Workflow.Dag.{validate_plan_dag, search_all, visit, deps_of}
use synora_agentic_erp.Workflow.Invariant.{IsSound}
use synora_agentic_erp.Workflow.Engine.{
  deadline_expired, start, ensure_not_expired, ensure_running, ready_step, begin_step,
}
use synora_agentic_erp.Workflow.Steps.{next_ready, find_step, get_step, replace_step, update_step}
use synora_agentic_erp.Workflow.Control.{interrupt}
use synora_agentic_erp.Workflow.Histories.{workflow-IsSound, here, next, started, began}
use synora_agentic_erp.Checkpoint.{
  scalar, array, recoverable_row, text, object, Codec, Row, Store, select, encode, safe_payload,
  acquire_lease, lease_active, save, update, lease_matches, expiry_after, logged, lease_expiry,
}
use synora_agentic_erp.Runtime.{
  blank_step, requests_step, warehouse_request, recover, recover_rows, recover_row, recover_current,
  recover_step, read_only_plan, recover_one, commit,
}
use synora_agentic_erp.Runtime.Effects.{Times, engine_error, acquire, persist}
use synora_agentic_erp.Runtime.Follows.{Stores}
use synora_agentic_erp.Runtime.Recovery.{Rows, Owned, recover-Refined}
use synora_agentic_erp.Runtime.Requests.{Refined}
use synora_agentic_erp.Runtime.Examples.{fresh, codec, row, clock, created_fresh}

abbrev question_at : StepStatus → PlanStep
question_at step_status =
    record (blank_step "warehouse-clarification" 1 StepType.clarification []) {
      clarification = some (warehouse_request "interrupt-1");
      status = step_status;
    }

abbrev in_state : StepStatus → Option String → ℕ → WorkflowState
in_state step_status current revision = record fresh {
  revision = revision;
  status = WorkflowStatus.running;
  current_step_id = current;
  steps = question_at step_status ∷ requests_step 2 ("warehouse-clarification" ∷ []) ∷ [];
}

abbrev launched : WorkflowState
launched = in_state StepStatus.ready none 1

abbrev begun : WorkflowState
begun = in_state StepStatus.running (some "warehouse-clarification") 2

fresh_starts : start 10 fresh ≡ ok launched
unfolding start ensure_not_expired ready_step next_ready replace_step update_step
fresh_starts = refl

launched_begins : begin_step 10 launched "warehouse-clarification" ≡ ok begun
unfolding begin_step ensure_running ensure_not_expired ready_step next_ready replace_step
    update_step get_step find_step
launched_begins = refl

begun-IsSound : IsSound begun
begun-IsSound =
    workflow-IsSound (λ t. t) "run-1" "trace-1" (read_only_plan true "interrupt-1") 99000000 fresh
      begun 2 created_fresh refl
      (next (next (here refl) (started 10 fresh_starts))
        (began 10 "warehouse-clarification" launched_begins))

abbrev begun_codec : Codec
begun_codec = record codec {
  parse = λ json. elim json [
    | text t ↦ none
    | object fs ↦ some begun
    | scalar n ↦ none
    | array xs ↦ none
  ];
}

abbrev begun_row : Row
begun_row = record row { revision = 2; status = WorkflowStatus.running; payload = codec.dump begun }

abbrev broken_row : Row
broken_row = record row { run_id = "run-2"; payload = text "broken" }

abbrev begun_store : Store
begun_store = record { checkpoints = broken_row ∷ begun_row ∷ []; history = [] }

begun-Stores : Stores begun_codec "run-1" begun begun_store
unfolding select
begun-Stores = record { row = begun_row; found = refl; payload = refl; revision = refl }

begun-Owned : Rows (λ r. Owned (begun_codec.parse r.payload) r.run_id) (broken_row ∷ begun_row ∷ [])
unfolding Rows Owned
begun-Owned = (tt, (refl, tt))

begun_found :
    Rows (λ r. select r.run_id begun_store.checkpoints ≡ some r) (broken_row ∷ begun_row ∷ [])
unfolding Rows select
begun_found = (refl, (refl, tt))

recover-Refined_example :
    Refined begun_codec
      (λ t. t)
      begun
      (λ n t. Unit {0})
      (recover begun_codec 30
        (λ k. clock)
        (λ t. "interrupt-2")
        20
        (broken_row ∷ begun_row ∷ [])
        begun_store)
recover-Refined_example =
    recover-Refined begun_codec 30 (λ t. t) begun (λ k. clock) (λ t. "interrupt-2") 20
      (broken_row ∷ begun_row ∷ []) begun_store refl begun-IsSound begun-Stores refl begun-Owned
      begun_found

-- One run is recovered.
recovers_one :
    (recover begun_codec 30
      (λ k. clock)
      (λ t. "interrupt-2")
      20
      (broken_row ∷ begun_row ∷ [])
      begun_store).0
    ≡ ok 1
unfolding recover recover_rows recover_row recover_one recover_current recover_step recoverable_row
    lease_active safe_payload commit acquire acquire_lease select update persist save encode
    lease_matches lease_expiry expiry_after logged find_step interrupt get_step replace_step
    update_step ensure_running ensure_not_expired accepted validate_state validate_each_step
    validate_request validate_tool_shape validate_answer_shape validate_state_shape
    validate_plan_dag search_all visit deps_of
recovers_one = refl

abbrev late : Times
late = record clock { engine = 99000000 }

-- When a run in flight has passed its deadline, the recovery ends with an error, and what comes after
-- it in the scan is not recovered.
expired_ends_recovery :
    (recover begun_codec 30
      (λ k. late)
      (λ t. "interrupt-2")
      20
      (begun_row ∷ broken_row ∷ [])
      begun_store).0
    ≡ err (engine_error deadline_expired)
unfolding recover recover_rows recover_row recover_one recover_current recover_step recoverable_row
    lease_active safe_payload commit acquire acquire_lease select update persist save encode
    lease_matches lease_expiry expiry_after logged find_step interrupt get_step replace_step
    update_step ensure_running ensure_not_expired accepted validate_state validate_each_step
    validate_request validate_tool_shape validate_answer_shape validate_state_shape
    validate_plan_dag search_all visit deps_of
expired_ends_recovery = refl
