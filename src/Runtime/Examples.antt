-- ===== src/Runtime/Examples.antt =====
-- A concrete run of the requests: a workflow with a question and a tool, kept in a store of one row.
use synora_agentic_erp.Prelude.{◌≡◌, refl, ◌==◌, true, false, Option, none, some, [], ◌∷◌}
use synora_agentic_erp.Prelude.Text.{contains, starts_with}
use synora_agentic_erp.Prelude.Result.{Result, ok, err}
use synora_agentic_erp.Workflow.Contracts.{
  WorkflowStatus, WorkflowState, PlanStep, validate_answer_shape, validate_tool_shape,
  validate_state_shape,
}
use synora_agentic_erp.Workflow.Dag.{validate_plan_dag, search_all, visit, deps_of}
use synora_agentic_erp.Workflow.Validation.{
  accepted, validate_state, validate_each_step, validate_request,
}
use synora_agentic_erp.Workflow.Invariant.{IsSound}
use synora_agentic_erp.Workflow.Engine.{
  create_state, start, ensure_not_expired, ensure_running, ready_step, begin_step,
}
use synora_agentic_erp.Workflow.Steps.{next_ready, find_step, get_step, replace_step, update_step}
use synora_agentic_erp.Workflow.Control.{cancel, interrupt}
use synora_agentic_erp.Workflow.Histories.{workflow-IsSound, here}
use synora_agentic_erp.Checkpoint.{
  text, object, field, no_fields, Codec, Row, Store, select, create, load, encode, safe_payload,
  acquire_lease, lease_active, save, update, lease_matches, expiry_after, logged, lease_expiry,
}
use synora_agentic_erp.Runtime.{
  read_only_plan, Request, default_plan, start_with, serve, commit, start_run, create_or_load,
}
use synora_agentic_erp.Runtime.Effects.{RuntimeError, Times, fetch, acquire, persist}
use synora_agentic_erp.Runtime.Advance.{
  StepReply, observed, advance, start_ready, hold, guarded, check_in_flight, loop, turn, ask_user,
  dispatch,
}
use synora_agentic_erp.Runtime.Follows.{Stores}
use synora_agentic_erp.Runtime.Posts.{Post}
use synora_agentic_erp.Runtime.Requests.{Refined, serve-Refined}
use synora_agentic_erp.Runtime.Failures.{Unchanged, Saved, commit_whole}
use synora_agentic_erp.Runtime.Ending.{advance_settles}
use synora_agentic_erp.Workflow.Settled.{is_settled}
use synora_agentic_erp.Runtime.Ends.{Ends}

abbrev pub fresh : WorkflowState
fresh = record {
  run_id = "run-1";
  revision = 0;
  plan_version = 1;
  graph_version = "workflow-v1";
  status = WorkflowStatus.ready;
  current_step_id = none;
  steps = read_only_plan true "interrupt-1";
  clarification = none;
  replan_reason = none;
  budget = record { max_steps = 64; max_elapsed_ms = 300000; max_observation_bytes = 4000 };
  deadline = 99000000;
  trace_id = "trace-1";
  stop_reason = none;
  crash_recovered = false;
}

-- A codec that knows one state.
abbrev pub codec : Codec
codec = record {
  dump = λ state.
      object (field "schema_version" (text "1") (field "run_id" (text state.run_id) no_fields));
  parse = λ json. some fresh;
  sensitive_key = λ key. key == "token";
  sensitive_text = λ t. t == "api_key=1";
}

abbrev pub row : Row
row = record {
  run_id = "run-1";
  revision = 0;
  schema_version = "1";
  payload = codec.dump fresh;
  status = WorkflowStatus.ready;
  lease_id = none;
  lease_expires_at = none;
  updated_at = 5;
}

abbrev stored : Store
stored = record {
  checkpoints = row ∷ [];
  history =
      record { run_id = "run-1"; revision = 0; status = WorkflowStatus.ready; saved_at = 5 } ∷ [];
}

abbrev pub clock : Times
clock = record {
  engine = 10;
  stamp = "t-10";
  acquired = 10;
  token = "lease-1";
  saved = 11;
  checked = 11;
  renewed = 12;
}

abbrev tools : PlanStep → StepReply
tools step = observed (record { tool_name = "material_request.open"; digest = "d" })

pub created_fresh :
    create_state "run-1" "trace-1" (read_only_plan true "interrupt-1") 99000000 ≡ ok fresh
unfolding create_state validate_plan_dag search_all visit deps_of
created_fresh = refl

fresh-IsSound : IsSound fresh
fresh-IsSound =
    workflow-IsSound (λ t. t) "run-1" "trace-1" (read_only_plan true "interrupt-1") 99000000 fresh
      fresh 0 created_fresh refl (here refl)

stored-Stores : Stores codec "run-1" fresh stored
unfolding select
stored-Stores = record { row = row; found = refl; payload = refl; revision = refl }

abbrev clarify : Request
clarify = start_with "trace-1" [] "Please clarify the stock." "interrupt-1" 99000000

serve-Refined_example :
    Refined codec
      (λ t. t)
      fresh
      (λ a t. a ≡ t)
      (serve codec 30 tools (λ t. t) (λ t. t) (λ k. clock) clock "run-1" clarify stored)
serve-Refined_example =
    serve-Refined codec 30 (λ t. t) fresh tools (λ t. t) (λ k. clock) clock clarify stored refl
      fresh-IsSound stored-Stores

found_row : select "run-1" stored.checkpoints ≡ some row
unfolding select
found_row = refl

commit_whole_example :
    Post
      (Unchanged codec 30 clock fresh row)
      (Saved codec 30 clock fresh row (cancel fresh "cancelled"))
      (commit codec 30 clock fresh (λ _. false) (cancel fresh "cancelled") stored)
commit_whole_example =
    commit_whole codec 30 clock fresh row (λ _. false) (cancel fresh "cancelled") stored found_row

advance_settles_example :
    Ends (λ u. is_settled u ≡ true) (advance codec 30 (some tools) (λ k. clock) fresh none stored)
advance_settles_example = advance_settles codec 30 (some tools) (λ k. clock) fresh none stored

abbrev status_of : Result RuntimeError WorkflowState → Option WorkflowStatus
status_of (ok t) = some t.status
status_of (err e) = none

-- The run starts, its first step is begun, and the user is asked.
starts_and_asks :
    status_of (serve codec 30 tools (λ t. t) (λ t. t) (λ k. clock) clock "run-1" clarify stored).0
    ≡ some WorkflowStatus.interrupted
unfolding serve start_run default_plan contains starts_with create_state validate_plan_dag
    search_all visit deps_of create_or_load create load fetch advance start_ready select encode
    safe_payload start ensure_not_expired hold acquire acquire_lease lease_active guarded ready_step
    next_ready persist save update lease_matches expiry_after logged check_in_flight loop
    update_step turn lease_expiry ask_user dispatch begin_step interrupt find_step get_step
    replace_step ensure_running accepted validate_state validate_each_step validate_request
    validate_tool_shape validate_answer_shape validate_state_shape
starts_and_asks = refl
