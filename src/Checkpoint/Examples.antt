-- ===== src/Checkpoint/Examples.antt =====
-- A concrete store: a workflow that is created under a lease, saved, and leased again.
use synora_agentic_erp.Prelude.{
  ℕ, ◌<◌, ◌≡◌, ◌≢◌, refl, String, ◌==◌, Bool, true, false, ◌&&◌, if◌then◌else◌, nat_eq, Option,
  none, some, List, all, [], ◌∷◌, ap, false≢true,
}
use synora_agentic_erp.Prelude.Result.{ok, err}
use synora_agentic_erp.Workflow.Contracts.{
  WorkflowStatus, WorkflowState, validate_answer_shape, validate_tool_shape, validate_state_shape,
}
use synora_agentic_erp.Checkpoint.{
  incompatible, Json, Fields, text, object, field, no_fields, Codec, Row, Store, select, create,
  save, load, acquire_lease, release_lease, encode, safe_payload, lease_matches, lease_active,
  lease_expiry, expiry_after, logged, update,
}
use synora_agentic_erp.Checkpoint.Creates.{load-create}
use synora_agentic_erp.Checkpoint.Saves.{ReadsBack, load-save, second_save_fails}
use synora_agentic_erp.Checkpoint.Leases.{load-save_other, acquire_lease-release_lease}
use synora_agentic_erp.Checkpoint.Exclusion.{
  Call, saves, acquires, releases, is_foreign, perform_all, lease_is_exclusive,
}
use synora_agentic_erp.Runtime.{requests_step}
use synora_agentic_erp.Workflow.Validation.{
  accepted, validate_state, validate_each_step, validate_request,
}
use synora_agentic_erp.Workflow.Dag.{validate_plan_dag, search_all, visit, deps_of}

abbrev at_revision : ℕ → WorkflowState
at_revision n = record {
  run_id = "run-1";
  revision = n;
  plan_version = 1;
  graph_version = "workflow-v1";
  status = WorkflowStatus.running;
  current_step_id = none;
  steps = requests_step 1 [] ∷ [];
  clarification = none;
  replan_reason = none;
  budget = record { max_steps = 64; max_elapsed_ms = 300000; max_observation_bytes = 4000 };
  deadline = 99000;
  trace_id = "trace-1";
  stop_reason = none;
  crash_recovered = false;
}

abbrev revision_text : ℕ → String
revision_text n = if nat_eq n 0 then "0" else if nat_eq n 1 then "1" else "later"

-- The fields that the states of this file differ in.
abbrev written : WorkflowState → Json
written state = object (
    field "schema_version" (text "1") (
      field "run_id" (text state.run_id)
        (field "revision" (text (revision_text state.revision)) no_fields)))

abbrev revision_of : String → Option WorkflowState
revision_of revision =
    if revision == "0"
    then some (at_revision 0)
    else if revision == "1"
    then some (at_revision 1)
    else none

abbrev revision_field : Fields → Option WorkflowState
revision_field (field version v (field run_id id (field revision (text r) no_fields))) =
    if run_id == "run_id" && revision == "revision" then revision_of r else none
revision_field _ = none

abbrev read_written : Json → Option WorkflowState
read_written (object fields) = revision_field fields
read_written _ = none

-- A codec of the states at the revisions 0 and 1, which finds secrets by the whole text.
abbrev codec : Codec
codec = record {
  dump = written;
  parse = read_written;
  sensitive_key = λ key. key == "token";
  sensitive_text = λ t. t == "api_key=1";
}

abbrev row_at : ℕ → Option String → Option ℕ → ℕ → Row
row_at n lease expiry now = record {
  run_id = "run-1";
  revision = n;
  schema_version = "1";
  payload = codec.dump (at_revision n);
  status = WorkflowStatus.running;
  lease_id = lease;
  lease_expires_at = expiry;
  updated_at = now;
}

abbrev created : Store
created = record {
  checkpoints = row_at 0 (some "a") (some 30000000) 5 ∷ [];
  history =
      record { run_id = "run-1"; revision = 0; status = WorkflowStatus.running; saved_at = 5 } ∷ [];
}

abbrev stored : Store
stored = record {
  checkpoints = row_at 1 none none 9 ∷ [];
  history =
      record { run_id = "run-1"; revision = 0; status = WorkflowStatus.running; saved_at = 5 }
      ∷ record { run_id = "run-1"; revision = 1; status = WorkflowStatus.running; saved_at = 9 }
      ∷ [];
}

abbrev leased : Store
leased = record stored { checkpoints = row_at 1 (some "b") (some 30002000) 9 ∷ [] }

abbrev empty : Store
empty = record { checkpoints = []; history = [] }

created_first : create codec 30 (at_revision 0) (some "a") 5 7 empty ≡ ok created
unfolding create encode safe_payload select logged lease_expiry expiry_after
created_first = refl

saved_once : save codec 30 (at_revision 1) 0 (some "a") false 9 10 11 created ≡ ok stored
unfolding save encode safe_payload select logged lease_expiry expiry_after lease_matches update
saved_once = refl

acquired : acquire_lease 30 "b" "run-1" 1 2500 stored ≡ ok ("b", leased)
unfolding acquire_lease select lease_active expiry_after update
acquired = refl

load-save_example : ReadsBack (at_revision 1) (load codec "run-1" stored)
load-save_example =
    load-save codec 30 (at_revision 1) 0 (some "a") false 9 10 11 created stored refl refl
      saved_once

loads : load codec "run-1" stored ≡ ok (at_revision 1)
unfolding load select safe_payload accepted validate_state validate_each_step validate_request
    validate_tool_shape validate_answer_shape validate_state_shape validate_plan_dag search_all
    visit deps_of
loads = refl

-- A workflow that is cancelled with an empty text has a checkpoint that cannot be loaded.
abbrev unreasoned : WorkflowState
unreasoned = record (at_revision 1) { status = WorkflowStatus.cancelled; stop_reason = some "" }

abbrev unreasoned_codec : Codec
unreasoned_codec = record codec { parse = λ json. some unreasoned }

abbrev unreasoned_row : Row
unreasoned_row = record (row_at 1 none none 9) { status = WorkflowStatus.cancelled }

abbrev unreasoned_store : Store
unreasoned_store = record {
  checkpoints = unreasoned_row ∷ [];
  history =
      record { run_id = "run-1"; revision = 0; status = WorkflowStatus.running; saved_at = 5 }
      ∷ record { run_id = "run-1"; revision = 1; status = WorkflowStatus.cancelled; saved_at = 9 }
      ∷ [];
}

cancelled_saved :
    save unreasoned_codec 30 unreasoned 0 (some "a") false 9 10 11 created ≡ ok unreasoned_store
unfolding save encode safe_payload select logged lease_expiry expiry_after lease_matches update
cancelled_saved = refl

cancelled_lost : load unreasoned_codec "run-1" unreasoned_store ≡ err incompatible
unfolding load select safe_payload accepted validate_state validate_each_step validate_request
    validate_tool_shape validate_answer_shape validate_state_shape validate_plan_dag search_all
    visit deps_of
cancelled_lost = refl

second_save_fails_example :
    save codec 30 (at_revision 1) 0 (some "a") true 20 21 22 stored ≢ ok leased
second_save_fails_example =
    second_save_fails codec 30 (at_revision 1) 0 (some "a") false 9 10 11 created stored saved_once
      (at_revision 1) (some "a") true 20 21 22 leased refl

token_given : ◌≢◌ {A = String} "b" ""
token_given e = false≢true (ap (λ t. t == "") e)

-- Others try to lease, save and release the run while it is leased.
abbrev meanwhile : List Call
meanwhile =
    acquires "c" "run-1" 1 2600
    ∷ saves (at_revision 2) 1 (some "a") false 20 21 22
    ∷ releases "run-1" "a"
    ∷ []

all_foreign : all (is_foreign "b" (expiry_after 30 2500)) meanwhile ≡ true
unfolding is_foreign expiry_after
all_foreign = refl

lease_is_exclusive_example :
    ((state : WorkflowState) (revision : ℕ) (lease : Option String) (keep : Bool)
        (now checked instant : ℕ) (after : Store)
      → state.run_id ≡ "run-1"
      → save codec 30 state revision lease keep now checked instant
          (perform_all codec 30 meanwhile leased)
        ≡ ok after
      → (lease ≡ some "b") × (checked < expiry_after 30 2500))
    × ((token : String) (revision later : ℕ) (outcome : String × Store)
        → later < expiry_after 30 2500
        → acquire_lease 30 token "run-1" revision later (perform_all codec 30 meanwhile leased)
          ≢ ok outcome)
lease_is_exclusive_example =
    lease_is_exclusive codec 30 "b" "run-1" 1 2500 stored leased "b" meanwhile token_given acquired
      all_foreign

other_run : ◌≢◌ {A = String} "run-1" "run-2"
other_run e = false≢true (ap (λ t. t == "run-2") e)

load-save_other_example : load codec "run-2" stored ≡ load codec "run-2" created
load-save_other_example =
    load-save_other codec 30 (at_revision 1) 0 (some "a") false 9 10 11 created stored "run-2"
      other_run saved_once

leased_row_found : select "run-1" leased.checkpoints ≡ some (row_at 1 (some "b") (some 30002000) 9)
unfolding select
leased_row_found = refl

acquire_lease-release_lease_example :
    (after : Store) × (acquire_lease 30 "c" "run-1" 1 2600 (release_lease "run-1" "b" leased)
      ≡ ok ("c", after))
acquire_lease-release_lease_example =
    acquire_lease-release_lease 30 "b" "c" "run-1" 2600 leased
      (row_at 1 (some "b") (some 30002000) 9) leased_row_found refl

load-create_example :
    (select "run-1" [] ≡ none) × ReadsBack (at_revision 0) (load codec "run-1" created)
load-create_example =
    load-create codec 30 (at_revision 0) (some "a") 5 7 empty created refl refl created_first
