-- ===== src/Checkpoint.antt =====
-- workflow/checkpoint.py: SQLiteCheckpointStore, compare-and-set storage under a short exclusive lease.
-- A method is a transaction on the two tables. What it reads of the clock is an argument, in
-- microseconds, and `seconds` is the store's _lease_seconds. A payload is the JSON value that its text
-- denotes, and an expiry the instant that its text denotes; failures of the database are left out.
pub mod Saves
pub mod Creates
pub mod Leases
pub mod Exclusion
pub mod Examples
use synora_agentic_erp.Prelude.{
  ℕ, ◌+◌, ◌*◌, ◌/◌, String, ◌==◌, Bool, true, false, not, ◌&&◌, ◌||◌, Option, none, some, List, [],
  ◌∷◌, ◌++◌, leb, nat_eq, is_none, text?_eq, if◌then◌else◌, any,
}
use synora_agentic_erp.Prelude.Result.{Result, ok, err, guard, reject, ◌>>=◌, ◌>>◌}
use synora_agentic_erp.Workflow.Contracts.{WorkflowStatus, WorkflowState}
use synora_agentic_erp.Workflow.Validation.{accepted}

-- CheckpointError and its subclasses, without their details
pub data CheckpointError : Type 0 where
  not_found conflict incompatible unavailable : CheckpointError

-- JSON values; `scalar` is the text of a number, a truth value or null.
mutual
  pub data Json : Type 0 where
    scalar : String → Json
    text : String → Json
    array : Items → Json
    object : Fields → Json

  pub data Items : Type 0 where
    no_items : Items
    item : Json → Items → Items

  pub data Fields : Type 0 where
    no_fields : Fields
    field : String → Json → Fields → Fields

-- What the store uses of pydantic and re: the JSON value of a state, the state whose fields a JSON value
-- denotes, before its validators run, and the two searches for secrets.
pub record Codec : Type 0 where
  pub dump : WorkflowState → Json
  pub parse : Json → Option WorkflowState
  pub sensitive_key : String → Bool
  pub sensitive_text : String → Bool

-- _safe_payload(value) returns
unfoldable mutual
  pub safe_payload : Codec → Json → Bool
  safe_payload codec (scalar t) = true
  safe_payload codec (text t) = not (codec.sensitive_text t)
  safe_payload codec (array items) = safe_items codec items
  safe_payload codec (object fields) = safe_fields codec fields

  pub safe_items : Codec → Items → Bool
  safe_items codec no_items = true
  safe_items codec (item value items) = safe_payload codec value && safe_items codec items

  pub safe_fields : Codec → Fields → Bool
  safe_fields codec no_fields = true
  safe_fields codec (field key value fields) =
      not (codec.sensitive_key key) && safe_payload codec value && safe_fields codec fields

-- decoded.get("schema_version") == "1"
abbrev pub is_version : String → Json → Bool
is_version key (text t) = key == "schema_version" && t == "1"
is_version key _ = false

abbrev pub names_version : Fields → Bool
names_version no_fields = false
names_version (field key value fields) = is_version key value || names_version fields

abbrev pub has_version : Json → Bool
has_version (object fields) = names_version fields
has_version _ = false

-- A row of workflow_checkpoints.
pub record Row : Type 0 where
  pub run_id : String
  pub revision : ℕ
  pub schema_version : String
  pub payload : Json
  pub status : WorkflowStatus
  pub lease_id : Option String
  pub lease_expires_at : Option ℕ
  pub updated_at : ℕ

-- A row of workflow_checkpoint_history, whose primary key is (run_id, revision).
pub record HistoryRow : Type 0 where
  pub run_id : String
  pub revision : ℕ
  pub status : WorkflowStatus
  pub saved_at : ℕ

pub record Store : Type 0 where
  pub checkpoints : List Row
  pub history : List HistoryRow

-- SELECT ... FROM workflow_checkpoints WHERE run_id = ?
unfoldable pub select : String → List Row → Option Row
select id [] = none
select id (row ∷ rows) = if row.run_id == id then some row else select id rows

-- UPDATE workflow_checkpoints SET ... WHERE run_id = ? AND ...
unfoldable pub update : String → (Row → Bool) → (Row → Row) → List Row → List Row
update id test change [] = []
update id test change (row ∷ rows) =
    (if row.run_id == id && test row then change row else row) ∷ update id test change rows

-- whether the history has a row with this key
unfoldable pub logged : String → ℕ → List HistoryRow → Bool
logged id revision rows = any (λ row. row.run_id == id && nat_eq row.revision revision) rows

abbrev pub log_entry : WorkflowState → ℕ → HistoryRow
log_entry state now = record {
  run_id = state.run_id;
  revision = state.revision;
  status = state.status;
  saved_at = now;
}

-- the row, or CHECKPOINT_NOT_FOUND
abbrev pub require_row : Option Row → Result CheckpointError Row
require_row none = err not_found
require_row (some row) = ok row

-- _encode(state)
unfoldable pub encode : Codec → WorkflowState → Result CheckpointError Json
encode codec state = do
  guard (safe_payload codec (codec.dump state)) incompatible
  ok (codec.dump state)

-- _iso(instant + timedelta(seconds=seconds)), which drops the part of a millisecond
unfoldable pub expiry_after : ℕ → ℕ → ℕ
expiry_after seconds instant = 1000 * ((instant + 1000000 * seconds) / 1000)

-- _lease_expiry(lease_id)
unfoldable pub lease_expiry : ℕ → ℕ → Option String → Option ℕ
lease_expiry seconds instant none = none
lease_expiry seconds instant (some id) = some (expiry_after seconds instant)

-- expiry and parse_deadline(expiry) > now
abbrev pub expires_after : Option ℕ → ℕ → Bool
expires_after none now = false
expires_after (some e) now = not (leb e now)

abbrev pub stored_matches : Option String → Option ℕ → Option String → ℕ → Bool
stored_matches none expiry lease now = is_none lease
stored_matches (some stored) expiry lease now =
    text?_eq lease (some stored) && expires_after expiry now

-- _lease_matches(row, lease_id)
unfoldable pub lease_matches : Row → Option String → ℕ → Bool
lease_matches row lease now = stored_matches row.lease_id row.lease_expires_at lease now

-- row["lease_id"] is a text, and not empty
abbrev pub is_token : Option String → Bool
is_token none = false
is_token (some t) = not (t == "")

-- row["lease_id"] and row["lease_expires_at"], which is later than `now`
unfoldable pub lease_active : Row → ℕ → Bool
lease_active row now = is_token row.lease_id && expires_after row.lease_expires_at now

-- create(state, lease_id=)
unfoldable pub create :
    Codec → ℕ → WorkflowState → Option String → ℕ → ℕ → Store → Result CheckpointError Store
create codec seconds state lease now instant store = do
  payload ← encode codec state
  guard (is_none (select state.run_id store.checkpoints)) conflict
  reject (logged state.run_id state.revision store.history) conflict
  ok (record {
    checkpoints =
        store.checkpoints
        ++ record {
          run_id = state.run_id;
          revision = state.revision;
          schema_version = "1";
          payload = payload;
          status = state.status;
          lease_id = lease;
          lease_expires_at = lease_expiry seconds instant lease;
          updated_at = now;
        }
          ∷ [];
    history = store.history ++ log_entry state now ∷ [];
  })

abbrev pub require_state : Option WorkflowState → Result CheckpointError WorkflowState
require_state none = err incompatible
require_state (some state) = ok state

-- load(run_id)
unfoldable pub load : Codec → String → Store → Result CheckpointError WorkflowState
load codec id store = do
  row ← require_row (select id store.checkpoints)
  guard (row.schema_version == "1") incompatible
  guard (safe_payload codec row.payload) incompatible
  guard (has_version row.payload) incompatible
  require_state (accepted (codec.parse row.payload))

-- The row that `save` writes.
abbrev pub saved_row : ℕ → WorkflowState → Json → Option String → ℕ → ℕ → Row → Row
saved_row seconds state payload kept now instant row = record row {
  revision = state.revision;
  schema_version = "1";
  payload = payload;
  status = state.status;
  lease_id = kept;
  lease_expires_at = lease_expiry seconds instant kept;
  updated_at = now;
}

-- save(state, expected_revision=, lease_id=, keep_lease=); the three instants are those of `now`, of
-- the check of the lease and of its renewal
unfoldable pub save :
    Codec
    → ℕ
    → WorkflowState
    → ℕ
    → Option String
    → Bool
    → ℕ
    → ℕ
    → ℕ
    → Store
    → Result CheckpointError Store
save codec seconds state expected lease keep now checked instant store = do
  guard (nat_eq state.revision (expected + 1)) conflict
  payload ← encode codec state
  row ← require_row (select state.run_id store.checkpoints)
  guard (nat_eq row.revision expected) conflict
  guard (lease_matches row lease checked) conflict
  reject (logged state.run_id state.revision store.history) unavailable
  ok (record {
    checkpoints =
        update state.run_id (λ r. nat_eq r.revision expected)
          (saved_row seconds state payload (if keep then lease else none) now instant)
          store.checkpoints;
    history = store.history ++ log_entry state now ∷ [];
  })

abbrev pub leased_row : ℕ → String → ℕ → Row → Row
leased_row seconds token now row = record row {
  lease_id = some token;
  lease_expires_at = some (expiry_after seconds now);
}

-- acquire_lease(run_id, expected_revision=), `token` being the id that it draws
unfoldable pub acquire_lease :
    ℕ → String → String → ℕ → ℕ → Store → Result CheckpointError (String × Store)
acquire_lease seconds token id expected now store = do
  row ← require_row (select id store.checkpoints)
  guard (nat_eq row.revision expected) conflict
  reject (lease_active row now) conflict
  ok (
    token,
    record store {
      checkpoints =
          update id (λ r. nat_eq r.revision expected) (leased_row seconds token now)
            store.checkpoints;
    },
  )

-- release_lease(run_id, lease_id)
unfoldable pub release_lease : String → String → Store → Store
release_lease id lease store = record store {
  checkpoints =
      update id (λ r. text?_eq r.lease_id (some lease))
        (λ r. record r { lease_id = none; lease_expires_at = none }) store.checkpoints;
}

-- status IN ('READY', 'RUNNING', 'INTERRUPTED')
abbrev pub is_live : WorkflowStatus → Bool
is_live WorkflowStatus.ready = true
is_live WorkflowStatus.running = true
is_live WorkflowStatus.interrupted = true
is_live _ = false

-- What recoverable() makes of a row that its query returns: the state that it yields, or none when it
-- passes over the row. `now` is its reading of the clock.
unfoldable pub recoverable_row : Codec → ℕ → Row → Option WorkflowState
recoverable_row codec now row =
    if is_live row.status
      && not (lease_active row now)
      && row.schema_version == "1"
      && safe_payload codec row.payload
    then accepted (codec.parse row.payload)
    else none
