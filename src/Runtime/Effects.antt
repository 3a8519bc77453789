-- ===== src/Runtime/Effects.antt =====
-- The effects of workflow/runtime.py: a request works on the checkpoint store and returns a value or
-- raises, and what it has stored stays stored when it raises. One request runs at a time; what others
-- do between its transactions is the matter of the store's compare-and-set.
use synora_agentic_erp.Prelude.{ℕ, String, Bool, Option, none, some}
use synora_agentic_erp.Prelude.Result.{Result, ok, err}
use synora_agentic_erp.Workflow.Contracts.{WorkflowState, Fault}
use synora_agentic_erp.Checkpoint.{
  CheckpointError, Codec, Store, load, save, acquire_lease, release_lease,
}

-- CheckpointError, the errors of the engine, and the WorkflowErrors that the runtime raises itself, by
-- their codes. `unending` would be a loop that does not end.
pub data RuntimeError : Type 0 where
  checkpoint_error : CheckpointError → RuntimeError
  engine_error : Fault → RuntimeError
  runtime_error : String → RuntimeError
  unending : RuntimeError

abbrev pub Runtime : Type 0 → Type 0
Runtime A = Store → Result RuntimeError A × Store

abbrev pub pure : {A : Type 0} → A → Runtime A
pure a store = (ok a, store)

abbrev pub throw : {A : Type 0} → RuntimeError → Runtime A
throw e store = (err e, store)

abbrev pub continue_with :
    {A B : Type 0} → Result RuntimeError A × Store → (A → Runtime B) → Result RuntimeError B × Store
continue_with (ok a, store) rest = rest a store
continue_with (err e, store) rest = (err e, store)

infixl 10 ◌>>=◌ ◌>>◌
abbrev pub ◌>>=◌ : {A B : Type 0} → Runtime A → (A → Runtime B) → Runtime B
◌>>=◌ m rest store = continue_with (m store) rest

abbrev pub ◌>>◌ : {B : Type 0} → Runtime (Unit {0}) → Runtime B → Runtime B
◌>>◌ m rest store = continue_with (m store) (λ _. rest)

-- A call of the engine.
abbrev pub from_engine : {A : Type 0} → Result Fault A → Runtime A
from_engine (ok a) store = (ok a, store)
from_engine (err e) store = (err (engine_error e), store)

-- A reading call of the store, and one that writes: it does so as a whole, or raises.
abbrev pub from_store : {A : Type 0} → Result CheckpointError A → Runtime A
from_store (ok a) store = (ok a, store)
from_store (err e) store = (err (checkpoint_error e), store)

abbrev pub written : Result CheckpointError Store → Runtime Unit
written (ok after) store = (ok tt, after)
written (err e) store = (err (checkpoint_error e), store)

abbrev pub leased : Result CheckpointError (String × Store) → Runtime String
leased (ok (token, after)) store = (ok token, after)
leased (err e) store = (err (checkpoint_error e), store)

-- What one transition reads of its surroundings: the engine's clock and its text for completed_at, the
-- clock when a lease is acquired and its token, and the clocks of a save.
pub record Times : Type 0 where
  pub engine : ℕ
  pub stamp : String
  pub acquired : ℕ
  pub token : String
  pub saved : ℕ
  pub checked : ℕ
  pub renewed : ℕ

module _ (codec : Codec) (seconds : ℕ) where
  -- self.store.load(run_id)
  unfoldable pub fetch : String → Runtime WorkflowState
  fetch id store = from_store (load codec id store) store

  -- self.store.acquire_lease(run_id, expected_revision=)
  unfoldable pub acquire : Times → String → ℕ → Runtime String
  acquire t id expected store =
      leased (acquire_lease seconds t.token id expected t.acquired store) store

  -- self.store.save(next, expected_revision=current.revision, lease_id=, keep_lease=)
  unfoldable pub persist :
      Times → WorkflowState → WorkflowState → Option String → Bool → Runtime Unit
  persist t current next lease keep store =
      written
        (save codec seconds next current.revision lease keep t.saved t.checked t.renewed store)
        store

-- if held_lease: self.store.release_lease(...)
abbrev pub release_held : String → Option String → Store → Store
release_held id none store = store
release_held id (some lease) store = release_lease id lease store

abbrev pub released_on_error :
    {A : Type 0} → String → String → Result RuntimeError A × Store → Result RuntimeError A × Store
released_on_error id lease (ok a, store) = (ok a, store)
released_on_error id lease (err e, store) = (err e, release_lease id lease store)

-- try: body; except Exception: release the lease; raise
abbrev pub protect : {A : Type 0} → String → String → Runtime A → Runtime A
protect id lease body store = released_on_error id lease (body store)
