-- ===== src/Lifecycle/Memory.antt =====
-- services/agent_runtime/src/agent_runtime/memory/state.py: the lifecycle of a memory record,
-- changed by compare-and-set on its state version.
pub mod History
use synora_agentic_erp.Prelude.{
  ℕ, ◌+◌, String, not, nat_eq, Option, none, some, List, [], ◌∷◌, elem,
}
use synora_agentic_erp.Prelude.Result.{Result, ok, err, guard, reject, ◌>>=◌, ◌>>◌}
use synora_agentic_erp.Lifecycle.Table.{Table, allowed}
use synora_agentic_erp.Lifecycle.Version.{VersionValue, positive?}

pub record MemoryStateError : Type 0 where
  pub code : String
  pub message : String

-- MEMORY_STATES of memory/contracts.py
abbrev pub memory_states : List String
memory_states = "CANDIDATE" ∷ "APPROVED" ∷ "REJECTED" ∷ "SUPERSEDED" ∷ "EXPIRED" ∷ "DELETED" ∷ []

unfoldable pub transitions : Table
transitions =
    ("CANDIDATE", "APPROVED" ∷ "REJECTED" ∷ "EXPIRED" ∷ "DELETED" ∷ [])
    ∷ ("APPROVED", "SUPERSEDED" ∷ "EXPIRED" ∷ "DELETED" ∷ [])
    ∷ ("REJECTED", "DELETED" ∷ [])
    ∷ ("SUPERSEDED", "DELETED" ∷ [])
    ∷ ("EXPIRED", "DELETED" ∷ [])
    ∷ ("DELETED", [])
    ∷ []

-- The messages name the field that is wrong; the code says which check failed.
abbrev pub invalid_version : String → MemoryStateError
invalid_version message = record { code = "INVALID_VERSION"; message = message }

abbrev pub invalid_state : String → MemoryStateError
invalid_state message = record { code = "INVALID_STATE"; message = message }

abbrev pub invalid_transition : MemoryStateError
invalid_transition = record {
  code = "INVALID_TRANSITION";
  message = "Memory state transition is not allowed";
}

abbrev pub stale_version : MemoryStateError
stale_version = record { code = "STALE_VERSION"; message = "Memory state changed concurrently" }

-- _validate_version(value, field_name), `message` being the text that names the field
unfoldable pub validate_version : VersionValue → String → Result MemoryStateError ℕ
validate_version value message = elim (positive? value) [
  | none ↦ err (invalid_version message)
  | some v ↦ ok v
]

-- validate_transition(current, target)
unfoldable pub validate_transition : String → String → Result MemoryStateError Unit
validate_transition current target = do
  guard (elem current memory_states) (invalid_state "current Memory state is invalid")
  guard (elem target memory_states) (invalid_state "target Memory state is invalid")
  guard (allowed transitions current target) invalid_transition

-- if expected_version is not None: ...
check_expected : Option VersionValue → ℕ → Result MemoryStateError Unit
check_expected none current_version = ok tt
check_expected (some value) current_version = do
  expected ← validate_version value "expected_version must be an integer >= 1"
  reject (not (nat_eq expected current_version)) stale_version

-- transition_state(current, target, state_version=, expected_version=)
unfoldable pub transition_state :
    String → String → VersionValue → Option VersionValue → Result MemoryStateError (String × ℕ)
unfolding check_expected validate_version
transition_state current target state_version expected_version = do
  current_version ← validate_version state_version "state_version must be an integer >= 1"
  check_expected expected_version current_version
  validate_transition current target
  ok (target, current_version + 1)
