-- ===== src/Lifecycle/Action.antt =====
-- synora_agentic_erp/governance/state.py: the lifecycle of a governed action, changed by
-- compare-and-set on its version.
pub mod History
use synora_agentic_erp.Prelude.{ℕ, ◌+◌, String, not, Option, none, some, List, [], ◌∷◌, elem}
use synora_agentic_erp.Prelude.Result.{Result, ok, err, guard, reject, ◌>>◌}
use synora_agentic_erp.Lifecycle.Fault.{GatewayFault}
use synora_agentic_erp.Lifecycle.Table.{Table, targets}
use synora_agentic_erp.Lifecycle.Version.{VersionValue, positive?, stale}

abbrev pub action_states : List String
action_states =
    "DRAFT" ∷ "INVALID" ∷ "POLICY_REJECTED" ∷ "AWAITING_APPROVAL" ∷ "APPROVED" ∷ "DECLINED"
    ∷ "EXPIRED" ∷ "EXECUTED" ∷ []

unfoldable pub transitions : Table
transitions =
    ("DRAFT", "INVALID" ∷ "POLICY_REJECTED" ∷ "AWAITING_APPROVAL" ∷ [])
    ∷ ("INVALID", [])
    ∷ ("POLICY_REJECTED", [])
    ∷ ("AWAITING_APPROVAL", "APPROVED" ∷ "DECLINED" ∷ "EXPIRED" ∷ [])
    ∷ ("APPROVED", "EXECUTED" ∷ "EXPIRED" ∷ [])
    ∷ ("DECLINED", [])
    ∷ ("EXPIRED", [])
    ∷ ("EXECUTED", [])
    ∷ []

abbrev pub conflict : String → GatewayFault
conflict message = record { code = "CONFLICT"; message = message; status_code = 409 }

abbrev pub invalid_state : GatewayFault
invalid_state = conflict "governed action state is invalid"

abbrev pub not_allowed : GatewayFault
not_allowed = conflict "governed action state transition is not allowed"

abbrev pub invalid_version : GatewayFault
invalid_version = conflict "governed action state version is invalid"

abbrev pub changed_concurrently : GatewayFault
changed_concurrently = conflict "governed action state changed concurrently"

-- validate_transition(current, target)
unfoldable pub validate_transition : String → String → Result GatewayFault Unit
validate_transition current target = elim (targets current transitions) [
  | none ↦ err invalid_state
  | some ts ↦
      reject (not (elem target action_states)) invalid_state >> guard (elem target ts) not_allowed
]

-- transition_state(current, target, state_version=, expected_version=)
unfoldable pub transition_state :
    String → String → VersionValue → Option VersionValue → Result GatewayFault (String × ℕ)
transition_state current target state_version expected_version = elim (positive? state_version) [
  | none ↦ err invalid_version
  | some version ↦ do
    reject (stale expected_version version) changed_concurrently
    validate_transition current target
    ok (target, version + 1)
]
