-- ===== src/Lifecycle/Run.antt =====
-- synora_agentic_erp/agent/state_machine.py: the lifecycle of an agent run.
pub mod History
use synora_agentic_erp.Prelude.{String, none, some, List, [], ◌∷◌, elem}
use synora_agentic_erp.Prelude.Result.{Result, err, guard}
use synora_agentic_erp.Lifecycle.Fault.{GatewayFault}
use synora_agentic_erp.Lifecycle.Table.{Table, targets}

abbrev pub run_states : List String
run_states =
    "CREATED" ∷ "ANALYZING" ∷ "PROPOSED" ∷ "AWAITING_APPROVAL" ∷ "EXECUTING" ∷ "SUCCEEDED"
    ∷ "FAILED" ∷ "CANCELLED" ∷ "RECONCILIATION_REQUIRED" ∷ "DECLINED" ∷ "EXPIRED" ∷ []

unfoldable pub transitions : Table
transitions =
    ("CREATED", "ANALYZING" ∷ "PROPOSED" ∷ "CANCELLED" ∷ "EXPIRED" ∷ [])
    ∷ ("ANALYZING", "PROPOSED" ∷ "FAILED" ∷ "CANCELLED" ∷ "CREATED" ∷ "EXPIRED" ∷ [])
    ∷ ("PROPOSED", "AWAITING_APPROVAL" ∷ "SUCCEEDED" ∷ "CANCELLED" ∷ "EXPIRED" ∷ [])
    ∷ ("AWAITING_APPROVAL", "DECLINED" ∷ "EXPIRED" ∷ "EXECUTING" ∷ "CANCELLED" ∷ [])
    ∷ (
      "EXECUTING",
      "SUCCEEDED" ∷ "FAILED" ∷ "RECONCILIATION_REQUIRED" ∷ "CANCELLED" ∷ "EXPIRED" ∷ [],
    )
    ∷ ("RECONCILIATION_REQUIRED", "SUCCEEDED" ∷ "FAILED" ∷ "CANCELLED" ∷ "EXPIRED" ∷ [])
    ∷ ("SUCCEEDED", [])
    ∷ ("FAILED", [])
    ∷ ("CANCELLED", [])
    ∷ ("DECLINED", [])
    ∷ ("EXPIRED", [])
    ∷ []

abbrev pub invalid_transition : GatewayFault
invalid_transition = record {
  code = "INVALID_TRANSITION";
  message = "run state is invalid";
  status_code = 409;
}

abbrev pub conflict : GatewayFault
conflict = record {
  code = "CONFLICT";
  message = "run state transition is not allowed";
  status_code = 409;
}

-- validate_transition(current, target)
unfoldable pub validate_transition : String → String → Result GatewayFault Unit
validate_transition current target = elim (targets current transitions) [
  | none ↦ err invalid_transition
  | some ts ↦ guard (elem target ts) conflict
]
