-- ===== src/Lifecycle/Fault.antt =====
-- synora_agentic_erp/gateway/contract.py: the exception of the gateway and of the governance code.
use synora_agentic_erp.Prelude.{ℕ, String}

pub record GatewayFault : Type 0 where
  pub code : String
  pub message : String
  pub status_code : ℕ
