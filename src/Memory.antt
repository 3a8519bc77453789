-- ===== src/Memory.antt =====
-- The governed memory of the agent, services/agent_runtime/src/agent_runtime/memory: the records and
-- their invariants (contracts.py), the review decisions (decisions.py) and the recall (recall.py).
pub mod Contracts
pub mod Decisions
pub mod Recall
pub mod Review
pub mod Correction
pub mod Order
pub mod Examples
