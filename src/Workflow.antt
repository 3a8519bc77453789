-- ===== src/Workflow.antt =====
-- services/agent_runtime/src/agent_runtime/workflow: durable Plan-and-Execute workflows.
pub mod Contracts
pub mod Dag
pub mod Validation
pub mod Steps
pub mod Engine
pub mod StepEq
pub mod Control
pub mod Invariant
pub mod Change
pub mod Progress
pub mod Completing
pub mod Controlling
pub mod Replanning
pub mod Histories
pub mod Deadlock
pub mod Opens
pub mod Settled
pub mod Runner
pub mod Revisions
mod Examples
