-- ===== src/Limits.antt =====
-- What bounds one run of the agent, services/agent_runtime/src/agent_runtime/agent: the guards against
-- loops (guards.py) and the account of tokens, cost and time (budget.py).
pub mod Guards
pub mod Budget
pub mod Calls
pub mod Progress
pub mod Spending
pub mod Examples
