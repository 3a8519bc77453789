-- ===== src/Lib.antt =====
-- Verification of the core of Synora Agentic ERP, an agent layer over ERPNext: the lifecycles that
-- guard its writes, the durable workflow that drives its agent runs, the governed memory of the agent,
-- the limits of a run, and the purchasing analysis.
--
-- Parts, with the files that model them:
--
-- * Lifecycle (Run, Action, Memory): the transition tables of an agent run
--   (synora_agentic_erp/agent/state_machine.py), of a governed action
--   (synora_agentic_erp/governance/state.py) and of a memory record
--   (services/agent_runtime/src/agent_runtime/memory/state.py). State names are texts, as in the
--   source; an unknown name is an error. A version is a Python value: an integer, a boolean or
--   something else, which the gates tell apart.
-- * Workflow (Contracts, Dag, Validation, Steps, Engine, Control, Runner): the durable
--   Plan-and-Execute engine of services/agent_runtime/src/agent_runtime/workflow. Contracts has the
--   models of contracts.py, Dag the search of validate_plan_dag, Validation what WorkflowState accepts
--   of a whole state, Steps the helpers over the plan, Engine and Control the
--   methods of WorkflowEngine in engine.py, one function each, from a state to the next state or
--   an exception. A frozen model is a record, model_copy a record update. UUIDs, digests and JSON
--   that is only compared are texts; a deadline is the instant that its text denotes, in
--   milliseconds. The clock's readings and sha256 are arguments. Runner has the loop of the offline
--   runners in engines.py, whose executor is an argument.
-- * Checkpoint (one module): SQLiteCheckpointStore of workflow/checkpoint.py, which keeps the states of the
--   workflows. The two tables are lists of rows and a method is one transaction on them, or an error
--   that leaves them alone. What the store uses of pydantic, json and re is the record Codec, an
--   argument: the JSON of a state, and the reading of its single fields. The validators that join
--   fields are not in it: `load` runs those of Workflow.Validation on what is read.
-- * Memory (Contracts, Decisions, Recall): services/agent_runtime/src/agent_runtime/memory. Contracts
--   has the records of contracts.py with their validators and the recall gate, Decisions the three
--   decisions of decisions.py, which change the state through the gate of Lifecycle.Memory, and Recall
--   the filter and the sort of recall.py. The digest function is an argument.
-- * Limits (Guards, Budget): agent/guards.py and agent/budget.py of the runtime. A guard's check is a
--   function to its answer and its next state. Prices are integers of one scale, so that costs are
--   exact before they are rounded up, and the estimate of the input is an argument.
-- * Kernel (with Trace for its data): run_bounded_react of agent/kernel.py of the runtime. The model,
--   the tools, the cancellation and the clock are a record of functions, an argument, so that what
--   is said of a run is said for all that they may answer. A loop over a range is recursion on the
--   number of steps left, and the result of a `return` in it an error value.
-- * Runtime (Effects, Advance): the requests of WorkflowRuntime in workflow/runtime.py, and the loop of
--   _advance. A request is a function from the store to a value or an error and the store it leaves,
--   so that what is written stays written when it raises. It calls the modelled engine and store; the
--   answers of the tools, the clock's readings and the drawn tokens are arguments. One request runs at
--   a time: between its transactions nobody else writes.
-- * Analysis (one module): synora_agentic_erp/agent/analysis.py, with quantities as integers of one scale.
--
-- Bounds and fuel. The recursion of validate_plan_dag takes one level for each step of the plan
-- and one to spare. Its stack holds distinct ids of the plan, so this is enough for every plan.
-- The loops of _advance and of the runners have one iteration for each step of the plan and one to
-- spare; each iteration begins a step that was not begun before, so this is enough whatever the tools
-- answer. Integers are Python's and do not wrap. No other definition needs fuel.
--
-- Not modelled: Frappe, the database and the web framework, providers and HTTP, the bounds and
-- regular expressions of single fields of the workflow models, the query of recoverable and the method
-- history of the checkpoint store, the validation of the requests to the runtime, two requests to one
-- run at a time, the reading of prices from the environment, and the texts of trace events.
mod Prelude
pub mod Lifecycle
pub mod Workflow
pub mod Analysis
pub mod Memory
pub mod Checkpoint
pub mod Limits
pub mod Kernel
pub mod Runtime
