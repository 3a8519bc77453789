-- ===== src/Kernel/Trace.antt =====
-- The data of agent/kernel.py and agent/contracts.py: actions, observations, final answers, what the
-- model and the tools answer, and the events of a trace. The canonical JSON of arguments is a text. An
-- event's number is its position; its timestamp, and the redaction of its payload, are left out.
use synora_agentic_erp.Prelude.{ℕ, suc, String, Bool, Option, List, [], ◌∷◌, if◌then◌else◌}

pub record Action : Type 0 where
  pub step : ℕ
  pub tool_name : String
  pub canonical_args : String
  pub correlation_id : String

pub record Observation : Type 0 where
  pub step : ℕ
  pub tool_name : String
  pub ok : Bool
  pub summary : String
  pub digest : String

pub data AnswerStatus : Type 0 where
  succeeded needs_input failed : AnswerStatus

pub record FinalAnswer : Type 0 where
  pub status : AnswerStatus
  pub summary : String
  pub evidence_refs : List String
  pub unknowns : List String

-- An object that the model returns: a typed action or answer, a dictionary, given by its `type` and by
-- what _RawAction and _RawFinal make of it when they accept it, or something else.
pub data Raw : Type 0 where
  action_object : Action → Raw
  answer_object : FinalAnswer → Raw
  dictionary : Option String → Option Action → Option FinalAnswer → Raw
  other_object : Raw

-- What `model.next` returns or raises; `raised true` is a ValueError or a TypeError.
pub data ModelReply : Type 0 where
  returned : Raw → ModelReply
  raised : Bool → ModelReply

-- What `tool_adapter.execute` returns or raises; `failure` is a ToolExecutionFailure with its code.
pub data ToolReply : Type 0 where
  observed : Observation → ToolReply
  failure : String → ToolReply
  crashed : ToolReply

-- _RawAction is not yet an Action: its tool and arguments have not been validated.
pub data Decision : Type 0 where
  final : FinalAnswer → Decision
  raw_action : Action → Decision
  typed_action : Action → Decision

-- The StopCodes of the kernel.
pub data StopCode : Type 0 where
  final_answer max_steps repeated_call no_progress wall_time_budget cancelled : StopCode
  tool_not_allowed tool_frequency invalid_tool_args tool_error model_error : StopCode
  unsupported_final_answer : StopCode

pub data Guard : Type 0 where
  repeated_call_guard tool_frequency_guard no_progress_guard : Guard

-- TraceEvent: its type with its payload, without the counts of the guards. Every payload but that of
-- run.started has the step.
pub data Event : Type 0 where
  run_started : ℕ → Event
  model_requested : ℕ → Event
  final_proposed : ℕ → FinalAnswer → Event
  final_rejected : ℕ → String → Event
  final_validated : ℕ → Event
  action_rejected : ℕ → String → Event
  action_proposed : ℕ → Action → Event
  action_validated : ℕ → String → Event
  guard_checked : ℕ → Guard → Bool → Event
  tool_started : ℕ → Action → Event
  tool_failed : ℕ → String → Event
  tool_observed : ℕ → Observation → Event
  run_stopped : ℕ → StopCode → String → Event

-- What a trace shows: the actions that were executed, the calls of the model, the digests of the
-- observations that were a success, and whether the run has stopped.
unfoldable pub executed : List Event → List Action
executed [] = []
executed (tool_started step a ∷ events) = a ∷ executed events
executed (_ ∷ events) = executed events

unfoldable pub model_calls : List Event → ℕ
model_calls [] = 0
model_calls (model_requested step ∷ events) = suc (model_calls events)
model_calls (_ ∷ events) = model_calls events

unfoldable pub proven : List Event → List String
proven [] = []
proven (tool_observed step o ∷ events) = if o.ok then o.digest ∷ proven events else proven events
proven (_ ∷ events) = proven events

unfoldable pub stops : List Event → ℕ
stops [] = 0
stops (run_stopped step code detail ∷ events) = suc (stops events)
stops (_ ∷ events) = stops events
