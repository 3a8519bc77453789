-- ===== src/Kernel.antt =====
-- agent/kernel.py of the runtime: run_bounded_react, the loop model -> validation -> tool ->
-- observation. A `return _stop(...)` in the loop is an `err` with the result of the run.
-- The repeat guard is guards.py's RepeatedCallGuard. The elapsed time in the stop reason is left out.
pub mod Trace
pub mod Posts
pub mod Rounds
pub mod Runs
pub mod Examples
use synora_agentic_erp.Prelude.{
  ℕ, zero, suc, ◌+◌, String, ◌==◌, Bool, true, false, not, ◌&&◌, ◌||◌, Option, none, some, List, [],
  ◌∷◌, ◌++◌, elem, subset, leb, nat_eq, if◌then◌else◌,
}
use synora_agentic_erp.Prelude.Result.{Result, ok, err, guard, reject, ◌>>=◌, ◌>>◌}
use synora_agentic_erp.Limits.Guards.{
  check_repeated, check_frequency, NoProgressGuard, check_progress,
}
use synora_agentic_erp.Kernel.Trace.{
  Action, Observation, FinalAnswer, Raw, action_object, answer_object, dictionary, other_object,
  ModelReply, returned, raised, ToolReply, observed, failure, crashed, Decision, final, raw_action,
  typed_action, StopCode, Guard, repeated_call_guard, tool_frequency_guard, no_progress_guard,
  Event, run_started, model_requested, final_proposed, final_rejected, final_validated,
  action_rejected, action_proposed, action_validated, guard_checked, tool_started, tool_failed,
  tool_observed, run_stopped, final_answer, max_steps, repeated_call, no_progress, wall_time_budget,
  cancelled, tool_not_allowed, tool_frequency, invalid_tool_args, tool_error, model_error,
  unsupported_final_answer,
}

pub record KernelLimits : Type 0 where
  pub max_steps : ℕ
  pub max_wall_time_ms : ℕ
  pub max_calls_per_tool : ℕ
  pub no_progress_threshold : ℕ

-- What the loop uses of its surroundings: the model, given the contents of the messages so far, and
-- the tools; what `cancelled` says in a step before the model, after it and after the tool; the time
-- since the start; Action's own validation, the schemas of the gateway, and the text of a call.
pub record World : Type 0 where
  pub next : List String → ℕ → ModelReply
  pub execute : Action → ToolReply
  pub cancelled_before : ℕ → Bool
  pub cancelled_after_model : ℕ → Bool
  pub cancelled_after_tool : ℕ → Bool
  pub elapsed_ms : ℕ → ℕ
  pub is_typed : Action → Bool
  pub fits_schema : Action → Bool
  pub call_key : Action → String
  pub observation_text : Observation → String

pub record RunResult : Type 0 where
  pub code : StopCode
  pub step : ℕ
  pub detail : String
  pub answer : Option FinalAnswer
  pub log : List Event

-- The variables that the loop changes. The events of the recorder and the observations, of which the
-- loop uses only the set, stand with the latest first.
pub record State : Type 0 where
  pub log : List Event
  pub messages : List String
  pub observations : List Observation
  pub seen : List String
  pub counts : List (String × ℕ)
  pub progress : NoProgressGuard

-- recorder.add(...)
unfoldable pub add : Event → State → State
add e s = record s { log = e ∷ s.log }

-- _stop(...)
unfoldable pub stop : State → StopCode → ℕ → String → Option FinalAnswer → RunResult
stop s code step detail answer = record {
  code = code;
  step = step;
  detail = detail;
  answer = answer;
  log = run_stopped step code detail ∷ s.log;
}

abbrev pub halt : {A : Type 0} → State → StopCode → ℕ → String → Result RunResult A
halt s code step detail = err (stop s code step detail none)

-- _decode(raw, correlation_id=, step=); none is a ValueError
unfoldable pub decode : String → ℕ → Raw → Option Decision
decode correlation step (action_object a) =
    if a.correlation_id == correlation then some (typed_action a) else none
decode correlation step (answer_object f) = some (final f)
decode correlation step (dictionary none a f) = none
decode correlation step (dictionary (some kind) a f) =
    if kind == "action"
    then elim a [
      | none ↦ none
      | some parsed ↦
          if parsed.correlation_id == correlation && nat_eq parsed.step step
          then some (raw_action parsed)
          else none
    ]
    else if kind == "final"
    then elim f [ none ↦ none | some parsed ↦ some (final parsed) ]
    else none
decode correlation step other_object = none

abbrev pub known_digests : List Observation → List String
known_digests [] = []
known_digests (o ∷ os) = if o.ok then o.digest ∷ known_digests os else known_digests os

abbrev pub cites : List String → Bool
cites [] = false
cites (ref ∷ refs) = true

abbrev pub is_supported : FinalAnswer → List Observation → Bool
is_supported f os = cites f.evidence_refs && subset f.evidence_refs (known_digests os)

-- if isinstance(decision, FinalAnswer): ...
unfoldable pub judge_answer : ℕ → State → FinalAnswer → RunResult
judge_answer step s f =
    let proposed = add (final_proposed step f) s in
    if is_supported f s.observations
    then stop (add (final_validated step) proposed) final_answer step "validated final answer"
        (some f)
    else stop (add (final_rejected step "evidence ref is unknown") proposed)
        unsupported_final_answer step "final answer did not cite an observed digest" none

-- action = ..., where a raw action is validated first
abbrev pub typed_or_stop : ℕ → State → Bool → Result RunResult Unit
typed_or_stop step s true = ok tt
typed_or_stop step s false =
    halt (add (action_rejected step "tool arguments are invalid") s) invalid_tool_args step
      "known tool action failed typed validation"

module _ (world : World) (correlation : String) (allowed : List String)
    (limits : KernelLimits) where
  -- The decision of the model, with the check of `cancelled` that stands in the same `try`.
  unfoldable pub decided : ℕ → State → Option Decision → Result RunResult Decision
  decided step s none =
      halt (add (final_rejected step "invalid model decision") s) model_error step
        "model decision could not be validated"
  decided step s (some d) =
      if world.cancelled_after_model step
      then halt s cancelled step "execution was cancelled after model response"
      else ok d

  -- try: raw = await model.next(...); ...
  unfoldable pub ask : ℕ → State → ModelReply → Result RunResult Decision
  ask step s (returned raw) = decided step s (decode correlation step raw)
  ask step s (raised true) = decided step s none
  ask step s (raised false) = halt s model_error step "model adapter failed"

  -- From the allowlist to the guards: the state in which the tool is called.
  unfoldable pub admit : ℕ → State → Action → Bool → Result RunResult State
  admit step s a is_typed = do
    (if elem a.tool_name allowed
        then ok tt
        else halt (add (action_rejected step a.tool_name) s) tool_not_allowed step
            "tool is outside the current allowlist")
    typed_or_stop step s is_typed
    let proposed = add (action_proposed step a) s
    (if world.fits_schema a
        then ok tt
        else halt (add (action_rejected step "tool arguments are invalid") proposed)
            invalid_tool_args step "tool arguments failed the existing gateway schema")
    let validated = add (action_validated step a.tool_name) proposed
    let repeat = check_repeated (world.call_key a) s.seen
    (if repeat.0
        then halt (add (guard_checked step repeated_call_guard false) validated) repeated_call step
            "the same tool and canonical arguments were already used"
        else ok tt)
    let fresh =
        add (guard_checked step repeated_call_guard true) (record validated { seen = repeat.1 })
    let frequency = check_frequency limits.max_calls_per_tool a.tool_name s.counts
    (if frequency.0
        then halt (add (guard_checked step tool_frequency_guard false) fresh) tool_frequency step
            "the same tool exceeded its per-run call frequency"
        else ok tt)
    let counted =
        add (guard_checked step tool_frequency_guard true) (record fresh { counts = frequency.1 })
    ok (add (tool_started step a) counted)

  -- After a tool has returned an observation.
  unfoldable pub accept : ℕ → State → Action → Observation → Result RunResult State
  accept step s a o = do
    (if world.cancelled_after_tool step
        then halt s cancelled step "execution was cancelled after tool response"
        else ok tt)
    (if o.tool_name == a.tool_name && nat_eq o.step step
        then ok tt
        else halt (add (tool_failed step a.tool_name) s) tool_error step
            "tool observation did not match the action context")
    let noted = add (tool_observed step o) (record s { observations = o ∷ s.observations })
    let progress = check_progress o.digest s.progress
    let after = record noted { progress = progress.1 }
    (if progress.0
        then halt (add (guard_checked step no_progress_guard false) after) no_progress step
            "observations produced no new digest"
        else ok tt)
    ok (record (add (guard_checked step no_progress_guard true) after) {
      messages = s.messages ++ world.observation_text o ∷ [];
    })

  -- try: observation = await tool_adapter.execute(action)
  unfoldable pub answered : ℕ → State → Action → ToolReply → Result RunResult State
  answered step s a (observed o) = accept step s a o
  answered step s a (failure code) =
      halt (add (tool_failed step a.tool_name) s) tool_error step
        "tool adapter returned a classified failure"
  answered step s a crashed =
      halt (add (tool_failed step a.tool_name) s) tool_error step "tool adapter failed"

  -- A call of a tool.
  unfoldable pub use_tool : ℕ → State → Action → Bool → Result RunResult State
  use_tool step s a is_typed = do
    started ← admit step s a is_typed
    answered step started a (world.execute a)

  unfoldable pub act : ℕ → State → Decision → Result RunResult State
  act step s (final f) = err (judge_answer step s f)
  act step s (raw_action a) = use_tool step s a (world.is_typed a)
  act step s (typed_action a) = use_tool step s a true

  -- The body of the loop.
  unfoldable pub round : ℕ → State → Result RunResult State
  round step s = do
    (if world.cancelled_before step then halt s cancelled step "execution was cancelled" else ok tt)
    (if leb limits.max_wall_time_ms (world.elapsed_ms step)
        then halt s wall_time_budget step "wall-clock budget expired before model call"
        else ok tt)
    let asked = add (model_requested step) s
    decision ← ask step asked (world.next s.messages step)
    act step asked decision

  -- for step in range(step, step + left): ..., and the stop after the loop
  unfoldable pub rounds : ℕ → ℕ → State → RunResult
  rounds zero step s = stop s max_steps limits.max_steps "maximum execution steps reached" none
  rounds (suc left) step s = elim (round step s) [
    | err result ↦ result
    | ok after ↦ rounds left (suc step) after
  ]

  -- run_bounded_react(...) with the guards that it makes itself, and a fresh repeat guard
  unfoldable pub run_bounded_react : String → RunResult
  run_bounded_react goal = rounds limits.max_steps 1 (record {
    log = run_started limits.max_steps ∷ [];
    messages = "Return one typed action or final answer." ∷ goal ∷ [];
    observations = [];
    seen = [];
    counts = [];
    progress = record {
      threshold = limits.no_progress_threshold;
      seen_digests = [];
      stale_count = 0;
    };
  })
