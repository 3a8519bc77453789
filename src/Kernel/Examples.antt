-- ===== src/Kernel/Examples.antt =====
-- A concrete run: the model reads the open requests, and then answers with the digest that it has seen.
use synora_agentic_erp.Prelude.{
  ◌≤◌, ◌≡◌, refl, String, true, false, none, some, List, [], ◌∷◌, all, elem, distinct, map, nat_eq,
  if◌then◌else◌,
}
use synora_agentic_erp.Limits.Guards.{
  check_repeated, check_frequency, count, set_count, check_progress,
}
use synora_agentic_erp.Limits.Calls.{occurrences}
use synora_agentic_erp.Kernel.Trace.{
  Action, FinalAnswer, succeeded, answer_object, dictionary, returned, observed, Event, run_stopped,
  executed, model_calls, stops,
}
use synora_agentic_erp.Kernel.{
  KernelLimits, World, RunResult, run_bounded_react, rounds, round, act, ask, decided, decode,
  use_tool, admit, answered, accept, judge_answer, add, stop,
}
use synora_agentic_erp.Kernel.Posts.{Answers}
use synora_agentic_erp.Kernel.Runs.{run_stops_once, run_executes_legally, run_has_evidence}

abbrev reading : Action
reading = record {
  step = 1;
  tool_name = "material_request.open";
  canonical_args = "limit 20";
  correlation_id = "c-1";
}

abbrev answer : FinalAnswer
answer = record { status = succeeded; summary = "2 open"; evidence_refs = "d1" ∷ []; unknowns = [] }

abbrev world : World
world = record {
  next = λ messages step.
      if nat_eq step 1
      then returned (dictionary (some "action") (some reading) none)
      else returned (answer_object answer);
  execute = λ a. observed (record {
    step = 1;
    tool_name = "material_request.open";
    ok = true;
    summary = "2 open";
    digest = "d1";
  });
  cancelled_before = λ step. false;
  cancelled_after_model = λ step. false;
  cancelled_after_tool = λ step. false;
  elapsed_ms = λ step. 20;
  is_typed = λ a. true;
  fits_schema = λ a. true;
  call_key = λ a. a.canonical_args;
  observation_text = λ o. o.summary;
}

abbrev tools : List String
tools = "material_request.open" ∷ []

abbrev limits : KernelLimits
limits = record {
  max_steps = 6;
  max_wall_time_ms = 180000;
  max_calls_per_tool = 3;
  no_progress_threshold = 2;
}

abbrev outcome : RunResult
outcome = run_bounded_react world "c-1" tools limits "What is open?"

succeeds : outcome.answer ≡ some answer
unfolding run_bounded_react rounds round act ask decided decode use_tool admit answered accept
    judge_answer add stop check_repeated check_frequency count set_count check_progress
succeeds = refl

one_call : executed outcome.log ≡ reading ∷ []
unfolding run_bounded_react rounds round act ask decided decode use_tool admit answered accept
    judge_answer add stop check_repeated check_frequency count set_count check_progress executed
one_call = refl

run_stops_once_example :
    (model_calls outcome.log ≤ 6)
    × (stops outcome.log ≡ 1)
    × ((before : List Event) × (outcome.log
          ≡ run_stopped outcome.step outcome.code outcome.detail ∷ before))
run_stops_once_example = run_stops_once world "c-1" tools limits "What is open?"

run_executes_legally_example :
    (all (λ a. elem a.tool_name tools) (executed outcome.log) ≡ true)
    × (distinct (map (λ a. a.canonical_args) (executed outcome.log)) ≡ true)
    × ((tool : String) → occurrences tool (map (λ a. a.tool_name) (executed outcome.log)) ≤ 3)
run_executes_legally_example = run_executes_legally world "c-1" tools limits "What is open?"

run_has_evidence_example : Answers outcome.code outcome.answer outcome.log
run_has_evidence_example = run_has_evidence world "c-1" tools limits "What is open?"
