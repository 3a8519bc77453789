-- ===== src/Kernel/Runs.antt =====
-- What every run of run_bounded_react keeps to, whatever the model and the tools answer.
use synora_agentic_erp.Prelude.{
  ◌≤◌, ◌≡◌, refl, String, true, List, ◌∷◌, all, elem, distinct, map, arith,
}
use synora_agentic_erp.Limits.Calls.{occurrences}
use synora_agentic_erp.Kernel.Trace.{Event, executed, model_calls, proven, stops, run_stopped}
use synora_agentic_erp.Kernel.{KernelLimits, World, run_bounded_react}
use synora_agentic_erp.Kernel.Posts.{Ends, Answers}
use synora_agentic_erp.Kernel.Rounds.{RunEnds, rounds-Ends}

module _ (world : World) (correlation : String) (allowed : List String)
    (limits : KernelLimits) where
  run-Ends :
      (goal : String)
      → Ends world.call_key allowed limits.max_calls_per_tool limits.max_steps
          (run_bounded_react world correlation allowed limits goal)
  unfolding run_bounded_react RunEnds executed model_calls proven stops occurrences
  run-Ends goal =
      rounds-Ends world correlation allowed limits limits.max_steps 0 1 limits.max_steps _
        (omega arith)
        (record {
          opened = record {
            legal = record { tools = refl; different = refl; frequency = λ t. omega arith };
            calls = omega arith;
            going = refl;
          };
          proof = refl;
          keys = λ t h. h;
          counted = λ t. omega arith;
        })

  -- A run ends: it calls the model at most max_steps times, its trace has one run.stopped event, and
  -- that is the last one, with the code, the step and the detail of the result.
  pub run_stops_once :
      (goal : String)
      → (model_calls (run_bounded_react world correlation allowed limits goal).log
          ≤ limits.max_steps)
        × (stops (run_bounded_react world correlation allowed limits goal).log ≡ 1)
        × ((before : List Event) × ((run_bounded_react world correlation allowed limits goal).log
              ≡ run_stopped
                  (run_bounded_react world correlation allowed limits goal).step
                  (run_bounded_react world correlation allowed limits goal).code
                  (run_bounded_react world correlation allowed limits goal).detail
                ∷ before))
  run_stops_once goal = let e = run-Ends goal in (e.calls, e.once, e.last)

  -- A run executes only tools of its allowlist, never two calls with the same key, and no tool more than
  -- max_calls_per_tool times.
  pub run_executes_legally :
      (goal : String)
      → (all
            (λ a. elem a.tool_name allowed)
            (executed (run_bounded_react world correlation allowed limits goal).log)
          ≡ true)
        × (distinct (
              map world.call_key
                (executed (run_bounded_react world correlation allowed limits goal).log))
            ≡ true)
        × ((tool : String)
            → occurrences tool (
                map
                  (λ a. a.tool_name)
                  (executed (run_bounded_react world correlation allowed limits goal).log))
              ≤ limits.max_calls_per_tool)
  run_executes_legally goal =
      let e = run-Ends goal in (e.legal.tools, e.legal.different, e.legal.frequency)

  -- A run has an answer just when it stops with FINAL_ANSWER, and then the answer cites some digest, and
  -- each digest that it cites is that of an observation in the trace which was a success.
  pub run_has_evidence :
      (goal : String)
      → Answers
          (run_bounded_react world correlation allowed limits goal).code
          (run_bounded_react world correlation allowed limits goal).answer
          (run_bounded_react world correlation allowed limits goal).log
  run_has_evidence goal = (run-Ends goal).answers
