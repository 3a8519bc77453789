-- ===== src/Workflow/Dag.antt =====
-- validate_plan_dag of workflow/contracts.py: the depth-first search for a cycle.
-- The sets `visiting` and `visited` are lists. A call of `visit` adds its step to `visiting` and
-- takes it out again before it returns, so `visiting` is an argument, and `visited` the state.
pub mod Sound
pub mod Fuel
pub mod Complete
use synora_agentic_erp.Prelude.{
  ℕ, zero, suc, ◌+◌, String, ◌==◌, Bool, true, not, ◌&&◌, List, [], ◌∷◌, elem, subset, distinct,
  nat_eq, length, if◌then◌else◌,
}
use synora_agentic_erp.Prelude.Result.{Result, ok, err, guard, ◌>>=◌, ◌>>◌}
use synora_agentic_erp.Workflow.Contracts.{Fault, value_error, recursion_error, PlanStep, step_ids}

-- [step.order for step in sequence] == list(range(k, k + len(sequence)))
abbrev pub ordered_from : ℕ → List PlanStep → Bool
ordered_from k [] = true
ordered_from k (step ∷ steps) = nat_eq step.order k && ordered_from (suc k) steps

-- no dependency of a step is outside `known`
abbrev pub all_known : List String → List PlanStep → Bool
all_known known [] = true
all_known known (step ∷ steps) = subset step.depends_on known && all_known known steps

-- graph[step_id]; the search asks only for the ids of steps
unfoldable pub deps_of : String → List PlanStep → List String
deps_of id [] = []
deps_of id (step ∷ steps) = if step.step_id == id then step.depends_on else deps_of id steps

-- `visited` after a call that returns, the ValueError of a cycle, or a recursion that is too deep
pub data Search : Type 0 where
  done : List String → Search
  cycle : Search
  too_deep : Search

-- The search goes on from where a call has left it, unless the call raised.
abbrev pub and_then : Search → (List String → Search) → Search
and_then (done v) next = next v
and_then cycle next = cycle
and_then too_deep next = too_deep

-- for x in xs: call(x)
abbrev pub each : (String → List String → Search) → List String → List String → Search
each call [] visited = done visited
each call (x ∷ xs) visited = and_then (call x visited) (λ v. each call xs v)

unfoldable pub visit : ℕ → List PlanStep → List String → String → List String → Search
visit zero steps visiting id visited = too_deep
visit (suc fuel) steps visiting id visited =
    let inner =
      and_then (each (visit fuel steps (id ∷ visiting)) (deps_of id steps) visited)
        (λ v. done (id ∷ v)) in
    if elem id visiting then cycle else if elem id visited then done visited else inner

abbrev pub search_result : Search → Result Fault Unit
search_result (done v) = ok tt
search_result cycle = err (value_error "plan dependency graph contains a cycle")
search_result too_deep = err recursion_error

-- The loop over all ids, with one level of recursion for each step and one to spare.
unfoldable pub search_all : List PlanStep → Search
search_all steps = each (visit (suc (length steps)) steps []) (step_ids steps) []

unfoldable pub validate_plan_dag : List PlanStep → Result Fault Unit
validate_plan_dag steps = do
  guard (distinct (step_ids steps)) (value_error "plan step ids must be unique")
  guard (ordered_from 1 steps) (value_error "plan step order must be contiguous and deterministic")
  guard (all_known (step_ids steps) steps) (value_error "plan contains a dangling dependency")
  search_result (search_all steps)
