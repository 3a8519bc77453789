-- ===== src/Workflow/Deadlock.antt =====
-- A running workflow never gets stuck: while steps are open and none has failed, one is ready.
use synora_agentic_erp.Prelude.{
  ℕ, zero, suc, ◌<◌, ◌≡◌, refl, String, ◌==◌, Bool, true, false, ◌||◌, none, some, List, [], ◌∷◌,
  all, elem, subset, arith, eq_iff, Bool-cases, Option-cases, inl, inr, find?, elem-subset,
}
use synora_agentic_erp.Prelude.Result.{ok}
use synora_agentic_erp.Workflow.Contracts.{
  PlanStep, WorkflowState, WorkflowStatus, step_ids, unknown_current,
}
use synora_agentic_erp.Workflow.Dag.{deps_of}
use synora_agentic_erp.Workflow.Dag.Fuel.{deps_of-known}
use synora_agentic_erp.Workflow.Dag.Complete.{IsPlan, validate_plan_dag-eq-ok_iff}
use synora_agentic_erp.Workflow.Steps.{
  is_active, is_open, is_succeeded, is_ready, succeeded_ids, next_ready, find_step,
}
use synora_agentic_erp.Workflow.Steps.Each.{Each-map, all-Each, Each-found}
use synora_agentic_erp.Workflow.Steps.Update.{find_step-all}
use synora_agentic_erp.Workflow.Invariant.{IsSound}
use synora_agentic_erp.Workflow.Replanning.{found_succeeded}
use synora_agentic_erp.Workflow.Engine.{ready_step}

subset_of_elem :
    (xs ys : List String)
    → ((x : String) → elem x xs ≡ true → elem x ys ≡ true)
    → subset xs ys ≡ true
subset_of_elem [] ys h = refl
subset_of_elem (x ∷ xs) ys h =
    ground (arith, eq_iff x x, h x, subset_of_elem xs ys (λ y e. h y (ground arith)))

find?-none :
    (p : PlanStep → Bool) (steps : List PlanStep) (id : String) (x : PlanStep)
    → find? p steps ≡ none
    → find_step id steps ≡ some x
    → p x ≡ false
unfolding find_step
find?-none p [] id x n f = cc
find?-none p (s ∷ steps) id x n f = elim (Bool-cases (s.step_id == id)) [
  | inl e ↦ let same : s ≡ x = ground arith in ground (arith, same)
  | inr m ↦ find?-none p steps id x (ground arith) (ground arith)
]

deps_of-found :
    (steps : List PlanStep) (id : String) (x : PlanStep)
    → find_step id steps ≡ some x
    → deps_of id steps ≡ x.depends_on
unfolding find_step deps_of
deps_of-found [] id x f = cc
deps_of-found (s ∷ steps) id x f = ground (arith, deps_of-found steps id x)

find_known :
    (steps : List PlanStep) (id : String)
    → elem id (step_ids steps) ≡ true
    → (x : PlanStep) × (find_step id steps ≡ some x)
unfolding find_step
find_known [] id h = cc
find_known (s ∷ steps) id h = elim (Bool-cases (s.step_id == id)) [
  | inl e ↦ (s, ground arith)
  | inr n ↦ let (x, f) = find_known steps id (ground arith) in (x, ground arith)
]

abbrev pub open_or_done : PlanStep → Bool
open_or_done s = is_open s.status || is_succeeded s.status

module _ (steps : List PlanStep) (plan : IsPlan steps) (open_steps : all open_or_done steps ≡ true)
    (stuck : next_ready steps ≡ none) where
  all_succeeded :
      (k : ℕ) (id : String) (x : PlanStep)
      → plan.rank id < k
      → find_step id steps ≡ some x
      → is_succeeded x.status ≡ true
  unfolding next_ready
  all_succeeded zero id x r f = elim r [ ]
  all_succeeded (suc k) id x r f =
      let deps : subset x.depends_on (succeeded_ids steps) ≡ true =
        subset_of_elem x.depends_on (succeeded_ids steps) λ d e.
          let there : elem d (deps_of id steps) ≡ true =
            ground (arith, deps_of-found steps id x f) in
          let known =
            elem-subset d (deps_of id steps) (step_ids steps)
              (deps_of-known (step_ids steps) id steps plan.known) there in
          let (y, g) = find_known steps d known in
          found_succeeded d steps y g
            (all_succeeded k d y (omega (arith, plan.ranks id d there)) g) in
      let not_ready = find?-none (is_ready (succeeded_ids steps)) steps id x stuck f in
      let (fine, _) = find_step-all open_or_done id steps x f open_steps in
      ground (arith, deps, not_ready, fine)

-- No step of such a plan is active, so the next ready one is the ready one.
found_ready :
    (state : WorkflowState) (step : PlanStep)
    → state.status ≡ WorkflowStatus.running
    → unknown_current state.current_step_id state.steps ≡ false
    → all open_or_done state.steps ≡ true
    → next_ready state.steps ≡ some step
    → ready_step state ≡ ok (some step)
unfolding ready_step
found_ready state step r c o e = elim (Option-cases state.current_step_id) [
  | inl n ↦ ground arith
  | inr (id, i) ↦
      let (x, f) = find_known state.steps id (ground arith) in
      let (fine, _) = find_step-all open_or_done id state.steps x f o in
      let idle : is_active x.status ≡ false = ground arith in ground arith
]

-- In a sound running workflow whose steps are all open or succeeded, with a current step, if any,
-- of the plan, `ready_step` finds a step unless all have succeeded.
pub ready_step_exists :
    (state : WorkflowState)
    → IsSound state
    → state.status ≡ WorkflowStatus.running
    → unknown_current state.current_step_id state.steps ≡ false
    → all open_or_done state.steps ≡ true
    → all (λ s. is_succeeded s.status) state.steps ≡ false
    → (step : PlanStep) × (ready_step state ≡ ok (some step))
ready_step_exists state s r c o n =
    let plan = (validate_plan_dag-eq-ok_iff state.steps).0 s.plan in
    elim (Option-cases (next_ready state.steps)) [
      | inl stuck ↦
          let each =
            Each-map (λ x. find_step x.step_id state.steps ≡ some x)
              (λ x. is_succeeded x.status ≡ true) state.steps
              (λ x f.
                all_succeeded state.steps plan o stuck (suc (plan.rank x.step_id)) x.step_id x
                  (omega arith) f)
              (Each-found state.steps plan.unique) in
          absurd (ground (arith, all-Each (λ x. is_succeeded x.status) state.steps each))
      | inr (step, e) ↦ (step, found_ready state step r c o e)
    ]
