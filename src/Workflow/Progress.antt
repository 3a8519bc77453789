-- ===== src/Workflow/Progress.antt =====
-- Beginning a step, and waiting with it, keep the invariant; so does every step that ends.
use synora_agentic_erp.Prelude.{
  ℕ, ◌≡◌, refl, subst, String, Bool, true, false, Option, none, some, List, all, elem, distinct,
  arith, eq_iff, Bool-cases, Option-cases, inl, inr, find?, [], ◌∷◌,
}
use synora_agentic_erp.Prelude.Result.{ok, Result-cases}
use synora_agentic_erp.Workflow.Contracts.{PlanStep, WorkflowState, StepStatus, step_ids}
use synora_agentic_erp.Workflow.Steps.{
  is_active, is_ready, succeeded_ids, next_ready, find_step, update_step,
}
use synora_agentic_erp.Workflow.Steps.Update.{
  active_only, inactive, all_mono, all-update, find_step-all, inactive-update, inactive_of_found,
}
use synora_agentic_erp.Workflow.Invariant.{IsSound, asks_for_current, in_turn}
use synora_agentic_erp.Workflow.Change.{KeepsPlace, plan-distinct, change-IsSound}
use synora_agentic_erp.Workflow.Engine.{
  with_status, ready_step, begin_step, wait_for_governed_action, succeed,
}

pub with_status-KeepsPlace : (status : StepStatus) → KeepsPlace (with_status status)
with_status-KeepsPlace status = record { id = λ s. refl; order = λ s. refl; deps = λ s. refl }

pub succeed-KeepsPlace : (digest stamp : String) → KeepsPlace (succeed digest stamp)
succeed-KeepsPlace digest stamp = record { id = λ s. refl; order = λ s. refl; deps = λ s. refl }

-- Where `ready_step` finds a step, no step is active, and the step is the next ready one.
pub ready_step-some :
    (state : WorkflowState) (step : PlanStep)
    → IsSound state
    → ready_step state ≡ ok (some step)
    → (all inactive state.steps ≡ true) × (next_ready state.steps ≡ some step)
unfolding ready_step
ready_step-some state step s h = elim (Option-cases state.current_step_id) [
  | inl e ↦ (
    all_mono (active_only none) inactive state.steps (λ x k. ground arith) (rw e at s.single),
    ground arith,
  )
  | inr (id, e) ↦ elim (Option-cases (find_step id state.steps)) [
    | inl n ↦ absurd (ground arith)
    | inr (found, p) ↦ (
      inactive_of_found id state.steps found (plan-distinct state.steps s.plan) p (rw e at s.single)
          (ground arith),
      ground arith,
    )
  ]
]

-- The next ready step is one of the plan's, is open, and has succeeded dependencies.
pub next_ready-is_ready :
    (steps : List PlanStep) (step : PlanStep)
    → next_ready steps ≡ some step
    → is_ready (succeeded_ids steps) step ≡ true
unfolding next_ready
next_ready-is_ready steps step h = found_passes steps h
  where
    found_passes :
        (l : List PlanStep)
        → find? (is_ready (succeeded_ids steps)) l ≡ some step
        → is_ready (succeeded_ids steps) step ≡ true
    found_passes [] k = cc
    found_passes (x ∷ l) k = ground (arith, found_passes l)

pub ids_of_found :
    (id : String) (steps : List PlanStep) (step : PlanStep)
    → find_step id steps ≡ some step
    → elem id (step_ids steps) ≡ true
unfolding find_step
ids_of_found id [] step h = cc
ids_of_found id (x ∷ steps) step h = ground (arith, ids_of_found id steps step)

find?-find_step :
    (p : PlanStep → Bool) (steps : List PlanStep) (step : PlanStep)
    → distinct (step_ids steps) ≡ true
    → find? p steps ≡ some step
    → find_step step.step_id steps ≡ some step
unfolding find_step
find?-find_step p [] step d h = cc
find?-find_step p (x ∷ steps) step d h = elim (Bool-cases (p x)) [
  | inl e ↦ let same : x ≡ step = ground arith in ground (arith, same, eq_iff x.step_id x.step_id)
  | inr n ↦
      let rest = find?-find_step p steps step (ground arith) (ground arith) in
      ground (arith, rest, ids_of_found step.step_id steps step rest, eq_iff x.step_id step.step_id)
]

pub next_ready-find_step :
    (steps : List PlanStep) (step : PlanStep)
    → distinct (step_ids steps) ≡ true
    → next_ready steps ≡ some step
    → find_step step.step_id steps ≡ some step
unfolding next_ready
next_ready-find_step steps step = find?-find_step (is_ready (succeeded_ids steps)) steps step

-- What a successful begin_step has checked, and what it returns.
begun :
    (now : ℕ) (state t : WorkflowState) (id : String) (found : PlanStep)
    → find_step id state.steps ≡ some found
    → begin_step now state id ≡ ok t
    → (step : PlanStep) × (ready_step state ≡ ok (some step))
      × (step.step_id ≡ id)
      × (t.steps ≡ update_step (with_status StepStatus.running) id state.steps)
      × (t.current_step_id ≡ some id)
      × (asks_for_current t.status t.current_step_id t.steps ≡ true)
unfolding begin_step
begun now state t id found f h = elim (Result-cases (ready_step state)) [
  | inr (e, r) ↦ absurd (ground arith)
  | inl (none, r) ↦ absurd (ground arith)
  | inl (some step, r) ↦
      let known = ids_of_found id state.steps found f in
      (step, r, ground (arith, eq_iff step.step_id id), ground arith, ground arith, ground arith)
]

-- begin_step keeps the invariant.
pub begin_step-IsSound :
    (now : ℕ) (state t : WorkflowState) (id : String)
    → IsSound state
    → begin_step now state id ≡ ok t
    → IsSound t
begin_step-IsSound now state t id s h = elim (Option-cases (find_step id state.steps)) [
  | inl n ↦ absurd (unfold begin_step in ground arith)
  | inr (found, f) ↦
      let (step, r, e, st, cur, asks) = begun now state t id found f h in
      let (idle, next) = ready_step-some state step s r in
      let d = plan-distinct state.steps s.plan in
      let g = with_status StepStatus.running in
      let keeps = with_status-KeepsPlace StepStatus.running in
      let at : find_step id state.steps ≡ some step =
        subst (λ x. find_step x state.steps ≡ some step) e
          (next_ready-find_step state.steps step d next) in
      let turn = next_ready-is_ready state.steps step next in
      let mine =
        all-update g keeps.id (active_only (some id)) id state.steps step d at
          (all_mono inactive (active_only (some id)) state.steps (λ x k. ground arith) idle)
          (ground (arith, e, eq_iff id step.step_id)) in
      change-IsSound state g keeps id step (some id) t s at (ground arith) (ground arith) mine st
        cur asks
]

current_of_active :
    (cur : Option String) (step : PlanStep) (id : String)
    → is_active step.status ≡ true
    → step.step_id ≡ id
    → active_only cur step ≡ true
    → cur ≡ some id
current_of_active none step id a e h = ground arith
current_of_active (some x) step id a e h = ground (arith, eq_iff x step.step_id)

-- The change that `wait_for_governed_action` and `interrupt` make: the running step waits.
pub wait-IsSound :
    (state t : WorkflowState) (id : String) (found : PlanStep)
    → IsSound state
    → find_step id state.steps ≡ some found
    → is_active found.status ≡ true
    → t.steps ≡ update_step (with_status StepStatus.waiting) id state.steps
    → t.current_step_id ≡ some id
    → asks_for_current t.status t.current_step_id t.steps ≡ true
    → IsSound t
wait-IsSound state t id found s f r e c asks =
    let g = with_status StepStatus.waiting in
    let keeps = with_status-KeepsPlace StepStatus.waiting in
    let d = plan-distinct state.steps s.plan in
    let (mine, named) =
      find_step-all (active_only state.current_step_id) id state.steps found f s.single in
    let (turn, _) =
      find_step-all (in_turn (succeeded_ids state.steps)) id state.steps found f s.in_order in
    let cur = current_of_active state.current_step_id found id r named mine in
    let single =
      all-update g keeps.id (active_only (some id)) id state.steps found d f (rw cur at s.single)
        (ground (arith, named, eq_iff id found.step_id)) in
    change-IsSound state g keeps id found (some id) t s f (ground arith) (ground arith) single e c
      asks

pub wait_for_governed_action-IsSound :
    (now : ℕ) (state t : WorkflowState) (id : String)
    → IsSound state
    → wait_for_governed_action now state id ≡ ok t
    → IsSound t
unfolding wait_for_governed_action
wait_for_governed_action-IsSound now state t id s h =
    elim (Option-cases (find_step id state.steps)) [
      | inl n ↦ absurd (ground arith)
      | inr (found, f) ↦
          let known = ids_of_found id state.steps found f in
          wait-IsSound state t id found s f (ground arith) (ground arith) (ground arith)
            (ground arith)
    ]

-- The change of a step that ends: the active step is the current one, so none is active after it.
pub end-IsSound :
    (g : PlanStep → PlanStep) (state t : WorkflowState) (id : String) (found : PlanStep)
    → KeepsPlace g
    → IsSound state
    → find_step id state.steps ≡ some found
    → is_active found.status ≡ true
    → is_active (g found).status ≡ false
    → t.steps ≡ update_step g id state.steps
    → asks_for_current t.status t.current_step_id t.steps ≡ true
    → IsSound t
end-IsSound g state t id found keeps s f a i e asks =
    let d = plan-distinct state.steps s.plan in
    let (mine, named) =
      find_step-all (active_only state.current_step_id) id state.steps found f s.single in
    let (turn, _) =
      find_step-all (in_turn (succeeded_ids state.steps)) id state.steps found f s.in_order in
    let cur = current_of_active state.current_step_id found id a named mine in
    let idle = inactive-update g id state.steps found d f (rw cur at s.single) i in
    change-IsSound state g keeps id found t.current_step_id t s f (ground arith)
      (ground (arith, keeps.deps found, turn))
      (all_mono inactive (active_only t.current_step_id) (update_step g id state.steps)
        (λ x k. ground arith) idle)
      e refl asks
