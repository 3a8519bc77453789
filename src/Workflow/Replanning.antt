-- ===== src/Workflow/Replanning.antt =====
-- Replanning keeps the invariant: completed steps stay, and nothing else has been started.
use synora_agentic_erp.Prelude.{
  ℕ, ◌≡◌, ap, ◌∙◌, String, ◌==◌, Bool, true, false, ◌||◌, ◌⊎◌, none, some, List, all, elem, arith,
  eq_iff, Bool-cases, Option-cases, inl, inr, [], ◌∷◌, if◌then◌else◌, subset_mono,
}
use synora_agentic_erp.Prelude.Result.{ok, Result-cases}
use synora_agentic_erp.Workflow.Contracts.{PlanStep, WorkflowState, ReplanReason}
use synora_agentic_erp.Workflow.Dag.{validate_plan_dag}
use synora_agentic_erp.Workflow.StepEq.{step_eq-eq}
use synora_agentic_erp.Workflow.Steps.{is_succeeded, is_open, succeeded_ids, find_step}
use synora_agentic_erp.Workflow.Steps.Each.{
  Each, Each-map, Each-zip, all-Each, Each-trivial, Each-found,
}
use synora_agentic_erp.Workflow.Steps.Update.{active_only, find_step-all}
use synora_agentic_erp.Workflow.Invariant.{IsSound, in_turn}
use synora_agentic_erp.Workflow.Change.{plan-distinct}
use synora_agentic_erp.Workflow.Control.{replan, keeps_completed, check_new_steps, check_new_step}

Each-checked :
    (old new : List PlanStep)
    → check_new_steps old new ≡ ok tt
    → Each (λ s. check_new_step old s ≡ ok tt) new
unfolding check_new_steps
Each-checked old [] h = tt
Each-checked old (s ∷ steps) h = elim (Result-cases (check_new_step old s)) [
  | inl (tt', e) ↦ (ground arith, Each-checked old steps (ground (arith, e)))
  | inr (f, e) ↦ absurd (ground (arith, e))
]

-- A completed step is found unchanged in the new plan.
keeps_completed-found :
    (new old : List PlanStep) (id : String) (o : PlanStep)
    → keeps_completed new old ≡ true
    → find_step id old ≡ some o
    → is_succeeded o.status ≡ true
    → find_step o.step_id new ≡ some o
unfolding find_step keeps_completed
keeps_completed-found new [] id o h f c = cc
keeps_completed-found new (x ∷ old) id o h f c = elim (Bool-cases (x.step_id == id)) [
  | inr n ↦ keeps_completed-found new old id o (ground arith) (ground arith) c
  | inl e ↦
      let same : x ≡ o = ground arith in
      elim (Option-cases (find_step o.step_id new)) [
        | inl none_there ↦ absurd (ground (arith, same))
        | inr (n, there) ↦
            let equal : n ≡ o = step_eq-eq n o (ground (arith, same)) in there ∙ ap some equal
      ]
]

pub found_succeeded :
    (id : String) (steps : List PlanStep) (n : PlanStep)
    → find_step id steps ≡ some n
    → is_succeeded n.status ≡ true
    → elem id (succeeded_ids steps) ≡ true
unfolding find_step
found_succeeded id [] n f c = cc
found_succeeded id (s ∷ steps) n f c = elim (Bool-cases (s.step_id == id)) [
  | inl e ↦ let same : s ≡ n = ground arith in ground (arith, same, eq_iff s.step_id id)
  | inr m ↦ behind (is_succeeded s.status) (found_succeeded id steps n (ground arith) c)
]
  where
    behind :
        (b : Bool)
        → elem id (succeeded_ids steps) ≡ true
        → elem id (if b then s.step_id ∷ succeeded_ids steps else succeeded_ids steps) ≡ true
    behind true k = ground arith
    behind false k = k

-- What had succeeded is still recorded as succeeded.
keeps_completed-succeeded :
    (new old : List PlanStep)
    → keeps_completed new old ≡ true
    → (x : String) → elem x (succeeded_ids old) ≡ true
    → elem x (succeeded_ids new) ≡ true
unfolding keeps_completed
keeps_completed-succeeded new [] h x e = cc
keeps_completed-succeeded new (o ∷ old) h x e = elim (Bool-cases (is_succeeded o.status)) [
  | inr n ↦ keeps_completed-succeeded new old (ground arith) x (rw n at e)
  | inl c ↦
      let found =
        keeps_completed-found new (o ∷ old) o.step_id o h
          (unfold find_step in ground (arith, eq_iff o.step_id o.step_id)) c in
      let mine = found_succeeded o.step_id new o found c in
      let rest = keeps_completed-succeeded new old (ground arith) x in
      let split : (o.step_id == x || elem x (succeeded_ids old)) ≡ true = rw c at e in
      ground (arith, mine, rest, split, eq_iff o.step_id x)
]

-- Each step of the new plan is open, or is a completed step of the old one.
abbrev Carried : List PlanStep → PlanStep → Type 0
Carried old s =
    (is_open s.status ≡ true)
    ⊎ ((find_step s.step_id old ≡ some s) × (is_succeeded s.status ≡ true))

carried :
    (old new : List PlanStep) (s : PlanStep)
    → keeps_completed new old ≡ true
    → check_new_step old s ≡ ok tt
    → find_step s.step_id new ≡ some s
    → Carried old s
unfolding check_new_step
carried old new s h k f = elim (Option-cases (find_step s.step_id old)) [
  | inl n ↦ inl (ground arith)
  | inr (o, e) ↦ elim (Bool-cases (is_succeeded o.status)) [
    | inr n ↦ inl (ground arith)
    | inl c ↦
        let there = keeps_completed-found new old s.step_id o h e c in
        let (_, named) =
          find_step-all (λ _. true) s.step_id old o e
            (all-Each (λ _. true) old (Each-trivial old)) in
        let same : o ≡ s = ground (arith, there, named) in
        inr (ground (arith, e, same), ground (arith, c, same))
  ]
]

Carried-in_turn :
    (old : List PlanStep) (done : List String) (s : PlanStep)
    → all (in_turn (succeeded_ids old)) old ≡ true
    → ((x : String) → elem x (succeeded_ids old) ≡ true → elem x done ≡ true)
    → Carried old s
    → (in_turn done s ≡ true) × (active_only none s ≡ true)
Carried-in_turn old done s h m (inl o) = (ground arith, ground arith)
Carried-in_turn old done s h m (inr (f, c)) =
    let (turn, _) = find_step-all (in_turn (succeeded_ids old)) s.step_id old s f h in
    (ground (arith, subset_mono s.depends_on (succeeded_ids old) done m), ground arith)

pub replan-IsSound :
    (now : ℕ) (state t : WorkflowState) (steps : List PlanStep) (reason : ReplanReason)
    → IsSound state
    → replan now state steps reason ≡ ok t
    → IsSound t
unfolding replan
replan-IsSound now state t steps reason s h =
    let plan : validate_plan_dag steps ≡ ok tt = ground arith in
    let keeps : keeps_completed steps state.steps ≡ true = ground arith in
    let checked : check_new_steps state.steps steps ≡ ok tt = ground arith in
    let same : t.steps ≡ steps = ground arith in
    let done = succeeded_ids steps in
    let each =
      Each-zip (λ x. check_new_step state.steps x ≡ ok tt) (λ x. find_step x.step_id steps ≡ some x)
        (λ x. (in_turn done x ≡ true) × (active_only none x ≡ true)) steps
        (λ x k f.
          Carried-in_turn state.steps done x s.in_order
            (keeps_completed-succeeded steps state.steps keeps)
            (carried state.steps steps x keeps k f))
        (Each-checked state.steps steps checked) (Each-found steps (plan-distinct steps plan)) in
    let current : t.current_step_id ≡ none = ground arith in
    record {
      plan = rw same plan;
      single =
          rw (same, current)
            (all-Each (active_only none) steps (
              Each-map (λ x. (in_turn done x ≡ true) × (active_only none x ≡ true))
                (λ x. active_only none x ≡ true) steps (λ x p. p.1) each));
      in_order = rw same (
          all-Each (in_turn done) steps (
            Each-map (λ x. (in_turn done x ≡ true) × (active_only none x ≡ true))
              (λ x. in_turn done x ≡ true) steps (λ x p. p.0) each));
      asks = ground arith;
    }
