-- ===== src/Workflow/Opens.antt =====
-- The steps of a plan that are still to be begun: workflow/engine.py has fewer of them after begin_step,
-- and no more after complete_step.
use synora_agentic_erp.Prelude.{
  ℕ, ◌+◌, ◌≤◌, ◌<◌, ◌≡◌, refl, String, ◌==◌, true, false, some, List, [], ◌∷◌, arith, length, inl,
  inr, Option-cases, Bool-cases, if◌then◌else◌, sym, subst,
}
use synora_agentic_erp.Prelude.Result.{ok}
use synora_agentic_erp.Workflow.Contracts.{PlanStep, WorkflowState, StepStatus}
use synora_agentic_erp.Workflow.Steps.{is_open, find_step, get_step, update_step, replace_step}
use synora_agentic_erp.Workflow.Engine.{
  Observed, advance, begin_step, complete_step, with_status, succeed,
}

unfoldable pub opens : List PlanStep → ℕ
opens [] = 0
opens (step ∷ steps) = if is_open step.status then opens steps + 1 else opens steps

pub opens-length : (steps : List PlanStep) → opens steps ≤ length steps
unfolding opens
opens-length [] = ground arith
opens-length (step ∷ steps) = ground (arith, opens-length steps)

pub opens-update :
    (f : PlanStep → PlanStep) (id : String) (steps : List PlanStep)
    → ((x : PlanStep) → is_open (f x).status ≡ false)
    → opens (update_step f id steps) ≤ opens steps
unfolding opens update_step
opens-update f id [] h = ground arith
opens-update f id (step ∷ steps) h = elim (Bool-cases (step.step_id == id)) [
  | inl p ↦ rw (p, h step) (ground (arith, opens-update f id steps h))
  | inr p ↦ rw p (ground (arith, opens-update f id steps h))
]

pub opens-found :
    (f : PlanStep → PlanStep) (id : String) (steps : List PlanStep) (step : PlanStep)
    → ((x : PlanStep) → is_open (f x).status ≡ false)
    → find_step id steps ≡ some step
    → is_open step.status ≡ true
    → opens (update_step f id steps) < opens steps
unfolding opens update_step find_step
opens-found f id [] step h e o = absurd (ground arith)
opens-found f id (x ∷ steps) step h e o = elim (Bool-cases (x.step_id == id)) [
  | inl p ↦
      let same : x ≡ step = ground arith in
      let open_x : is_open x.status ≡ true = subst (λ y. is_open y.status ≡ true) (sym same) o in
      rw (p, h x, open_x) (ground (arith, opens-update f id steps h))
  | inr p ↦
      let e' : find_step id steps ≡ some step = ground arith in
      rw p (ground (arith, opens-found f id steps step h e' o))
]

pub begin_step-opens :
    (now : ℕ) (s t : WorkflowState) (id : String)
    → begin_step now s id ≡ ok t
    → opens t.steps < opens s.steps
unfolding begin_step get_step replace_step
begin_step-opens now s t id h = elim (Option-cases (find_step id s.steps)) [
  | inl p ↦ absurd (ground arith)
  | inr (step, p) ↦
      let o : is_open step.status ≡ true = ground arith in
      let e : t.steps ≡ update_step (with_status StepStatus.running) id s.steps = ground arith in
      rw e (opens-found (with_status StepStatus.running) id s.steps step (λ x. refl) p o)
]

pub complete_step-opens :
    (now : ℕ) (stamp : String) (s t : WorkflowState) (o : Observed)
    → complete_step now stamp s o ≡ ok t
    → opens t.steps ≤ opens s.steps
unfolding complete_step get_step advance
complete_step-opens now stamp s t o h = elim (Option-cases s.current_step_id) [
  | inl p ↦ absurd (ground arith)
  | inr (id, p) ↦ elim (Option-cases (find_step id s.steps)) [
    | inl q ↦ absurd (ground arith)
    | inr (step, q) ↦
        let e : t.steps ≡ update_step (λ _. succeed o.digest stamp step) id s.steps =
          ground arith in
        rw e (opens-update (λ _. succeed o.digest stamp step) id s.steps (λ x. refl))
  ]
]
