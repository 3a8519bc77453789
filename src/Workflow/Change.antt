-- ===== src/Workflow/Change.antt =====
-- Changing one step of a plan without touching its id, its place and its dependencies.
use synora_agentic_erp.Prelude.{
  ℕ, suc, ◌≡◌, refl, String, true, false, Option, some, List, [], ◌∷◌, all, elem, distinct, arith,
  subset_mono,
}
use synora_agentic_erp.Prelude.Result.{ok}
use synora_agentic_erp.Workflow.Contracts.{PlanStep, step_ids, WorkflowState}
use synora_agentic_erp.Workflow.Dag.{validate_plan_dag, ordered_from, all_known, deps_of}
use synora_agentic_erp.Workflow.Dag.Complete.{validate_plan_dag-eq-ok_iff}
use synora_agentic_erp.Workflow.Steps.{is_succeeded, succeeded_ids, find_step, update_step}
use synora_agentic_erp.Workflow.Steps.Update.{
  active_only, all_mono, all-update, step_ids-update, succeeded-update,
}
use synora_agentic_erp.Workflow.Invariant.{IsSound, asks_for_current, in_turn}

pub record KeepsPlace (g : PlanStep → PlanStep) : Type 0 where
  pub id : (s : PlanStep) → (g s).step_id ≡ s.step_id
  pub order : (s : PlanStep) → (g s).order ≡ s.order
  pub deps : (s : PlanStep) → (g s).depends_on ≡ s.depends_on

module _ (g : PlanStep → PlanStep) (keeps : KeepsPlace g) where
  ordered_from-update :
      (k : ℕ) (id : String) (steps : List PlanStep)
      → ordered_from k (update_step g id steps) ≡ ordered_from k steps
  unfolding update_step
  ordered_from-update k id [] = refl
  ordered_from-update k id (s ∷ steps) =
      ground (arith, keeps.order s, ordered_from-update (suc k) id steps)

  all_known-update :
      (known : List String) (id : String) (steps : List PlanStep)
      → all_known known (update_step g id steps) ≡ all_known known steps
  unfolding update_step
  all_known-update known id [] = refl
  all_known-update known id (s ∷ steps) =
      ground (arith, keeps.deps s, all_known-update known id steps)

  deps_of-update :
      (x id : String) (steps : List PlanStep) → deps_of x (update_step g id steps) ≡ deps_of x steps
  unfolding update_step deps_of
  deps_of-update x id [] = refl
  deps_of-update x id (s ∷ steps) =
      ground (arith, keeps.id s, keeps.deps s, deps_of-update x id steps)

  plan-update :
      (id : String) (steps : List PlanStep)
      → validate_plan_dag steps ≡ ok tt
      → validate_plan_dag (update_step g id steps) ≡ ok tt
  plan-update id steps h =
      let p = (validate_plan_dag-eq-ok_iff steps).0 h in
      (validate_plan_dag-eq-ok_iff (update_step g id steps)).1 (record {
        unique = rw (step_ids-update g keeps.id id steps) p.unique;
        ordered = rw (ordered_from-update 1 id steps) p.ordered;
        known =
            rw (step_ids-update g keeps.id id steps, all_known-update (step_ids steps) id steps)
              p.known;
        rank = p.rank;
        ranks = λ x d h. p.ranks x d (rw (deps_of-update x id steps) at h);
      })

pub plan-distinct :
    (steps : List PlanStep) → validate_plan_dag steps ≡ ok tt → distinct (step_ids steps) ≡ true
plan-distinct steps h = ((validate_plan_dag-eq-ok_iff steps).0 h).unique

in_turn_mono :
    (d d' : List String) (s : PlanStep)
    → ((x : String) → elem x d ≡ true → elem x d' ≡ true)
    → in_turn d s ≡ true
    → in_turn d' s ≡ true
in_turn_mono d d' s m h = ground (arith, subset_mono s.depends_on d d' m)

-- Every change of one step that had not succeeded, that is in turn, and that leaves at most the
-- current step active, keeps the invariant.
module _ (state : WorkflowState) (g : PlanStep → PlanStep) (keeps : KeepsPlace g) (id : String)
    (found : PlanStep) where
  pub change-IsSound :
      (cur : Option String) (t : WorkflowState)
      → IsSound state
      → find_step id state.steps ≡ some found
      → is_succeeded found.status ≡ false
      → in_turn (succeeded_ids state.steps) (g found) ≡ true
      → all (active_only cur) (update_step g id state.steps) ≡ true
      → t.steps ≡ update_step g id state.steps
      → t.current_step_id ≡ cur
      → asks_for_current t.status t.current_step_id t.steps ≡ true
      → IsSound t
  change-IsSound cur t s f n turn single e c asks =
      let steps = state.steps in
      let d = plan-distinct steps s.plan in
      let more = succeeded-update g keeps.id id steps found d f n in
      let done = succeeded_ids steps in
      let done' = succeeded_ids (update_step g id steps) in
      let turns =
        all_mono (in_turn done) (in_turn done') steps (λ x. in_turn_mono done done' x more)
          s.in_order in
      record {
        plan = rw e (plan-update g keeps id steps s.plan);
        single = rw (e, c) single;
        in_order = rw e (
            all-update g keeps.id (in_turn done') id steps found d f turns
              (in_turn_mono done done' (g found) more turn));
        asks = asks;
      }
