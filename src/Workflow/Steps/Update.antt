-- ===== src/Workflow/Steps/Update.antt =====
-- What replacing one step of a plan does to the list of steps, ids being distinct.
use synora_agentic_erp.Prelude.{
  ◌≡◌, refl, String, ◌==◌, Bool, true, false, not, ◌||◌, Option, some, List, [], ◌∷◌, all, elem,
  distinct, arith, eq_iff, text?_eq, if◌then◌else◌, Bool-cases, inl, inr,
}
use synora_agentic_erp.Workflow.Contracts.{PlanStep, step_ids}
use synora_agentic_erp.Workflow.Steps.{
  is_active, is_succeeded, succeeded_ids, find_step, update_step,
}

pub all_mono :
    (p q : PlanStep → Bool) (steps : List PlanStep)
    → ((s : PlanStep) → p s ≡ true → q s ≡ true)
    → all p steps ≡ true
    → all q steps ≡ true
all_mono p q [] m h = refl
all_mono p q (s ∷ steps) m h = ground (arith, m s, all_mono p q steps m)

-- A step that is found is one of the steps, and has the id.
pub find_step-all :
    (p : PlanStep → Bool) (id : String) (steps : List PlanStep) (found : PlanStep)
    → find_step id steps ≡ some found
    → all p steps ≡ true
    → (p found ≡ true) × (found.step_id ≡ id)
unfolding find_step
find_step-all p id [] found f h = cc
find_step-all p id (s ∷ steps) found f h = elim (Bool-cases (s.step_id == id)) [
  | inl e ↦
      let same : s ≡ found = ground arith in
      (ground (arith, same), ground (arith, same, eq_iff s.step_id id))
  | inr n ↦ find_step-all p id steps found (ground arith) (ground arith)
]

-- No step has the id: nothing changes.
update_step-absent :
    (g : PlanStep → PlanStep) (id : String) (steps : List PlanStep)
    → elem id (step_ids steps) ≡ false
    → update_step g id steps ≡ steps
unfolding update_step
update_step-absent g id [] h = refl
update_step-absent g id (s ∷ steps) h = ground (arith, update_step-absent g id steps)

-- Replacing by a value that was computed from the step is changing the step.
pub update_step-const :
    (g : PlanStep → PlanStep) (id : String) (steps : List PlanStep) (found : PlanStep)
    → distinct (step_ids steps) ≡ true
    → find_step id steps ≡ some found
    → update_step (λ _. g found) id steps ≡ update_step g id steps
unfolding update_step find_step
update_step-const g id [] found d f = refl
update_step-const g id (s ∷ steps) found d f = elim (Bool-cases (s.step_id == id)) [
  | inl e ↦
      let absent : elem id (step_ids steps) ≡ false = ground (arith, eq_iff s.step_id id) in
      ground (
        arith,
        update_step-absent g id steps absent,
        update_step-absent (λ _. g found) id steps absent,
      )
  | inr n ↦ ground (arith, update_step-const g id steps found)
]

module _ (g : PlanStep → PlanStep) (g_id : (s : PlanStep) → (g s).step_id ≡ s.step_id) where
  pub step_ids-update :
      (id : String) (steps : List PlanStep) → step_ids (update_step g id steps) ≡ step_ids steps
  unfolding update_step
  step_ids-update id [] = refl
  step_ids-update id (s ∷ steps) = ground (arith, g_id s, step_ids-update id steps)

  -- A test that all steps pass, and the changed one passes, holds of the new plan.
  pub all-update :
      (p : PlanStep → Bool) (id : String) (steps : List PlanStep) (found : PlanStep)
      → distinct (step_ids steps) ≡ true
      → find_step id steps ≡ some found
      → all p steps ≡ true
      → p (g found) ≡ true
      → all p (update_step g id steps) ≡ true
  unfolding update_step find_step
  all-update p id [] found d f h k = refl
  all-update p id (s ∷ steps) found d f h k = elim (Bool-cases (s.step_id == id)) [
    | inl e ↦
        let absent : elem id (step_ids steps) ≡ false = ground (arith, eq_iff s.step_id id) in
        ground (arith, update_step-absent g id steps absent)
    | inr n ↦ ground (arith, all-update p id steps found)
  ]

  -- A success is not lost where the changed step had none.
  pub succeeded-update :
      (id : String) (steps : List PlanStep) (found : PlanStep)
      → distinct (step_ids steps) ≡ true
      → find_step id steps ≡ some found
      → is_succeeded found.status ≡ false
      → (x : String) → elem x (succeeded_ids steps) ≡ true
      → elem x (succeeded_ids (update_step g id steps)) ≡ true
  unfolding update_step find_step
  succeeded-update id [] found d f n x h = h
  succeeded-update id (s ∷ steps) found d f n x h = elim (Bool-cases (s.step_id == id)) [
    | inl e ↦
        let absent : elem id (step_ids steps) ≡ false = ground (arith, eq_iff s.step_id id) in
        let same : s ≡ found = ground arith in
        ground (arith, same, update_step-absent g id steps absent)
    | inr m ↦
        let rest = succeeded-update id steps found (ground arith) (ground arith) n x in
        rw m (kept (is_succeeded s.status) (succeeded_ids (update_step g id steps)) rest h)
  ]
    where
      kept :
          (b : Bool) (new : List String)
          → (elem x (succeeded_ids steps) ≡ true → elem x new ≡ true)
          → elem x (if b then s.step_id ∷ succeeded_ids steps else succeeded_ids steps) ≡ true
          → elem x (if b then s.step_id ∷ new else new) ≡ true
      kept true new r k = ground (arith, r)
      kept false new r k = r k

-- At most the step of the given id is active.
abbrev pub active_only : Option String → PlanStep → Bool
active_only cur s = not (is_active s.status) || text?_eq cur (some s.step_id)

abbrev pub inactive : PlanStep → Bool
inactive s = not (is_active s.status)

others_inactive :
    (id : String) (steps : List PlanStep)
    → elem id (step_ids steps) ≡ false
    → all (active_only (some id)) steps ≡ true
    → all inactive steps ≡ true
others_inactive id [] n h = refl
others_inactive id (s ∷ steps) n h =
    ground (arith, eq_iff id s.step_id, eq_iff s.step_id id, others_inactive id steps)

-- If at most that step is active, and it is found not to be, then none is.
pub inactive_of_found :
    (id : String) (steps : List PlanStep) (found : PlanStep)
    → distinct (step_ids steps) ≡ true
    → find_step id steps ≡ some found
    → all (active_only (some id)) steps ≡ true
    → is_active found.status ≡ false
    → all inactive steps ≡ true
unfolding find_step
inactive_of_found id [] found d f h n = refl
inactive_of_found id (s ∷ steps) found d f h n = elim (Bool-cases (s.step_id == id)) [
  | inl e ↦
      let absent : elem id (step_ids steps) ≡ false = ground (arith, eq_iff s.step_id id) in
      let same : s ≡ found = ground arith in ground (arith, same, others_inactive id steps absent)
  | inr m ↦
      ground (arith, eq_iff id s.step_id, eq_iff s.step_id id, inactive_of_found id steps found)
]

-- If at most that step is active, and its change makes it inactive, then none is.
pub inactive-update :
    (g : PlanStep → PlanStep) (id : String) (steps : List PlanStep) (found : PlanStep)
    → distinct (step_ids steps) ≡ true
    → find_step id steps ≡ some found
    → all (active_only (some id)) steps ≡ true
    → is_active (g found).status ≡ false
    → all inactive (update_step g id steps) ≡ true
unfolding update_step find_step
inactive-update g id [] found d f h n = refl
inactive-update g id (s ∷ steps) found d f h n = elim (Bool-cases (s.step_id == id)) [
  | inl e ↦
      let absent : elem id (step_ids steps) ≡ false = ground (arith, eq_iff s.step_id id) in
      let same : s ≡ found = ground arith in
      ground (arith, same, others_inactive id steps absent, update_step-absent g id steps absent)
  | inr m ↦
      ground (arith, eq_iff id s.step_id, eq_iff s.step_id id, inactive-update g id steps found)
]
