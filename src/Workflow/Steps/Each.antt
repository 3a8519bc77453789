-- ===== src/Workflow/Steps/Each.antt =====
-- Properties of every step of a plan, as tuples.
use synora_agentic_erp.Prelude.{
  ◌≡◌, refl, Bool, true, some, List, [], ◌∷◌, all, elem, distinct, arith, eq_iff,
}
use synora_agentic_erp.Workflow.Contracts.{PlanStep, step_ids}
use synora_agentic_erp.Workflow.Steps.{find_step}

-- A property of each step.
abbrev pub Each : (PlanStep → Type 0) → List PlanStep → Type 0
Each P [] = Unit
Each P (s ∷ steps) = P s × Each P steps

pub Each-map :
    (P Q : PlanStep → Type 0) (steps : List PlanStep)
    → ((s : PlanStep) → P s → Q s)
    → Each P steps
    → Each Q steps
Each-map P Q [] m h = tt
Each-map P Q (s ∷ steps) m h = (m s h.0, Each-map P Q steps m h.1)

pub Each-zip :
    (P Q R : PlanStep → Type 0) (steps : List PlanStep)
    → ((s : PlanStep) → P s → Q s → R s)
    → Each P steps
    → Each Q steps
    → Each R steps
Each-zip P Q R [] m h k = tt
Each-zip P Q R (s ∷ steps) m h k = (m s h.0 k.0, Each-zip P Q R steps m h.1 k.1)

pub all-Each :
    (p : PlanStep → Bool) (steps : List PlanStep)
    → Each (λ s. p s ≡ true) steps
    → all p steps ≡ true
all-Each p [] h = refl
all-Each p (s ∷ steps) h = ground (arith, h, all-Each p steps)

pub Each-trivial : (steps : List PlanStep) → Each (λ _. ◌≡◌ {A = Bool} true true) steps
Each-trivial [] = tt
Each-trivial (s ∷ steps) = (refl, Each-trivial steps)

pub Each-known : (steps : List PlanStep) → Each (λ s. elem s.step_id (step_ids steps) ≡ true) steps
Each-known [] = tt
Each-known (s ∷ steps) = (
  ground (arith, eq_iff s.step_id s.step_id),
  Each-map (λ x. elem x.step_id (step_ids steps) ≡ true)
      (λ x. elem x.step_id (step_ids (s ∷ steps)) ≡ true) steps (λ x h. ground arith)
      (Each-known steps),
)

-- With distinct ids each step is the one that its id finds.
pub Each-found :
    (steps : List PlanStep)
    → distinct (step_ids steps) ≡ true
    → Each (λ s. find_step s.step_id steps ≡ some s) steps
unfolding find_step
Each-found [] d = tt
Each-found (s ∷ steps) d = (
  ground (arith, eq_iff s.step_id s.step_id),
  Each-zip (λ x. elem x.step_id (step_ids steps) ≡ true) (λ x. find_step x.step_id steps ≡ some x)
      (λ x. find_step x.step_id (s ∷ steps) ≡ some x) steps
      (λ x known f. ground (arith, eq_iff s.step_id x.step_id)) (Each-known steps)
      (Each-found steps (ground arith)),
)
