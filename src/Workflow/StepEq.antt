-- ===== src/Workflow/StepEq.antt =====
-- new_step != old_step of workflow/engine.py: the models compare field by field.
use native.Mathlib.Decide.{ℕ_discrete}
use synora_agentic_erp.Prelude.{
  String, Option, some, ◌==◌, ◌≡◌, Bool, true, false, refl, eq_iff, arith,
}
use synora_agentic_erp.Workflow.Contracts.{PlanStep, GovernedActionIntent}

String-discrete : Discrete String
String-discrete a b = go (a == b) refl
  where
    go : (t : Bool) → (a == b) ≡ t → Dec (a ≡ b)
    go true e = yes ((eq_iff a b).0 e)
    go false e = no (λ p. ground (arith, eq_iff a b))

pub PlanStep-discrete : Discrete PlanStep
PlanStep-discrete = hlevel (ℕ_discrete, String-discrete)

abbrev decides {ℓ} : {P : Type ℓ} → Dec P → Bool
decides (yes p) = true
decides (no n) = Bool.false

unfoldable pub step_eq : PlanStep → PlanStep → Bool
unfolding PlanStep-discrete String-discrete ℕ_discrete
step_eq a b = decides (PlanStep-discrete a b)

decides-eq-true : {P : Type 0} (d : Dec P) → decides d ≡ true → P
decides-eq-true (yes p) h = p
decides-eq-true (no n) h = cc

pub step_eq-eq : (a b : PlanStep) → step_eq a b ≡ true → a ≡ b
unfolding step_eq
step_eq-eq a b h = decides-eq-true (PlanStep-discrete a b) h

-- a governed action's intent compares as the models do
pub Intent-discrete : Discrete (Option GovernedActionIntent)
Intent-discrete = hlevel (ℕ_discrete, String-discrete)

unfoldable pub intent_eq : Option GovernedActionIntent → GovernedActionIntent → Bool
unfolding Intent-discrete String-discrete ℕ_discrete
intent_eq a b = decides (Intent-discrete a (some b))
