-- ===== src/Workflow/Dag/Fuel.antt =====
-- The search never runs out of recursion: its stack holds distinct ids of steps.
use synora_agentic_erp.Prelude.{
  ℕ, zero, suc, ◌+◌, ◌≤◌, ◌<◌, ◌≡◌, ◌≢◌, refl, String, ◌==◌, true, false, List, [], ◌∷◌, elem,
  subset, distinct, length, arith, eq_iff, Bool-cases, inl, inr, if◌then◌else◌,
}
use synora_agentic_erp.Workflow.Contracts.{PlanStep, step_ids}
use synora_agentic_erp.Workflow.Dag.{
  Search, done, cycle, too_deep, and_then, each, visit, deps_of, search_all, all_known,
}

without : String → List String → List String
without x [] = []
without x (y ∷ ys) = if y == x then ys else y ∷ without x ys

length-without :
    (x : String) (ys : List String) → elem x ys ≡ true → suc (length (without x ys)) ≤ length ys
unfolding without
length-without x [] h = cc
length-without x (y ∷ ys) h = ground (arith, length-without x ys)

elem-without :
    (x z : String) (ys : List String) → x ≢ z → elem z ys ≡ true → elem z (without x ys) ≡ true
unfolding without
elem-without x z [] n h = cc
elem-without x z (y ∷ ys) n h = ground (arith, eq_iff y x, eq_iff y z, elem-without x z ys n)

subset-without :
    (x : String) (xs ys : List String)
    → elem x xs ≡ false
    → subset xs ys ≡ true
    → subset xs (without x ys) ≡ true
subset-without x [] ys n h = refl
subset-without x (z ∷ xs) ys n h =
    ground (arith, elem-without x z ys (λ e. ground (arith, eq_iff z x)), subset-without x xs ys)

-- A list without repetitions is no longer than a list that has all its members.
pub length-le_of_subset :
    (xs ys : List String) → distinct xs ≡ true → subset xs ys ≡ true → length xs ≤ length ys
length-le_of_subset [] ys d h = omega arith
length-le_of_subset (x ∷ xs) ys d h =
    let off : elem x xs ≡ false = ground arith in
    let rest : distinct xs ≡ true = ground arith in
    let inside : elem x ys ≡ true = ground arith in
    omega (
      arith,
      length-without x ys inside,
      length-le_of_subset xs (without x ys) rest (subset-without x xs ys off (ground arith)),
    )

pub deps_of-known :
    (known : List String) (id : String) (steps : List PlanStep)
    → all_known known steps ≡ true
    → subset (deps_of id steps) known ≡ true
unfolding deps_of
deps_of-known known id [] h = refl
deps_of-known known id (s ∷ steps) h = ground (arith, deps_of-known known id steps)

each-ne-too_deep :
    (known : List String) (call : String → List String → Search)
    → ((x : String) (v : List String) → elem x known ≡ true → call x v ≢ too_deep)
    → (xs v : List String) → subset xs known ≡ true
    → each call xs v ≢ too_deep
each-ne-too_deep known call good [] v h = λ e. cc
each-ne-too_deep known call good (x ∷ xs) v h =
    let first = good x v (ground arith) in
    let rest = λ (u : List String). each-ne-too_deep known call good xs u (ground arith) in
    next (call x v) first rest
  where
    next :
        (r : Search)
        → r ≢ too_deep
        → ((u : List String) → each call xs u ≢ too_deep)
        → and_then r (λ u. each call xs u) ≢ too_deep
    next (done u) n k = k u
    next cycle n k = λ e. cc
    next too_deep n k = absurd (n refl)

visit-ne-too_deep :
    (fuel : ℕ) (steps : List PlanStep) (visiting : List String)
    → all_known (step_ids steps) steps ≡ true
    → distinct visiting ≡ true
    → subset visiting (step_ids steps) ≡ true
    → length (step_ids steps) < fuel + length visiting
    → (id : String) (v : List String) → elem id (step_ids steps) ≡ true
    → visit fuel steps visiting id v ≢ too_deep
unfolding visit
visit-ne-too_deep zero steps visiting k d s h id v known e =
    omega (arith, length-le_of_subset visiting (step_ids steps) d s)
visit-ne-too_deep (suc fuel) steps visiting k d s h id v known e =
    elim (Bool-cases (elem id visiting)) [
      | inl on_stack ↦ ground arith
      | inr off ↦ elim (Bool-cases (elem id v)) [
        | inl old ↦ ground arith
        | inr new ↦
            let inner =
              each-ne-too_deep (step_ids steps) (visit fuel steps (id ∷ visiting))
                (visit-ne-too_deep fuel steps (id ∷ visiting) k (ground arith) (ground arith)
                  (omega arith))
                (deps_of id steps) v (deps_of-known (step_ids steps) id steps k) in
            marked (each (visit fuel steps (id ∷ visiting)) (deps_of id steps) v) inner
              (rw (off, new) at e)
      ]
    ]
  where
    marked : (r : Search) → r ≢ too_deep → and_then r (λ u. done (id ∷ u)) ≡ too_deep → ⊥
    marked (done u) n p = cc
    marked cycle n p = cc
    marked too_deep n p = n refl

length-step_ids : (steps : List PlanStep) → length (step_ids steps) ≡ length steps
length-step_ids [] = refl
length-step_ids (s ∷ steps) = omega (arith, length-step_ids steps)

subset-cons : (xs ys : List String) (y : String) → subset xs ys ≡ true → subset xs (y ∷ ys) ≡ true
subset-cons [] ys y h = refl
subset-cons (x ∷ xs) ys y h = ground (arith, subset-cons xs ys y)

pub subset_refl : (xs : List String) → subset xs xs ≡ true
subset_refl [] = refl
subset_refl (x ∷ xs) = ground (arith, eq_iff x x, subset-cons xs xs x (subset_refl xs))

-- With every dependency among the steps, the search comes to an end by itself.
pub search-ne-too_deep :
    (steps : List PlanStep) → all_known (step_ids steps) steps ≡ true → search_all steps ≢ too_deep
unfolding search_all
search-ne-too_deep steps k =
    each-ne-too_deep (step_ids steps) (visit (suc (length steps)) steps [])
      (visit-ne-too_deep (suc (length steps)) steps [] k refl refl
        (omega (arith, length-step_ids steps)))
      (step_ids steps) [] (subset_refl (step_ids steps))
