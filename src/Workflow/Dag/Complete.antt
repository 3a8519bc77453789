-- ===== src/Workflow/Dag/Complete.antt =====
-- The search accepts exactly the plans whose steps can be ranked above their dependencies.
use synora_agentic_erp.Prelude.{
  ℕ, zero, suc, ◌≤◌, ◌<◌, ◌≡◌, ◌≢◌, ◌↔◌, refl, String, ◌==◌, true, List, [], ◌∷◌, elem, subset,
  distinct, length, arith, eq_iff, Bool-cases, inl, inr, if◌then◌else◌, elem-subset,
}
use synora_agentic_erp.Prelude.Result.{ok}
use synora_agentic_erp.Workflow.Contracts.{PlanStep, step_ids}
use synora_agentic_erp.Workflow.Dag.{
  Search, done, cycle, too_deep, and_then, each, visit, deps_of, search_all, all_known,
  ordered_from, search_result, validate_plan_dag,
}
use synora_agentic_erp.Workflow.Dag.Sound.{Closed, search-Closed}
use synora_agentic_erp.Workflow.Dag.Fuel.{search-ne-too_deep}

-- Every step ranks above the steps that it depends on.
abbrev pub Ranks : List PlanStep → (String → ℕ) → Type 0
Ranks steps rank = (id d : String) → elem d (deps_of id steps) ≡ true → rank d < rank id

-- What a plan has to be.
pub record IsPlan (steps : List PlanStep) : Type 0 where
  pub unique : distinct (step_ids steps) ≡ true
  pub ordered : ordered_from 1 steps ≡ true
  pub known : all_known (step_ids steps) steps ≡ true
  pub rank : String → ℕ
  pub ranks : Ranks steps rank

-- The place of the last occurrence of an id in a list, counted from the end.
height : String → List String → ℕ
height id [] = 0
height id (x ∷ r) = if elem id r then height id r else if x == id then suc (length r) else 0

height-le : (id : String) (w : List String) → height id w ≤ length w
unfolding height
height-le id [] = omega arith
height-le id (x ∷ r) = ground (arith, height-le id r)

height_falls :
    (steps : List PlanStep) (w : List String) (id d : String)
    → Closed steps w
    → elem id w ≡ true
    → elem d (deps_of id steps) ≡ true
    → (elem d w ≡ true) × (height d w < height id w)
unfolding height
height_falls steps [] id d c i h = cc
height_falls steps (x ∷ r) id d c i h = elim (Bool-cases (elem id r)) [
  | inl later ↦
      let ih = height_falls steps r id d c.1 later h in (ground (arith, ih), ground (arith, ih))
  | inr last ↦
      let same : x ≡ id = ground (arith, eq_iff x id) in
      let behind : elem d r ≡ true = elem-subset d (deps_of id steps) r (rw (← same) c.0) h in
      (ground (arith, behind), ground (arith, behind, height-le d r, eq_iff x id))
]

has_deps :
    (steps : List PlanStep) (id d : String)
    → elem d (deps_of id steps) ≡ true
    → elem id (step_ids steps) ≡ true
unfolding deps_of
has_deps [] id d h = cc
has_deps (s ∷ steps) id d h = ground (arith, has_deps steps id d)

Closed-Ranks :
    (steps : List PlanStep) (w : List String)
    → Closed steps w
    → subset (step_ids steps) w ≡ true
    → Ranks steps (λ id. height id w)
Closed-Ranks steps w c s id d h =
    (height_falls steps w id d c (elem-subset id (step_ids steps) w s (has_deps steps id d h)) h).1

-- Every id on the stack ranks above the id that is visited.
abbrev Above : (String → ℕ) → String → List String → Type 0
Above rank id visiting = (x : String) → elem x visiting ≡ true → rank id < rank x

each-ne-cycle :
    (call : String → List String → Search) (xs : List String)
    → ((x : String) (v : List String) → elem x xs ≡ true → call x v ≢ cycle)
    → (v : List String) → each call xs v ≢ cycle
each-ne-cycle call [] good v = λ e. cc
each-ne-cycle call (x ∷ xs) good v =
    next (call x v) (good x v (ground (arith, eq_iff x x)))
      (each-ne-cycle call xs (λ y u h. good y u (ground arith)))
  where
    next :
        (r : Search)
        → r ≢ cycle
        → ((u : List String) → each call xs u ≢ cycle)
        → and_then r (λ u. each call xs u) ≢ cycle
    next (done u) n k = k u
    next cycle n k = absurd (n refl)
    next too_deep n k = λ e. cc

and_then-eq-cycle : (id : String) (r : Search) → and_then r (λ u. done (id ∷ u)) ≡ cycle → r ≡ cycle
and_then-eq-cycle id (done u) h = cc
and_then-eq-cycle id cycle h = refl
and_then-eq-cycle id too_deep h = cc

module _ (steps : List PlanStep) (rank : String → ℕ) (ranks : Ranks steps rank) where
  visit-ne-cycle :
      (fuel : ℕ) (visiting : List String) (id : String) (v : List String)
      → Above rank id visiting
      → visit fuel steps visiting id v ≢ cycle
  unfolding visit
  visit-ne-cycle zero visiting id v a e = cc
  visit-ne-cycle (suc fuel) visiting id v a e = elim (Bool-cases (elem id visiting)) [
    | inl on_stack ↦ omega (arith, a id on_stack)
    | inr off ↦ elim (Bool-cases (elem id v)) [
      | inl old ↦ ground arith
      | inr new ↦
          each-ne-cycle (visit fuel steps (id ∷ visiting)) (deps_of id steps)
            (λ d u h.
              visit-ne-cycle fuel (id ∷ visiting) d u
                (λ x p. ground (arith, ranks id d h, a x, eq_iff id x)))
            v
            (and_then-eq-cycle id (each (visit fuel steps (id ∷ visiting)) (deps_of id steps) v)
              (rw (off, new) at e))
    ]
  ]

  search-ne-cycle : search_all steps ≢ cycle
  unfolding search_all
  search-ne-cycle =
      each-ne-cycle (visit (suc (length steps)) steps []) (step_ids steps)
        (λ x v h. visit-ne-cycle (suc (length steps)) [] x v (λ y p. cc)) []

accepted :
    (steps : List PlanStep) (r : Search)
    → search_all steps ≡ r
    → search_result r ≡ ok tt
    → all_known (step_ids steps) steps ≡ true
    → distinct (step_ids steps) ≡ true
    → ordered_from 1 steps ≡ true
    → IsPlan steps
accepted steps (done w) e h k u o =
    let (closed, all) = search-Closed steps w e in
    record {
      unique = u;
      ordered = o;
      known = k;
      rank = λ id. height id w;
      ranks = Closed-Ranks steps w closed all;
    }
accepted steps cycle e h k u o = cc
accepted steps too_deep e h k u o = cc

result_ok : (r : Search) → r ≢ cycle → r ≢ too_deep → search_result r ≡ ok tt
result_ok (done w) c t = refl
result_ok cycle c t = absurd (c refl)
result_ok too_deep c t = absurd (t refl)

-- `validate_plan_dag` accepts a list of steps exactly if their ids are distinct, their orders count
-- up from 1, their dependencies are among them, and no step depends on itself, however indirectly:
-- the steps can be ranked above their dependencies.
pub validate_plan_dag-eq-ok_iff :
    (steps : List PlanStep) → (validate_plan_dag steps ≡ ok tt) ↔ IsPlan steps
unfolding validate_plan_dag
validate_plan_dag-eq-ok_iff steps = (
  λ h.
      accepted steps (search_all steps) refl (ground arith) (ground arith) (ground arith)
        (ground arith),
  λ p. ground (
    arith,
    p.unique,
    p.ordered,
    p.known,
    result_ok (search_all steps) (search-ne-cycle steps p.rank p.ranks)
        (search-ne-too_deep steps p.known),
  ),
)
