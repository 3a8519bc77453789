-- ===== src/Workflow/Dag/Sound.antt =====
-- A plan that the search accepts can be listed with every step behind its dependencies.
use synora_agentic_erp.Prelude.{
  ℕ, zero, suc, ◌≡◌, refl, subst, length, String, true, List, [], ◌∷◌, elem, subset, subset_mono,
  arith, eq_iff, Bool-cases, inl, inr,
}
use synora_agentic_erp.Workflow.Contracts.{PlanStep, step_ids}
use synora_agentic_erp.Workflow.Dag.{
  Search, done, cycle, too_deep, and_then, each, visit, deps_of, search_all,
}

-- Each listed step stands before its dependencies.
abbrev pub Closed : List PlanStep → List String → Type 0
Closed steps [] = Unit
Closed steps (id ∷ rest) = (subset (deps_of id steps) rest ≡ true) × Closed steps rest

abbrev Extends : List String → List String → Type 0
Extends v w = (x : String) → elem x v ≡ true → elem x w ≡ true

-- What a call of the search that returns has done for `id`.
record Visits (steps : List PlanStep) (ids v w : List String) : Type 0 where
  closed : Closed steps w
  extends : Extends v w
  has : subset ids w ≡ true

and_then-eq-done :
    (r : Search) (next : List String → Search) {w : List String}
    → and_then r next ≡ done w
    → (v : List String) × (r ≡ done v) × (next v ≡ done w)
and_then-eq-done (done v) next h = (v, refl, h)
and_then-eq-done cycle next h = cc
and_then-eq-done too_deep next h = cc

-- Every call of `call` that returns visits its argument.
abbrev AlwaysVisits : List PlanStep → (String → List String → Search) → Type 0
AlwaysVisits steps call =
    (x : String) (v w : List String)
    → Closed steps v
    → call x v ≡ done w
    → Visits steps (x ∷ []) v w

module _ (steps : List PlanStep) (call : String → List String → Search)
    (good : AlwaysVisits steps call) where
  each-Visits :
      (xs v w : List String) → Closed steps v → each call xs v ≡ done w → Visits steps xs v w
  each-Visits [] v w c h =
      let same : v ≡ w = cc in
      record { closed = subst (Closed steps) same c; extends = λ x e. rw (← same) e; has = refl }
  each-Visits (x ∷ xs) v w c h =
      let (u, e, k) = and_then-eq-done (call x v) (λ u. each call xs u) h in
      let first = good x v u c e in
      let rest = each-Visits xs u w first.closed k in
      record {
        closed = rest.closed;
        extends = λ y p. rest.extends y (first.extends y p);
        has = ground (arith, rest.has, subset_mono (x ∷ []) u w rest.extends first.has);
      }

visit-Visits :
    (fuel : ℕ) (steps : List PlanStep) (visiting : List String)
    → AlwaysVisits steps (visit fuel steps visiting)
unfolding visit
visit-Visits zero steps visiting id v w c h = cc
visit-Visits (suc fuel) steps visiting id v w c h = elim (Bool-cases (elem id visiting)) [
  | inl on_stack ↦ absurd (ground arith)
  | inr off ↦ elim (Bool-cases (elem id v)) [
    | inl old ↦
        let same : v ≡ w = ground arith in
        record {
          closed = subst (Closed steps) same c;
          extends = λ x e. rw (← same) e;
          has = ground (arith, same, old);
        }
    | inr new ↦
        let k : and_then (each (visit fuel steps (id ∷ visiting)) (deps_of id steps) v)
              (λ u. done (id ∷ u))
            ≡ done w =
          rw (off, new) at h in
        let (u, e, same) =
          and_then-eq-done (each (visit fuel steps (id ∷ visiting)) (deps_of id steps) v)
            (λ u. done (id ∷ u)) k in
        let inner =
          each-Visits steps (visit fuel steps (id ∷ visiting))
            (visit-Visits fuel steps (id ∷ visiting)) (deps_of id steps) v u c e in
        let w_is : id ∷ u ≡ w = cc same in
        record {
          closed = subst (Closed steps) w_is (inner.has, inner.closed);
          extends = λ x p. rw (← w_is) (ground (arith, inner.extends x p));
          has = rw (← w_is) (ground (arith, eq_iff id id));
        }
  ]
]

-- A search that ends without a cycle has listed every step, each before its dependencies.
pub search-Closed :
    (steps : List PlanStep) (w : List String)
    → search_all steps ≡ done w
    → Closed steps w × (subset (step_ids steps) w ≡ true)
unfolding search_all
search-Closed steps w h =
    let all =
      each-Visits steps (visit (suc (length steps)) steps [])
        (visit-Visits (suc (length steps)) steps []) (step_ids steps) [] w tt h in
    (all.closed, all.has)
