-- ===== src/Lifecycle/Action/History.antt =====
-- What the gate of governed actions allows: exactly when a transition succeeds, what a concurrent
-- writer gets, and what a whole history of an action looks like.
use synora_agentic_erp.Prelude.{
  ℕ, zero, suc, ◌+◌, ◌≤◌, String, ◌==◌, ◌≡◌, refl, Bool, true, false, not, ◌&&◌, ◌||◌, inl, inr,
  Option, some, List, [], ◌∷◌, arith, elem, ltb, eq_iff, length, ◌↔◌, Option-cases, if◌then◌else◌,
}
use synora_agentic_erp.Prelude.Int.{pos}
use synora_agentic_erp.Prelude.Result.{ok, err}
use synora_agentic_erp.Lifecycle.Table.{allowed, all_edges, all_edges-allowed}
use synora_agentic_erp.Lifecycle.Version.{VersionValue, int, positive?, stale}
use synora_agentic_erp.Lifecycle.Action.{
  transitions, action_states, changed_concurrently, validate_transition, transition_state,
}

targets_known : all_edges (λ c t. elem t action_states) transitions ≡ true
unfolding transitions
targets_known = refl

validate-allowed : (c t : String) → validate_transition c t ≡ ok tt → allowed transitions c t ≡ true
unfolding validate_transition allowed
validate-allowed c t h = ground arith

validate-eq-ok_of_known :
    (c t : String)
    → elem t action_states ≡ true
    → allowed transitions c t ≡ true
    → validate_transition c t ≡ ok tt
unfolding validate_transition allowed
validate-eq-ok_of_known c t known h = ground arith

allowed-validate : (c t : String) → allowed transitions c t ≡ true → validate_transition c t ≡ ok tt
allowed-validate c t h =
    validate-eq-ok_of_known c t
      (all_edges-allowed (λ _ u. elem u action_states) transitions c t targets_known h) h

-- A transition succeeds just when the version is a positive integer, no other version was
-- expected, and the table has the edge; it then yields the target and the next version.
pub transition_state-eq-ok_iff :
    (c t t' : String) (state_version : VersionValue) (expected : Option VersionValue) (w : ℕ)
    → (transition_state c t state_version expected ≡ ok (t', w)) ↔ (
        (v : ℕ) × (positive? state_version ≡ some v)
        × (stale expected v ≡ false)
        × (allowed transitions c t ≡ true)
        × (t' ≡ t)
        × (w ≡ v + 1))
unfolding transition_state
transition_state-eq-ok_iff c t t' sv e w = (
  λ h. elim (Option-cases (positive? sv)) [
    | inl n ↦ absurd (ground arith)
    | inr (v, p) ↦
        (v, p, ground arith, ground (arith, validate-allowed c t), ground arith, ground arith)
  ],
  λ h. ground (arith, h, allowed-validate c t),
)

transition_state_version :
    (c t : String) (version v' : ℕ) (t' : String) (e : Option VersionValue)
    → transition_state c t (int (pos version)) e ≡ ok (t', v')
    → v' ≡ version + 1
unfolding transition_state
transition_state_version c t zero v' t' e h = cc
transition_state_version c t (suc n) v' t' e h = ground arith

-- Of two writers that expect the same version, the second gets a conflict and changes nothing.
pub second_writer_conflicts :
    (c t u : String) (version v' : ℕ) (t' : String)
    → transition_state c t (int (pos version)) (some (int (pos version))) ≡ ok (t', v')
    → transition_state t' u (int (pos v')) (some (int (pos version))) ≡ err changed_concurrently
unfolding transition_state
second_writer_conflicts c t u zero v' t' h = cc
second_writer_conflicts c t u (suc n) v' t' h =
    let next = transition_state_version c t (suc n) v' t' (some (int (pos (suc n)))) h in
    ground (arith, next)

-- The states that an action has been in, the latest first, its state and its version.
pub data Actions : List String → String → ℕ → Type 0 where
  drafted : {s : String} {v : ℕ} → s ≡ "DRAFT" → v ≡ 1 → Actions [] s v
  move :
      {seen : List String} {s t : String} {v w : ℕ} (expected : Option VersionValue)
      → Actions seen s v
      → transition_state s t (int (pos v)) expected ≡ ok (t, w)
      → Actions (s ∷ seen) t w

rank : String → ℕ
rank s =
    if s == "DRAFT"
    then 0
    else if s == "AWAITING_APPROVAL"
    then 1
    else if s == "APPROVED"
    then 2
    else 3

rank-le : (s : String) → rank s ≤ 3
unfolding rank
rank-le s = ground arith

climbs : String → String → Bool
unfolding rank
climbs c t = ltb (rank c) (rank t)

climbs_table : all_edges climbs transitions ≡ true
unfolding climbs transitions
climbs_table = refl

rank-climbs : (c t : String) → allowed transitions c t ≡ true → suc (rank c) ≤ rank t
unfolding climbs
rank-climbs c t h = ground (arith, all_edges-allowed climbs transitions c t climbs_table h)

length-le-rank : {seen : List String} {s : String} {v : ℕ} → Actions seen s v → length seen ≤ rank s
length-le-rank (drafted e p) = omega arith
length-le-rank (move {seen} {s} {t} {v} {w} expected a h) =
    let (v', p, q, edge, same, r) =
      (transition_state-eq-ok_iff s t t (int (pos v)) expected w).0 h in
    omega (arith, length-le-rank a, rank-climbs s t edge)

version_counts : {seen : List String} {s : String} {v : ℕ} → Actions seen s v → v ≡ length seen + 1
version_counts (drafted e p) = omega arith
version_counts (move {seen} {s} {t} {v} {w} expected a h) =
    omega (arith, version_counts a, transition_state_version s t v w t expected h)

-- An action's version counts its transitions, of which there are never more than three.
pub action_bounded :
    (seen : List String) (s : String) (v : ℕ)
    → Actions seen s v
    → (v ≡ length seen + 1) × (length seen ≤ 3)
action_bounded seen s v a = (version_counts a, omega (arith, length-le-rank a, rank-le s))

-- The one way into each of the states on the way to execution, and none into `DRAFT`.
one_way_in : String → String → Bool
one_way_in c t =
    (not (t == "EXECUTED") || c == "APPROVED")
    && (not (t == "APPROVED") || c == "AWAITING_APPROVAL")
    && (not (t == "AWAITING_APPROVAL") || c == "DRAFT")
    && not (t == "DRAFT")

one_way_in_table : all_edges one_way_in transitions ≡ true
unfolding transitions one_way_in
one_way_in_table = refl

one_way_in_of_step :
    (s t : String) (v w : ℕ) (expected : Option VersionValue)
    → transition_state s t (int (pos v)) expected ≡ ok (t, w)
    → one_way_in s t ≡ true
one_way_in_of_step s t v w expected h =
    let (v', p, q, edge, same, r) =
      (transition_state-eq-ok_iff s t t (int (pos v)) expected w).0 h in
    all_edges-allowed one_way_in transitions s t one_way_in_table edge

draft_first : {seen : List String} {s : String} {v : ℕ} → Actions seen s v → s ≡ "DRAFT" → seen ≡ []
unfolding one_way_in
draft_first (drafted e p) d = refl
draft_first (move {seen} {s} {t} {v} {w} expected a h) d =
    absurd (ground (arith, one_way_in_of_step s t v w expected h, eq_iff t "DRAFT"))

awaiting_seen :
    {seen : List String} {s : String} {v : ℕ}
    → Actions seen s v
    → s ≡ "AWAITING_APPROVAL"
    → seen ≡ "DRAFT" ∷ []
unfolding one_way_in
awaiting_seen (drafted e p) d = absurd (ground (arith, eq_iff "DRAFT" "AWAITING_APPROVAL"))
awaiting_seen (move {seen} {s} {t} {v} {w} expected a h) d =
    let from : s ≡ "DRAFT" = ground (
      arith,
      one_way_in_of_step s t v w expected h,
      eq_iff t "AWAITING_APPROVAL",
      eq_iff s "DRAFT",
    ) in
    cc (from, draft_first a from)

approved_seen :
    {seen : List String} {s : String} {v : ℕ}
    → Actions seen s v
    → s ≡ "APPROVED"
    → seen ≡ "AWAITING_APPROVAL" ∷ "DRAFT" ∷ []
unfolding one_way_in
approved_seen (drafted e p) d = absurd (ground (arith, eq_iff "DRAFT" "APPROVED"))
approved_seen (move {seen} {s} {t} {v} {w} expected a h) d =
    let from : s ≡ "AWAITING_APPROVAL" = ground (
      arith,
      one_way_in_of_step s t v w expected h,
      eq_iff t "APPROVED",
      eq_iff s "AWAITING_APPROVAL",
    ) in
    cc (from, awaiting_seen a from)

-- An executed action was approved, and before that awaited approval, and nothing else happened.
pub executed_was_approved :
    (seen : List String) (s : String) (v : ℕ)
    → Actions seen s v
    → s ≡ "EXECUTED"
    → seen ≡ "APPROVED" ∷ "AWAITING_APPROVAL" ∷ "DRAFT" ∷ []
unfolding one_way_in
executed_was_approved seen s v (drafted e p) d = absurd (ground (arith, eq_iff "DRAFT" "EXECUTED"))
executed_was_approved _ _ _ (move {seen} {s} {t} {v} {w} expected a h) d =
    let from : s ≡ "APPROVED" =
      ground
        (arith, one_way_in_of_step s t v w expected h, eq_iff t "EXECUTED", eq_iff s "APPROVED") in
    cc (from, approved_seen a from)
