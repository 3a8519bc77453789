-- ===== src/Lifecycle/Memory/History.antt =====
-- What the gate of memory records allows: exactly when a transition succeeds, and that a record
-- that has left approval never comes back to it.
use synora_agentic_erp.Prelude.{
  ℕ, suc, ◌+◌, ◌≤◌, ◌≡◌, ◌↔◌, ◌≢◌, ap, refl, String, ◌==◌, eq_iff, Bool, true, ◌&&◌, inl, inr, ◌||◌,
  Option, none, some, arith, elem, Option-cases, ltb, if◌then◌else◌,
}
use synora_agentic_erp.Prelude.Int.{pos}
use synora_agentic_erp.Prelude.Result.{ok, guard, ◌>>◌}
use synora_agentic_erp.Lifecycle.Table.{allowed, all_edges, all_edges-allowed}
use synora_agentic_erp.Lifecycle.Version.{VersionValue, int, positive?}
use synora_agentic_erp.Lifecycle.Memory.{
  memory_states, transitions, validate_transition, transition_state, invalid_state,
  invalid_transition,
}

known : String → String → Bool
known c t = elem c memory_states && elem t memory_states

known_edges : all_edges known transitions ≡ true
unfolding known transitions
known_edges = refl

last_guard :
    {E : Type 0} (a b c : Bool) (e f g : E)
    → (guard a e >> (guard b f >> guard c g)) ≡ ok tt
    → c ≡ true
last_guard a b c e f g h = ground arith

three_guards :
    {E : Type 0} (a b c : Bool) (e f g : E)
    → (a && b) ≡ true
    → c ≡ true
    → (guard a e >> (guard b f >> guard c g)) ≡ ok tt
three_guards a b c e f g h k = ground arith

validate-allowed : (c t : String) → validate_transition c t ≡ ok tt → allowed transitions c t ≡ true
unfolding validate_transition
validate-allowed c t h =
    last_guard (elem c memory_states) (elem t memory_states) (allowed transitions c t)
      (invalid_state "current Memory state is invalid")
      (invalid_state "target Memory state is invalid") invalid_transition h

allowed-validate : (c t : String) → allowed transitions c t ≡ true → validate_transition c t ≡ ok tt
unfolding validate_transition known
allowed-validate c t h =
    three_guards (elem c memory_states) (elem t memory_states) (allowed transitions c t)
      (invalid_state "current Memory state is invalid")
      (invalid_state "target Memory state is invalid") invalid_transition
      (all_edges-allowed known transitions c t known_edges h) h

-- A transition is valid just when the table has the edge.
validate-eq-ok_iff :
    (c t : String) → (validate_transition c t ≡ ok tt) ↔ (allowed transitions c t ≡ true)
validate-eq-ok_iff c t = (validate-allowed c t, allowed-validate c t)

-- No version was expected, or the current one.
abbrev pub Expects : Option VersionValue → ℕ → Type 0
Expects none v = Unit
Expects (some e) v = positive? e ≡ some v

-- A transition succeeds just when the state version is a positive integer, no other version is
-- expected, and the table has the edge; it then yields the target and the next version.
pub memory_transition-eq-ok_iff :
    (c t t' : String) (state_version : VersionValue) (expected : Option VersionValue) (w : ℕ)
    → (transition_state c t state_version expected ≡ ok (t', w)) ↔ (
        (v : ℕ) × (positive? state_version ≡ some v)
        × Expects expected v
        × (allowed transitions c t ≡ true)
        × (t' ≡ t)
        × (w ≡ v + 1))
unfolding transition_state
memory_transition-eq-ok_iff c t t' sv none w = (
  λ h. elim (Option-cases (positive? sv)) [
    | inl n ↦ absurd (ground arith)
    | inr (v, p) ↦
        (v, p, tt, ground (arith, (validate-eq-ok_iff c t).0), ground arith, ground arith)
  ],
  λ h. ground (arith, h, (validate-eq-ok_iff c t).1),
)
memory_transition-eq-ok_iff c t t' sv (some e) w = (
  λ h. elim (Option-cases (positive? sv)) [
    | inl n ↦ absurd (ground arith)
    | inr (v, p) ↦
        (v, p, ground arith, ground (arith, (validate-eq-ok_iff c t).0), ground arith, ground arith)
  ],
  λ h. ground (arith, h, (validate-eq-ok_iff c t).1),
)

-- `Lives s n t`: n transitions, each with some version and expectation, lead from s to t.
pub data Lives (s : String) : ℕ → String → Type 0 where
  here : {t : String} → s ≡ t → Lives s 0 t
  step :
      {n : ℕ} {t u : String} (version : ℕ) (expected : Option VersionValue) (w : ℕ)
      → Lives s n t
      → transition_state t u (int (pos version)) expected ≡ ok (u, w)
      → Lives s (suc n) u

rank : String → ℕ
rank s =
    if s == "CANDIDATE" then 0 else if s == "APPROVED" then 1 else if s == "DELETED" then 3 else 2

climbs : String → String → Bool
unfolding rank
climbs c t = ltb (rank c) (rank t)

climbs_table : all_edges climbs transitions ≡ true
unfolding climbs transitions
climbs_table = refl

rank-climbs :
    (t u : String) (version w : ℕ) (expected : Option VersionValue)
    → transition_state t u (int (pos version)) expected ≡ ok (u, w)
    → suc (rank t) ≤ rank u
unfolding climbs
rank-climbs t u version w expected h =
    let (v', p, q, edge, same, r) =
      (memory_transition-eq-ok_iff t u u (int (pos version)) expected w).0 h in
    ground (arith, all_edges-allowed climbs transitions t u climbs_table edge)

add-rank-le : {s t : String} {n : ℕ} → Lives s n t → rank s + n ≤ rank t
add-rank-le (here e) = rw e (omega arith)
add-rank-le (step {n} {t} {u} version expected w l h) =
    omega (arith, add-rank-le l, rank-climbs t u version w expected h)

rank-le : (s : String) → rank s ≤ 3
unfolding rank
rank-le s = ground arith

rank_past_approval : (s : String) → s ≢ "CANDIDATE" → s ≢ "APPROVED" → 2 ≤ rank s
unfolding rank
rank_past_approval s p q = ground (arith, eq_iff s "CANDIDATE", eq_iff s "APPROVED")

rank_approved : rank "APPROVED" ≡ 1
unfolding rank
rank_approved = refl

-- A record changes its state three times at most.
pub changes_bounded : (s t : String) (n : ℕ) → Lives s n t → n ≤ 3
changes_bounded s t n l = omega (arith, add-rank-le l, rank-le t)

-- A record that was rejected, superseded, expired or deleted is never approved again.
pub never_approved_again :
    (s t : String) (n : ℕ) → Lives s n t → s ≢ "CANDIDATE" → s ≢ "APPROVED" → t ≢ "APPROVED"
never_approved_again s t n l p q e =
    omega (arith, add-rank-le l, rank_past_approval s p q, rank_approved, ap rank e)

-- A move to one of the three states below has come from the one state that leads there.
leads_to : String → String → Bool
leads_to c t =
    if t == "APPROVED" || t == "REJECTED"
    then c == "CANDIDATE"
    else if t == "SUPERSEDED"
    then c == "APPROVED"
    else true

leads_to_table : all_edges leads_to transitions ≡ true
unfolding leads_to transitions
leads_to_table = refl

reviewed_from :
    (c t : String)
    → leads_to c t ≡ true
    → (t == "APPROVED" || t == "REJECTED") ≡ true
    → c ≡ "CANDIDATE"
unfolding leads_to
reviewed_from c t h k = ground (arith, eq_iff c "CANDIDATE")

superseded_from : (c : String) → leads_to c "SUPERSEDED" ≡ true → c ≡ "APPROVED"
unfolding leads_to
superseded_from c h = ground (arith, eq_iff c "APPROVED")

gate :
    (c t s : String) (v w : ℕ) (e : Option VersionValue)
    → transition_state c t (int (pos v)) e ≡ ok (s, w)
    → (s ≡ t) × (w ≡ v + 1) × (leads_to c t ≡ true)
gate c t s v w e h =
    let (v', p, q, edge, same, r) = (memory_transition-eq-ok_iff c t s (int (pos v)) e w).0 h in
    (same, ground arith, all_edges-allowed leads_to transitions c t leads_to_table edge)

-- What a review does to the state and the state version.
pub review_moves :
    (c t s : String) (v w : ℕ) (e : Option VersionValue)
    → (t == "APPROVED" || t == "REJECTED") ≡ true
    → transition_state c t (int (pos v)) e ≡ ok (s, w)
    → (s ≡ t) × (w ≡ v + 1) × (c ≡ "CANDIDATE")
review_moves c t s v w e k h = let (a, b, l) = gate c t s v w e h in (a, b, reviewed_from c t l k)

pub supersede_moves :
    (c s : String) (v w : ℕ) (e : Option VersionValue)
    → transition_state c "SUPERSEDED" (int (pos v)) e ≡ ok (s, w)
    → (s ≡ "SUPERSEDED") × (w ≡ v + 1) × (c ≡ "APPROVED")
supersede_moves c s v w e h =
    let (a, b, l) = gate c "SUPERSEDED" s v w e h in (a, b, superseded_from c l)
