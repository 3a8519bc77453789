-- ===== src/Memory/Correction.antt =====
-- What approve_correction of memory/decisions.py guarantees of the pair that it returns.
use synora_agentic_erp.Prelude.{
  ℕ, ◌+◌, ◌≤◌, ◌≡◌, sym, refl, ap, ◌∙◌, String, true, false, Option, some, inl, inr, arith,
  text?_eq, nat_eq_iff, eq_iff, text?_eq-eq,
}
use synora_agentic_erp.Prelude.Int.{pos}
use synora_agentic_erp.Prelude.Result.{ok, Result-cases}
use synora_agentic_erp.Lifecycle.Version.{VersionValue, int}
use synora_agentic_erp.Lifecycle.Memory.{transition_state}
use synora_agentic_erp.Lifecycle.Memory.History.{review_moves, supersede_moves}
use synora_agentic_erp.Memory.Contracts.{
  MemoryRecord, MemoryScope, Moment, aware, naive, working, kind_eq, scope_matches, past,
  validate_record, is_recallable,
}
use synora_agentic_erp.Memory.Decisions.{
  review_context, approve_correction, rebuild, approved, check_predecessor,
}
use synora_agentic_erp.Memory.Review.{rebuild-ok, review_context-ok, approved_recallable}

check_predecessor-ok :
    (c p : MemoryRecord) (t : ℕ)
    → check_predecessor c p t ≡ ok tt
    → (kind_eq c.kind working ≡ false)
      × (text?_eq c.supersedes_memory_id p.memory_id ≡ true)
      × (scope_matches c.scope p.scope ≡ true)
      × (c.version ≡ p.version + 1)
unfolding check_predecessor
check_predecessor-ok c p t h =
    (ground arith, ground arith, ground arith, ground (arith, nat_eq_iff c.version (p.version + 1)))

-- What a successful correction has checked and made.
abbrev Corrects :
    (String → String)
    → MemoryRecord
    → MemoryRecord
    → ℕ
    → ℕ
    → String
    → MemoryRecord
    → MemoryRecord
    → Type 0
Corrects sha256 c p t reviewed name n q =
    (check_predecessor c p t ≡ ok tt)
    × (c.state ≡ "CANDIDATE")
    × (p.state ≡ "APPROVED")
    × (n ≡ approved c name reviewed ("APPROVED", c.state_version + 1))
    × (q ≡ record p { state = "SUPERSEDED"; state_version = p.state_version + 1 })
    × (validate_record sha256 n ≡ ok tt)
    × (validate_record sha256 q ≡ ok tt)

approve_correction-ok :
    (sha256 : String → String) (c p : MemoryRecord) (reviewer : Option String)
    (reviewed_at now : Moment) (ec ep : VersionValue) (n q : MemoryRecord)
    → approve_correction sha256 c p reviewer reviewed_at now ec ep ≡ ok (n, q)
    → (name : String) × (reviewed : ℕ) × (t : ℕ) × (review_context reviewer reviewed_at now
        ≡ ok (name, reviewed, t))
      × Corrects sha256 c p t reviewed name n q
unfolding approve_correction
approve_correction-ok sha256 c p reviewer reviewed_at now ec ep n q h =
    elim (Result-cases (review_context reviewer reviewed_at now)) [
      | inr (e, x) ↦ absurd (ground arith)
      | inl ((name, reviewed, t), x) ↦
          elim (Result-cases
            (transition_state c.state "APPROVED" (int (pos c.state_version)) (some ec))) [
              | inr (e, y) ↦ absurd (ground arith)
              | inl ((s, w), y) ↦
                  elim (Result-cases
                    (transition_state p.state "SUPERSEDED" (int (pos p.state_version)) (some ep))) [
                      | inr (e, z) ↦ absurd (ground arith)
                      | inl ((s', w'), z) ↦
                          let (a, b, from) =
                            review_moves c.state "APPROVED" s c.state_version w (some ec) refl y in
                          let (a', b', from') =
                            supersede_moves p.state s' p.state_version w' (some ep) z in
                          let built : rebuild sha256 (approved c name reviewed (s, w)) ≡ ok n =
                            ground arith in
                          let built' : rebuild sha256 (record p { state = s'; state_version = w' })
                              ≡ ok q =
                            ground arith in
                          let (same, valid) =
                            rebuild-ok sha256 (approved c name reviewed (s, w)) n built in
                          let (same', valid') =
                            rebuild-ok sha256 (record p { state = s'; state_version = w' }) q
                              built' in
                          (
                            name,
                            reviewed,
                            t,
                            x,
                            (
                              ground arith,
                              from,
                              from',
                              same ∙ rw (a, b) refl,
                              same' ∙ rw (a', b') refl,
                              valid,
                              valid',
                            ),
                          )
                    ]
            ]
    ]

superseded_hidden :
    (p : MemoryRecord) (w : ℕ) (scope : MemoryScope) (u : Moment)
    → is_recallable (record p { state = "SUPERSEDED"; state_version = w }) scope u ≡ false
unfolding is_recallable
superseded_hidden p w scope naive = refl
superseded_hidden p w scope (aware u) = ground arith

scope_eq : (s t : MemoryScope) → scope_matches s t ≡ true → s ≡ t
unfolding scope_matches
scope_eq s t h = ground (
  arith,
  eq_iff s.initiator t.initiator,
  eq_iff s.company t.company,
  text?_eq-eq s.warehouse t.warehouse,
  text?_eq-eq s.run_id t.run_id,
)

-- A correction that is approved at an instant t comes with its predecessor, superseded: both records
-- satisfy all invariants, the correction names the predecessor and has the next version, the
-- predecessor is recalled in no scope at no instant, and from t until it expires the correction is
-- recalled in the scope of the predecessor.
pub correction_replaces :
    (sha256 : String → String) (c p : MemoryRecord) (reviewer : Option String)
    (reviewed_at : Moment) (t : ℕ) (ec ep : VersionValue) (n q : MemoryRecord)
    → approve_correction sha256 c p reviewer reviewed_at (aware t) ec ep ≡ ok (n, q)
    → (validate_record sha256 n ≡ ok tt)
      × (validate_record sha256 q ≡ ok tt)
      × (n.supersedes_memory_id ≡ q.memory_id)
      × (n.version ≡ q.version + 1)
      × ((scope : MemoryScope) (u : Moment) → is_recallable q scope u ≡ false)
      × ((u : ℕ) → t ≤ u → past c.expires_at u ≡ false → is_recallable n p.scope (aware u) ≡ true)
correction_replaces sha256 c p reviewer reviewed_at t ec ep n q h =
    let (name, reviewed, t', x, (checked, _, _, same, same', valid, valid')) =
      approve_correction-ok sha256 c p reviewer reviewed_at (aware t) ec ep n q h in
    let (durable, names, scopes, next) = check_predecessor-ok c p t' checked in
    let (_, before) = review_context-ok reviewer reviewed_at t name reviewed t' x in
    (
      valid,
      valid',
      ap (λ r. r.supersedes_memory_id) same
          ∙ text?_eq-eq c.supersedes_memory_id p.memory_id names
          ∙ sym (ap (λ r. r.memory_id) same'),
      ap (λ r. r.version) same ∙ next ∙ sym (ap (λ r. r.version + 1) same'),
      (λ scope u. rw same' (superseded_hidden p (p.state_version + 1) scope u)),
      (λ u later alive.
          rw (same, sym (scope_eq c.scope p.scope scopes))
            (approved_recallable c name reviewed (c.state_version + 1) u durable
              (omega (arith, later, before)) alive)),
    )
