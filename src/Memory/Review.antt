-- ===== src/Memory/Review.antt =====
-- What the review decisions of memory/decisions.py guarantee of the records that they return.
use synora_agentic_erp.Prelude.{
  ℕ, ◌+◌, ◌≤◌, ◌≡◌, ◌≢◌, refl, sym, ap, ◌∙◌, String, true, false, Option, none, some, inl, inr,
  arith, eq_refl, text?_eq, false≢true, ◌==◌,
}
use synora_agentic_erp.Prelude.Int.{pos}
use synora_agentic_erp.Prelude.Result.{ok, Result-cases}
use synora_agentic_erp.Lifecycle.Version.{VersionValue, int}
use synora_agentic_erp.Lifecycle.Memory.{transition_state}
use synora_agentic_erp.Lifecycle.Memory.History.{review_moves}
use synora_agentic_erp.Memory.Contracts.{
  MemoryRecord, MemoryScope, Moment, aware, working, kind_eq, scope_matches, past, validate_record,
  is_recallable,
}
use synora_agentic_erp.Memory.Decisions.{
  review_context, approve_candidate, reject_candidate, rebuild, approved, ensure_not_expired,
}

pub rebuild-ok :
    (sha256 : String → String) (r r' : MemoryRecord)
    → rebuild sha256 r ≡ ok r'
    → (r' ≡ r) × (validate_record sha256 r' ≡ ok tt)
unfolding rebuild
rebuild-ok sha256 r r' h = elim (Result-cases (validate_record sha256 r)) [
  | inl (u, v) ↦ let same : r' ≡ r = ground arith in (same, rw same v)
  | inr (e, v) ↦ absurd (ground arith)
]

-- What a successful review has checked: the name of the reviewer, the instant of the review and that
-- of the decision; what it has made of the state version; and that the record was a candidate.
abbrev pub Reviews : MemoryRecord → Option String → Moment → Moment → String → ℕ → ℕ → Type 0
Reviews c reviewer reviewed_at now name reviewed t =
    (review_context reviewer reviewed_at now ≡ ok (name, reviewed, t))
    × (kind_eq c.kind working ≡ false)
    × (past c.expires_at t ≡ false)
    × (c.state ≡ "CANDIDATE")

approve_candidate-ok :
    (sha256 : String → String) (c : MemoryRecord) (reviewer : Option String)
    (reviewed_at now : Moment) (expected : VersionValue) (r : MemoryRecord)
    → approve_candidate sha256 c reviewer reviewed_at now expected ≡ ok r
    → (name : String) × (reviewed : ℕ) × (t : ℕ) × Reviews c reviewer reviewed_at now name reviewed
        t
      × (r ≡ approved c name reviewed ("APPROVED", c.state_version + 1))
      × (validate_record sha256 r ≡ ok tt)
unfolding approve_candidate ensure_not_expired
approve_candidate-ok sha256 c reviewer reviewed_at now expected r h =
    elim (Result-cases (review_context reviewer reviewed_at now)) [
      | inr (e, p) ↦ absurd (ground arith)
      | inl ((name, reviewed, t), p) ↦
          elim (Result-cases
            (transition_state c.state "APPROVED" (int (pos c.state_version)) (some expected))) [
              | inr (e, q) ↦ absurd (ground arith)
              | inl ((s, w), q) ↦
                  let (a, b, from) =
                    review_moves c.state "APPROVED" s c.state_version w (some expected) refl q in
                  let built : rebuild sha256 (approved c name reviewed (s, w)) ≡ ok r =
                    ground arith in
                  let (same, valid) = rebuild-ok sha256 (approved c name reviewed (s, w)) r built in
                  (
                    name,
                    reviewed,
                    t,
                    (p, ground arith, ground arith, from),
                    same ∙ rw (a, b) refl,
                    valid,
                  )
            ]
    ]

reject_candidate-ok :
    (sha256 : String → String) (c : MemoryRecord) (reviewer : Option String)
    (reviewed_at now : Moment) (expected : VersionValue) (reason : Option String) (r : MemoryRecord)
    → reject_candidate sha256 c reviewer reviewed_at now expected reason ≡ ok r
    → (c.state ≡ "CANDIDATE") × (r.state ≡ "REJECTED")
unfolding reject_candidate
reject_candidate-ok sha256 c reviewer reviewed_at now expected reason r h =
    elim (Result-cases (review_context reviewer reviewed_at now)) [
      | inr (e, p) ↦ absurd (ground arith)
      | inl ((name, reviewed, t), p) ↦
          elim (Result-cases
            (transition_state c.state "REJECTED" (int (pos c.state_version)) (some expected))) [
              | inr (e, q) ↦ absurd (ground arith)
              | inl ((s, w), q) ↦
                  let (a, b, from) =
                    review_moves c.state "REJECTED" s c.state_version w (some expected) refl q in
                  let built : rebuild sha256
                        (record (approved c name reviewed (s, w)) { review_reason = reason })
                      ≡ ok r =
                    ground arith in
                  let (same, valid) =
                    rebuild-ok sha256
                      (record (approved c name reviewed (s, w)) { review_reason = reason }) r
                      built in
                  (from, ap (λ r. r.state) same ∙ a)
            ]
    ]

pub review_context-ok :
    (reviewer : Option String) (reviewed_at : Moment) (t : ℕ) (name : String) (reviewed t' : ℕ)
    → review_context reviewer reviewed_at (aware t) ≡ ok (name, reviewed, t')
    → (t' ≡ t) × (reviewed ≤ t)
unfolding review_context
review_context-ok reviewer reviewed_at t name reviewed t' h = ground arith

text?_eq_refl : (o : Option String) → text?_eq o o ≡ true
text?_eq_refl none = refl
text?_eq_refl (some t) = eq_refl t

scope_matches_refl : (s : MemoryScope) → scope_matches s s ≡ true
unfolding scope_matches
scope_matches_refl s = ground (
  arith,
  eq_refl s.initiator,
  eq_refl s.company,
  text?_eq_refl s.warehouse,
  text?_eq_refl s.run_id,
)

pub approved_recallable :
    (c : MemoryRecord) (name : String) (reviewed w u : ℕ)
    → kind_eq c.kind working ≡ false
    → reviewed ≤ u
    → past c.expires_at u ≡ false
    → is_recallable (approved c name reviewed ("APPROVED", w)) c.scope (aware u) ≡ true
unfolding is_recallable
approved_recallable c name reviewed w u k l e = ground (arith, scope_matches_refl c.scope)

-- A candidate that is approved at an instant t satisfies all invariants of a record, and from t on,
-- until it expires, the recall in its own scope lets it through.
pub approved_is_recallable :
    (sha256 : String → String) (c : MemoryRecord) (reviewer : Option String) (reviewed_at : Moment)
    (t : ℕ) (expected : VersionValue) (r : MemoryRecord)
    → approve_candidate sha256 c reviewer reviewed_at (aware t) expected ≡ ok r
    → (validate_record sha256 r ≡ ok tt)
      × ((u : ℕ) → t ≤ u → past c.expires_at u ≡ false → is_recallable r c.scope (aware u) ≡ true)
approved_is_recallable sha256 c reviewer reviewed_at t expected r h =
    let (name, reviewed, t', (p, k, _, _), same, valid) =
      approve_candidate-ok sha256 c reviewer reviewed_at (aware t) expected r h in
    let (_, before) = review_context-ok reviewer reviewed_at t name reviewed t' p in
    (
      valid,
      λ u later alive. rw same (
          approved_recallable c name reviewed (c.state_version + 1) u k
            (omega (arith, later, before)) alive),
    )

candidate_not_approved : {s : String} → s ≡ "CANDIDATE" → s ≢ "APPROVED"
candidate_not_approved {s} c a = false≢true (ap (λ x. x == "CANDIDATE") (sym a ∙ c))

-- A record that was approved is decided: whoever tries, with whatever arguments, it is neither approved
-- again nor rejected.
pub decided_once :
    (sha256 : String → String) (c : MemoryRecord) (reviewer : Option String)
    (reviewed_at now : Moment) (expected : VersionValue) (r : MemoryRecord)
    → approve_candidate sha256 c reviewer reviewed_at now expected ≡ ok r
    → (reviewer' : Option String) (reviewed_at' now' : Moment) (expected' : VersionValue)
      (reason : Option String) (r' : MemoryRecord)
    → (approve_candidate sha256 r reviewer' reviewed_at' now' expected' ≢ ok r')
      × (reject_candidate sha256 r reviewer' reviewed_at' now' expected' reason ≢ ok r')
decided_once sha256 c reviewer reviewed_at now expected r h reviewer' reviewed_at' now' expected'
      reason r' =
    let (name, reviewed, t, _, same, _) =
      approve_candidate-ok sha256 c reviewer reviewed_at now expected r h in
    let state : r.state ≡ "APPROVED" = ap (λ r. r.state) same in
    (
      λ again.
          let (_, _, _, (_, _, _, from), _, _) =
            approve_candidate-ok sha256 r reviewer' reviewed_at' now' expected' r' again in
          candidate_not_approved from state,
      λ again.
          candidate_not_approved
            (reject_candidate-ok sha256 r reviewer' reviewed_at' now' expected' reason r' again).0
            state,
    )
