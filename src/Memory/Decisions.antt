-- ===== src/Memory/Decisions.antt =====
-- memory/decisions.py: approving, rejecting and correcting a record, without storage.
-- A `reviewer` that is no text is none.
use synora_agentic_erp.Prelude.{
  ℕ, ◌+◌, String, ◌&&◌, ◌||◌, Option, none, some, is_none, leb, nat_eq, text?_eq, if◌then◌else◌,
}
use synora_agentic_erp.Prelude.Int.{pos}
use synora_agentic_erp.Prelude.Result.{Result, ok, err, guard, reject, ◌>>=◌, ◌>>◌}
use synora_agentic_erp.Prelude.Text.{has_text}
use synora_agentic_erp.Lifecycle.Version.{VersionValue, int}
use synora_agentic_erp.Lifecycle.Memory.{MemoryStateError, transition_state}
use synora_agentic_erp.Memory.Contracts.{
  MemoryRecord, Moment, aware, naive, working, episodic, kind_eq, scope_matches, past,
  validate_record, reviewed_after,
}

abbrev pub decision_error : String → String → MemoryStateError
decision_error code message = record { code = code; message = message }

-- _aware_timestamp(value, field_name)
unfoldable pub aware_timestamp : Moment → String → Result MemoryStateError ℕ
aware_timestamp (aware t) message = ok t
aware_timestamp naive message = err (decision_error "INVALID_TIMESTAMP" message)

unfoldable pub reviewer_text : Option String → Result MemoryStateError String
reviewer_text none = err (decision_error "INVALID_REVIEW" "reviewer must be non-blank text")
reviewer_text (some t) =
    if has_text t
    then ok t
    else err (decision_error "INVALID_REVIEW" "reviewer must be non-blank text")

-- _review_context(reviewer, reviewed_at, now)
unfoldable pub review_context :
    Option String → Moment → Moment → Result MemoryStateError (String × ℕ × ℕ)
unfolding aware_timestamp reviewer_text
review_context reviewer reviewed_at now = do
  name ← reviewer_text reviewer
  reviewed ← aware_timestamp reviewed_at "reviewed_at must be timezone-aware"
  decision_now ← aware_timestamp now "now must be timezone-aware"
  guard (leb reviewed decision_now)
      (decision_error "INVALID_REVIEW" "reviewed_at cannot be in the future")
  ok (name, reviewed, decision_now)

-- _ensure_review_chronology(record, reviewed_at)
unfoldable pub ensure_review_chronology : MemoryRecord → ℕ → Result MemoryStateError Unit
ensure_review_chronology r reviewed = do
  guard (leb r.created_at reviewed)
      (decision_error "INVALID_TIMESTAMP" "reviewed_at must not precede created_at")
  reject (past r.expires_at reviewed)
      (decision_error "EXPIRED" "review must occur before memory expiry")

-- _ensure_not_expired(record, now, label)
unfoldable pub ensure_not_expired : MemoryRecord → ℕ → String → Result MemoryStateError Unit
ensure_not_expired r now message = reject (past r.expires_at now) (decision_error "EXPIRED" message)

abbrev pub invalid_decision : String → MemoryStateError
invalid_decision message = decision_error "INVALID_DECISION" message

-- _rebuild(record, updates), the record being the updated one
unfoldable pub rebuild : (String → String) → MemoryRecord → Result MemoryStateError MemoryRecord
rebuild sha256 r = elim (validate_record sha256 r) [
  | err _ ↦ err (invalid_decision "resulting memory record is invalid")
  | ok _ ↦ ok r
]

-- The updates of an approval.
abbrev pub approved : MemoryRecord → String → ℕ → String × ℕ → MemoryRecord
approved r reviewer reviewed moved = record r {
  state = moved.0;
  state_version = moved.1;
  reviewer = some reviewer;
  reviewed_at = some reviewed;
}

-- approve_candidate(candidate, reviewer=, reviewed_at=, now=, expected_version=)
unfoldable pub approve_candidate :
    (String → String)
    → MemoryRecord
    → Option String
    → Moment
    → Moment
    → VersionValue
    → Result MemoryStateError MemoryRecord
approve_candidate sha256 candidate reviewer reviewed_at now expected = do
  context ← review_context reviewer reviewed_at now
  reject (kind_eq candidate.kind working)
      (invalid_decision "working memory cannot be durably approved")
  reject (kind_eq candidate.kind episodic && is_none candidate.expires_at)
      (invalid_decision "episodic approval requires an explicit expiry")
  ensure_review_chronology candidate context.1
  ensure_not_expired candidate context.2 "candidate memory is expired"
  moved ←
      transition_state candidate.state "APPROVED" (int (pos candidate.state_version))
        (some expected)
  rebuild sha256 (approved candidate context.0 context.1 moved)

-- reject_candidate(candidate, reviewer=, reviewed_at=, now=, expected_version=, review_reason=)
unfoldable pub reject_candidate :
    (String → String)
    → MemoryRecord
    → Option String
    → Moment
    → Moment
    → VersionValue
    → Option String
    → Result MemoryStateError MemoryRecord
reject_candidate sha256 candidate reviewer reviewed_at now expected review_reason = do
  context ← review_context reviewer reviewed_at now
  reject (kind_eq candidate.kind working)
      (invalid_decision "working memory cannot be durably rejected")
  ensure_review_chronology candidate context.1
  ensure_not_expired candidate context.2 "candidate memory is expired"
  moved ←
      transition_state candidate.state "REJECTED" (int (pos candidate.state_version))
        (some expected)
  rebuild sha256
      (record (approved candidate context.0 context.1 moved) { review_reason = review_reason })

-- The checks of approve_correction before the transitions.
unfoldable pub check_predecessor : MemoryRecord → MemoryRecord → ℕ → Result MemoryStateError Unit
check_predecessor candidate prior now = do
  reject (kind_eq candidate.kind working || kind_eq prior.kind working)
      (invalid_decision "working memory cannot be corrected durably")
  reject (is_none candidate.memory_id || is_none prior.memory_id)
      (invalid_decision "correction and prior memory IDs are required")
  reject (text?_eq candidate.memory_id prior.memory_id)
      (invalid_decision "correction must use a new memory ID")
  guard (text?_eq candidate.supersedes_memory_id prior.memory_id)
      (invalid_decision "correction predecessor does not match")
  guard (scope_matches candidate.scope prior.scope)
      (invalid_decision "correction scope must match its predecessor")
  guard (kind_eq candidate.kind prior.kind)
      (invalid_decision "correction kind must match its predecessor")
  guard (nat_eq candidate.version (prior.version + 1))
      (invalid_decision "correction version must be consecutive")
  reject (is_none prior.reviewer || is_none prior.reviewed_at)
      (decision_error "INVALID_REVIEW" "approved predecessor lacks review evidence")
  reject (reviewed_after prior.reviewed_at now)
      (decision_error "INVALID_REVIEW" "approved predecessor review is in the future")

-- approve_correction(candidate, prior, reviewer=, reviewed_at=, now=, expected_candidate_version=,
-- expected_prior_version=)
unfoldable pub approve_correction :
    (String → String)
    → MemoryRecord
    → MemoryRecord
    → Option String
    → Moment
    → Moment
    → VersionValue
    → VersionValue
    → Result MemoryStateError (MemoryRecord × MemoryRecord)
approve_correction sha256 candidate prior reviewer reviewed_at now expected_candidate
      expected_prior =
    do
      context ← review_context reviewer reviewed_at now
      check_predecessor candidate prior context.2
      ensure_not_expired candidate context.2 "correction memory is expired"
      ensure_not_expired prior context.2 "prior memory is expired"
      ensure_review_chronology candidate context.1
      moved ←
          transition_state candidate.state "APPROVED" (int (pos candidate.state_version))
            (some expected_candidate)
      moved_prior ←
          transition_state prior.state "SUPERSEDED" (int (pos prior.state_version))
            (some expected_prior)
      correction ← rebuild sha256 (approved candidate context.0 context.1 moved)
      superseded ←
          rebuild sha256 (record prior { state = moved_prior.0; state_version = moved_prior.1 })
      ok (correction, superseded)
