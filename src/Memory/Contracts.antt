-- ===== src/Memory/Contracts.antt =====
-- memory/contracts.py: scopes, records, their validators, and the gate of the recall.
-- UUIDs are texts. A datetime of a record is the instant that it denotes, in microseconds, since the
-- validators refuse one without a time zone; `Moment` is a datetime from outside.
use synora_agentic_erp.Prelude.{
  ℕ, String, ◌==◌, Bool, true, false, not, ◌&&◌, ◌||◌, Option, none, some, is_none, leb, text?_eq,
  elem,
}
use synora_agentic_erp.Prelude.Result.{Result, ok, guard, reject, ◌>>◌}
use synora_agentic_erp.Prelude.Text.{text_length, has_text, all_codes, is_hex}
use synora_agentic_erp.Lifecycle.Memory.{memory_states}

pub data MemoryKind : Type 0 where
  working episodic semantic procedural : MemoryKind

pub data Moment : Type 0 where
  aware : ℕ → Moment
  naive : Moment

pub record MemoryScope : Type 0 where
  pub initiator : String
  pub company : String
  pub warehouse : Option String
  pub run_id : Option String

pub record MemoryRecord : Type 0 where
  pub memory_id : Option String
  pub kind : MemoryKind
  pub state : String
  pub scope : MemoryScope
  pub source_run_id : Option String
  pub source_claim_id : Option String
  pub source_revision : String
  pub content : String
  pub digest : String
  pub version : ℕ
  pub state_version : ℕ
  pub supersedes_memory_id : Option String
  pub created_at : ℕ
  pub expires_at : Option ℕ
  pub reviewed_at : Option ℕ
  pub reviewer : Option String
  pub review_reason : Option String

abbrev pub kind_eq : MemoryKind → MemoryKind → Bool
kind_eq working working = true
kind_eq episodic episodic = true
kind_eq semantic semantic = true
kind_eq procedural procedural = true
kind_eq _ _ = false

-- self == requested
unfoldable pub scope_matches : MemoryScope → MemoryScope → Bool
scope_matches s t =
    s.initiator == t.initiator
    && s.company == t.company
    && text?_eq s.warehouse t.warehouse
    && text?_eq s.run_id t.run_id

-- instant >= expires_at, for a record that expires
abbrev pub past : Option ℕ → ℕ → Bool
past none instant = false
past (some e) instant = leb e instant

-- reviewed_at < created_at, for a record that was reviewed
abbrev pub reviewed_before : Option ℕ → ℕ → Bool
reviewed_before none instant = false
reviewed_before (some r) instant = not (leb instant r)

abbrev pub reviewed_past : Option ℕ → Option ℕ → Bool
reviewed_past none expires_at = false
reviewed_past (some r) expires_at = past expires_at r

-- reviewed_at > now, for a record that was reviewed
abbrev pub reviewed_after : Option ℕ → ℕ → Bool
reviewed_after none now = false
reviewed_after (some r) now = not (leb r now)

-- The bounds of the fields, and validate_text.
abbrev is_id : String → Bool
is_id t = leb 1 (text_length t) && leb (text_length t) 140

abbrev is_id? : Option String → Bool
is_id? none = true
is_id? (some t) = is_id t

abbrev is_reason : Option String → Bool
is_reason none = true
is_reason (some t) = leb (text_length t) 2000 && has_text t

abbrev scope_text? : Option String → Bool
scope_text? none = true
scope_text? (some t) = is_id t && has_text t

unfoldable pub valid_scope : MemoryScope → Bool
valid_scope s =
    is_id s.initiator
    && has_text s.initiator
    && is_id s.company
    && has_text s.company
    && scope_text? s.warehouse

unfoldable pub valid_fields : MemoryRecord → Bool
valid_fields r =
    is_id? r.memory_id
    && elem r.state memory_states
    && valid_scope r.scope
    && is_id? r.source_claim_id
    && (is_id r.source_revision && has_text r.source_revision)
    && (leb 1 (text_length r.content) && leb (text_length r.content) 32000 && has_text r.content)
    && (leb (text_length r.digest) 64 && leb 64 (text_length r.digest) && all_codes is_hex r.digest)
    && (leb 1 r.version && leb r.version 1000000)
    && (leb 1 r.state_version && leb r.state_version 1000000)
    && is_id? r.supersedes_memory_id
    && is_id? r.reviewer
    && is_reason r.review_reason

abbrev pub not_none {ℓ} : {A : Type ℓ} → Option A → Bool
not_none o = not (is_none o)

-- if self.supersedes_memory_id is not None: ...
unfoldable pub check_correction : Option String → Option String → ℕ → Result String Unit
check_correction memory_id none version = ok tt
check_correction memory_id (some prior) version = do
  guard (not_none memory_id) "a correction must receive a new memory_id"
  reject (text?_eq memory_id (some prior)) "a correction cannot overwrite its superseded memory"
  guard (leb 2 version) "a correction must increment the memory version"

-- The conditions on reviewer, reviewed_at and the two other instants. The source's message on review
-- metadata starts with the name of the state.
unfoldable pub check_review : MemoryRecord → Result String Unit
check_review r = do
  reject (past r.expires_at r.created_at) "expires_at must be later than created_at"
  reject (reviewed_before r.reviewed_at r.created_at) "reviewed_at must not precede created_at"
  guard
      (is_none r.reviewer && is_none r.reviewed_at || not_none r.reviewer && not_none r.reviewed_at)
      "reviewer and reviewed_at must be provided together"
  reject
      ((r.state == "APPROVED" || r.state == "REJECTED")
        && (is_none r.reviewer || is_none r.reviewed_at))
      "memory requires review metadata"
  reject (reviewed_past r.reviewed_at r.expires_at) "reviewed_at must be before expires_at"

-- validate_invariants(self), for some digest function
unfoldable pub validate_invariants : (String → String) → MemoryRecord → Result String Unit
unfolding check_review check_correction
validate_invariants sha256 r = do
  guard (r.digest == sha256 r.content) "memory digest does not match content"
  check_review r
  reject (kind_eq r.kind episodic && r.state == "APPROVED" && is_none r.expires_at)
      "approved episodic memory requires an explicit expiry"
  check_correction r.memory_id r.supersedes_memory_id r.version
  reject (not (kind_eq r.kind working) && is_none r.source_run_id && is_none r.source_claim_id)
      "non-working memory requires a source run or claim"

-- MemoryRecord(...): the fields, then the invariants
unfoldable pub validate_record : (String → String) → MemoryRecord → Result String Unit
validate_record sha256 r = do guard (valid_fields r) "field"; validate_invariants sha256 r

-- is_recallable(memory, requested_scope, now=now); an omitted `now` has been read from the clock
unfoldable pub is_recallable : MemoryRecord → MemoryScope → Moment → Bool
is_recallable m requested naive = false
is_recallable m requested (aware now) =
    not (kind_eq m.kind working)
    && m.state == "APPROVED"
    && not_none m.reviewer
    && not_none m.reviewed_at
    && not (reviewed_after m.reviewed_at now)
    && not (past m.expires_at now)
    && scope_matches m.scope requested
