-- ===== src/Memory/Examples.antt =====
-- Concrete records: a candidate that is approved, its correction, and a recall of two records.
use mathlib.Core.List.{Permᴰ}
use synora_agentic_erp.Prelude.{
  ℕ, ◌+◌, ◌≤◌, ◌≡◌, ◌≢◌, refl, String, true, false, none, some, List, [], ◌∷◌, map,
}
use synora_agentic_erp.Prelude.Int.{pos}
use synora_agentic_erp.Prelude.Result.{ok}
use synora_agentic_erp.Prelude.Text.{text_length, has_text, all_codes, is_space}
use synora_agentic_erp.Lifecycle.Version.{int}
use synora_agentic_erp.Lifecycle.Memory.{
  transition_state, validate_transition, validate_version, transitions,
}
use synora_agentic_erp.Lifecycle.Table.{allowed, targets}
use synora_agentic_erp.Memory.Contracts.{
  MemoryRecord, MemoryScope, Moment, aware, episodic, validate_record, valid_fields, valid_scope,
  validate_invariants, check_review, check_correction, is_recallable, past, scope_matches,
}
use synora_agentic_erp.Memory.Decisions.{
  approve_candidate, reject_candidate, approve_correction, review_context, aware_timestamp,
  reviewer_text, ensure_review_chronology, ensure_not_expired, rebuild, check_predecessor,
}
use synora_agentic_erp.Memory.Recall.{
  MemoryRecallQuery, filter_recallable, sort, insert, key_leb, text_leb, visible,
  validate_recall_query,
}
use synora_agentic_erp.Memory.Review.{approved_is_recallable, decided_once}
use synora_agentic_erp.Memory.Correction.{correction_replaces}
use synora_agentic_erp.Memory.Order.{recall_sorted_and_exact, sorted, eligible}

abbrev zeros : String
zeros = "0000000000000000000000000000000000000000000000000000000000000000"

-- A stand-in for the digest function.
abbrev digest_of : String → String
digest_of content = zeros

abbrev acme : MemoryScope
acme = record { initiator = "buyer"; company = "ACME"; warehouse = none; run_id = none }

abbrev candidate : MemoryRecord
candidate = record {
  memory_id = some "m-1";
  kind = episodic;
  state = "CANDIDATE";
  scope = acme;
  source_run_id = some "run-1";
  source_claim_id = none;
  source_revision = "r1";
  content = "Supplier ships late";
  digest = zeros;
  version = 1;
  state_version = 1;
  supersedes_memory_id = none;
  created_at = 100;
  expires_at = some 900;
  reviewed_at = none;
  reviewer = none;
  review_reason = none;
}

abbrev first : MemoryRecord
first = record candidate {
  state = "APPROVED";
  state_version = 2;
  reviewer = some "lead";
  reviewed_at = some 200;
}

abbrev correction : MemoryRecord
correction = record candidate {
  memory_id = some "m-2";
  supersedes_memory_id = some "m-1";
  version = 2;
  created_at = 300;
  content = "Supplier ships on time";
}

abbrev second : MemoryRecord
second = record correction {
  state = "APPROVED";
  state_version = 2;
  reviewer = some "lead";
  reviewed_at = some 400;
}

abbrev superseded : MemoryRecord
superseded = record first { state = "SUPERSEDED"; state_version = 3 }

approves :
    approve_candidate digest_of candidate (some "lead") (aware 200) (aware 250) (int (pos 1))
    ≡ ok first
unfolding approve_candidate review_context aware_timestamp reviewer_text ensure_review_chronology
    ensure_not_expired rebuild transition_state validate_transition validate_version validate_record
    valid_fields valid_scope validate_invariants check_review check_correction text_length has_text
    all_codes is_space transitions allowed targets
approves = refl

corrects :
    approve_correction digest_of correction first
      (some "lead")
      (aware 400)
      (aware 450)
      (int (pos 1))
      (int (pos 2))
    ≡ ok (second, superseded)
unfolding approve_correction check_predecessor scope_matches review_context aware_timestamp
    reviewer_text ensure_review_chronology ensure_not_expired rebuild transition_state
    validate_transition validate_version validate_record valid_fields valid_scope
    validate_invariants check_review check_correction text_length has_text all_codes is_space
    transitions allowed targets
corrects = refl

approved_is_recallable_example :
    (validate_record digest_of first ≡ ok tt)
    × ((u : ℕ) → 250 ≤ u → past (some 900) u ≡ false → is_recallable first acme (aware u) ≡ true)
approved_is_recallable_example =
    approved_is_recallable digest_of candidate (some "lead") (aware 200) 250 (int (pos 1)) first
      approves

decided_once_example :
    (approve_candidate digest_of first (some "other") (aware 300) (aware 300) (int (pos 2))
      ≢ ok second)
    × (reject_candidate digest_of first (some "other") (aware 300) (aware 300) (int (pos 2)) none
        ≢ ok second)
decided_once_example =
    decided_once digest_of candidate (some "lead") (aware 200) (aware 250) (int (pos 1)) first
      approves (some "other") (aware 300) (aware 300) (int (pos 2)) none second

correction_replaces_example :
    (validate_record digest_of second ≡ ok tt)
    × (validate_record digest_of superseded ≡ ok tt)
    × (second.supersedes_memory_id ≡ superseded.memory_id)
    × (second.version ≡ superseded.version + 1)
    × ((scope : MemoryScope) (u : Moment) → is_recallable superseded scope u ≡ false)
    × ((u : ℕ) → 450 ≤ u → past (some 900) u ≡ false → is_recallable second acme (aware u) ≡ true)
correction_replaces_example =
    correction_replaces digest_of correction first (some "lead") (aware 400) 450 (int (pos 1))
      (int (pos 2)) second superseded corrects

abbrev query : MemoryRecallQuery
query = record { scope = acme; now = aware 500 }

query_valid : valid_scope acme ≡ true
unfolding valid_scope text_length has_text is_space
query_valid = refl

recalls :
    filter_recallable (map some (second ∷ superseded ∷ candidate ∷ first ∷ [])) query
    ≡ ok (first ∷ second ∷ [])
unfolding filter_recallable validate_recall_query visible sort insert key_leb text_leb valid_scope
    text_length has_text is_space is_recallable scope_matches
recalls = refl

recall_sorted_and_exact_example :
    (found : List MemoryRecord) × (filter_recallable
        (map some (second ∷ superseded ∷ candidate ∷ first ∷ []))
        query
      ≡ ok found)
    × (sorted found ≡ true)
    × Permᴰ found (eligible query (second ∷ superseded ∷ candidate ∷ first ∷ []))
recall_sorted_and_exact_example =
    recall_sorted_and_exact (second ∷ superseded ∷ candidate ∷ first ∷ []) query query_valid refl
