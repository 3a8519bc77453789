-- ===== src/Checkpoint/Creates.antt =====
-- What the creation of a checkpoint means for the loads that follow.
use synora_agentic_erp.Prelude.{
  ℕ, ◌≡◌, refl, ap, ◌∙◌, String, true, Option, none, some, List, [], ◌∷◌, ◌++◌, arith, inl, inr,
  eq_iff, Option-cases,
}
use synora_agentic_erp.Prelude.Result.{ok, Result-cases}
use synora_agentic_erp.Workflow.Contracts.{WorkflowState}
use synora_agentic_erp.Checkpoint.{
  Json, Codec, Row, Store, select, encode, lease_expiry, create, load, has_version,
}
use synora_agentic_erp.Checkpoint.Saves.{ReadsBack, accepted_reads, encode-ok}

select-append :
    (id : String) (rows : List Row) (row : Row)
    → select id rows ≡ none
    → row.run_id ≡ id
    → select id (rows ++ row ∷ []) ≡ some row
unfolding select
select-append id [] row h e = ground (arith, eq_iff row.run_id id)
select-append id (r ∷ rows) row h e = ground (arith, select-append id rows row)

-- The row that `create` inserts.
abbrev pub created_row : ℕ → WorkflowState → Json → Option String → ℕ → ℕ → Row
created_row seconds state payload lease now instant = record {
  run_id = state.run_id;
  revision = state.revision;
  schema_version = "1";
  payload = payload;
  status = state.status;
  lease_id = lease;
  lease_expires_at = lease_expiry seconds instant lease;
  updated_at = now;
}

-- A checkpoint can be created only for a workflow that has none, and then `load` returns just the
-- created state, if the validators of the state accept it, and calls the checkpoint incompatible if they
-- do not: for a codec that writes the schema version and reads the fields of that state as it has
-- written them.
pub load-create :
    (codec : Codec) (seconds : ℕ) (state : WorkflowState) (lease : Option String) (now instant : ℕ)
    (store after : Store)
    → codec.parse (codec.dump state) ≡ some state
    → has_version (codec.dump state) ≡ true
    → create codec seconds state lease now instant store ≡ ok after
    → (select state.run_id store.checkpoints ≡ none)
      × ReadsBack state (load codec state.run_id after)
unfolding create load
load-create codec seconds state lease now instant store after read version h =
    elim (Result-cases (encode codec state)) [
      | inr (e, p) ↦ absurd (ground arith)
      | inl (payload, p) ↦ elim (Option-cases (select state.run_id store.checkpoints)) [
        | inr (row, q) ↦ absurd (ground arith)
        | inl q ↦
            let row = created_row seconds state payload lease now instant in
            let rows : after.checkpoints ≡ store.checkpoints ++ row ∷ [] = ground arith in
            let found =
              ap (select state.run_id) rows
              ∙ select-append state.run_id store.checkpoints row q refl in
            let (dumped, safe) = encode-ok codec state payload p in
            (q, rw (found, dumped, rw dumped at safe, version, read) (accepted_reads state))
      ]
    ]
