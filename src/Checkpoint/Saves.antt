-- ===== src/Checkpoint/Saves.antt =====
-- What a successful save of the checkpoint store means for the loads and saves that follow.
use synora_agentic_erp.Prelude.{
  ◌↔◌, ◌⊎◌, ℕ, ◌+◌, ◌≡◌, ◌≢◌, refl, sym, ap, ◌∙◌, String, Bool, true, Option, none, some, List, [],
  ◌∷◌, arith, inl, inr, nat_eq, nat_eq_iff, eq_iff, if◌then◌else◌, Option-cases,
}
use synora_agentic_erp.Prelude.Result.{Result, ok, err, Result-cases}
use synora_agentic_erp.Workflow.Contracts.{WorkflowState}
use synora_agentic_erp.Workflow.Validation.{accepted, validate_state}
use synora_agentic_erp.Checkpoint.{
  CheckpointError, incompatible, require_state, Json, Codec, Row, Store, select, update, encode,
  lease_matches, saved_row, save, load, safe_payload, has_version,
}

-- A row after an update.
abbrev pub changed : (Row → Bool) → (Row → Row) → Row → Row
changed test change row = if test row then change row else row

pub select-update :
    (id : String) (test : Row → Bool) (change : Row → Row) (rows : List Row) (row : Row)
    → ((r : Row) → (change r).run_id ≡ r.run_id)
    → select id rows ≡ some row
    → select id (update id test change rows) ≡ some (changed test change row)
unfolding select update
select-update id test change [] row keeps h = absurd (ground arith)
select-update id test change (r ∷ rows) row keeps h =
    ground (arith, keeps r, eq_iff r.run_id id, select-update id test change rows row keeps)

pub select-update_other :
    (id other : String) (test : Row → Bool) (change : Row → Row) (rows : List Row)
    → ((r : Row) → (change r).run_id ≡ r.run_id)
    → id ≢ other
    → select other (update id test change rows) ≡ select other rows
unfolding select update
select-update_other id other test change [] keeps h = refl
select-update_other id other test change (r ∷ rows) keeps h = ground (
  arith,
  keeps r,
  eq_iff r.run_id id,
  eq_iff r.run_id other,
  select-update_other id other test change rows keeps h,
)

pub encode-ok :
    (codec : Codec) (state : WorkflowState) (payload : Json)
    → encode codec state ≡ ok payload
    → (payload ≡ codec.dump state) × (safe_payload codec payload ≡ true)
unfolding encode
encode-ok codec state payload h = (ground arith, ground arith)

-- What a successful save has found and left.
abbrev pub Saves :
    Codec → WorkflowState → ℕ → Option String → ℕ → Store → Store → Row → Row → Type 0
Saves codec state expected lease checked store after row row' =
    (state.revision ≡ expected + 1)
    × (safe_payload codec (codec.dump state) ≡ true)
    × (select state.run_id store.checkpoints ≡ some row)
    × (row.revision ≡ expected)
    × (lease_matches row lease checked ≡ true)
    × (select state.run_id after.checkpoints ≡ some row')
    × (row'.payload ≡ codec.dump state)
    × (row'.revision ≡ state.revision)
    × (row'.schema_version ≡ "1")

pub save-ok :
    (codec : Codec) (seconds : ℕ) (state : WorkflowState) (expected : ℕ) (lease : Option String)
    (keep : Bool) (now checked instant : ℕ) (store after : Store)
    → save codec seconds state expected lease keep now checked instant store ≡ ok after
    → (row row' : Row) × Saves codec state expected lease checked store after row row'
unfolding save
save-ok codec seconds state expected lease keep now checked instant store after h =
    elim (Result-cases (encode codec state)) [
      | inr (e, p) ↦ absurd (ground arith)
      | inl (payload, p) ↦ elim (Option-cases (select state.run_id store.checkpoints)) [
        | inl q ↦ absurd (ground arith)
        | inr (row, q) ↦
            let write =
              saved_row seconds state payload (if keep then lease else none) now instant in
            let same : nat_eq row.revision expected ≡ true = ground arith in
            let rows : after.checkpoints
                ≡ update state.run_id (λ r. nat_eq r.revision expected) write store.checkpoints =
              ground arith in
            let found =
              select-update state.run_id (λ r. nat_eq r.revision expected) write store.checkpoints
                row (λ r. refl) q in
            let (dumped, safe) = encode-ok codec state payload p in
            (
              row,
              write row,
              (
                ground (arith, nat_eq_iff state.revision (expected + 1)),
                rw (sym dumped) safe,
                q,
                (nat_eq_iff row.revision expected).0 same,
                ground arith,
                ap (select state.run_id) rows ∙ found ∙ rw same refl,
                dumped,
                refl,
                refl,
              ),
            )
      ]
    ]

-- A load gives the state if its validators accept it, and else an error.
abbrev pub ReadsBack : WorkflowState → Result CheckpointError WorkflowState → Type 0
ReadsBack state loaded =
    ((loaded ≡ ok state) ↔ (validate_state state ≡ ok tt))
    × ((loaded ≡ ok state) ⊎ (loaded ≡ err incompatible))

pub accepted_reads :
    (state : WorkflowState) → ReadsBack state (require_state (accepted (some state)))
unfolding accepted
accepted_reads state = elim (Result-cases (validate_state state)) [
  | inl (u, p) ↦ rw p (((λ _. refl), (λ _. refl)), inl refl)
  | inr (e, p) ↦ rw p (((λ h. absurd (ground arith)), (λ h. absurd (ground arith))), inr refl)
]

-- After a save `load` returns just the saved state, if the validators of the state accept it, and calls
-- the checkpoint incompatible if they do not: for a codec that writes the schema version and reads the
-- fields of that state as it has written them.
pub load-save :
    (codec : Codec) (seconds : ℕ) (state : WorkflowState) (expected : ℕ) (lease : Option String)
    (keep : Bool) (now checked instant : ℕ) (store after : Store)
    → codec.parse (codec.dump state) ≡ some state
    → has_version (codec.dump state) ≡ true
    → save codec seconds state expected lease keep now checked instant store ≡ ok after
    → ReadsBack state (load codec state.run_id after)
unfolding load
load-save codec seconds state expected lease keep now checked instant store after read version h =
    let (row, row', (_, safe, _, _, _, found, payload, _, schema)) =
      save-ok codec seconds state expected lease keep now checked instant store after h in
    rw (found, schema, payload, safe, version, read) (accepted_reads state)

-- Two writers that both read the same revision cannot both save: once one has saved, a save of the
-- other with that expected revision fails, whatever its state of the workflow and its lease.
pub second_save_fails :
    (codec : Codec) (seconds : ℕ) (state : WorkflowState) (expected : ℕ) (lease : Option String)
    (keep : Bool) (now checked instant : ℕ) (store after : Store)
    → save codec seconds state expected lease keep now checked instant store ≡ ok after
    → (state' : WorkflowState) (lease' : Option String) (keep' : Bool) (now' checked' instant' : ℕ)
      (after' : Store)
    → state'.run_id ≡ state.run_id
    → save codec seconds state' expected lease' keep' now' checked' instant' after ≢ ok after'
second_save_fails codec seconds state expected lease keep now checked instant store after h state'
      lease' keep' now' checked' instant' after' run again =
    let (row, row', (grown, _, _, _, _, found, _, revision, _)) =
      save-ok codec seconds state expected lease keep now checked instant store after h in
    let (old, new, (_, _, found', stale, _, _, _, _, _)) =
      save-ok codec seconds state' expected lease' keep' now' checked' instant' after after'
        again in
    let same : some row' ≡ some old =
      sym found ∙ (ap (λ id. select id after.checkpoints) (sym run) ∙ found') in
    ground (arith, grown, revision, stale)
