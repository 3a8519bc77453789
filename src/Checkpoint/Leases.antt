-- ===== src/Checkpoint/Leases.antt =====
-- The exclusive lease of the checkpoint store, and what its operations leave alone.
use synora_agentic_erp.Prelude.{
  ℕ, ◌<◌, ◌≡◌, ◌≢◌, refl, ap, ◌∙◌, String, Bool, true, false, Option, none, some, arith, inl, inr,
  nat_eq, nat_eq_iff, eq_iff, eq_refl, if◌then◌else◌, Option-cases, text?_eq, text?_eq-eq,
}
use synora_agentic_erp.Prelude.Result.{ok, Result-cases}
use synora_agentic_erp.Workflow.Contracts.{WorkflowState}
use synora_agentic_erp.Checkpoint.{
  Codec, Row, Store, select, update, lease_matches, lease_active, leased_row, expiry_after,
  saved_row, save, load, acquire_lease, release_lease, encode,
}
use synora_agentic_erp.Checkpoint.Saves.{select-update, select-update_other}

-- The row that an acquired lease leaves.
abbrev pub Leases : ℕ → String → String → ℕ → ℕ → Store → Store → Row → Type 0
Leases seconds token id expected now store after row =
    (select id store.checkpoints ≡ some row)
    × (row.revision ≡ expected)
    × (lease_active row now ≡ false)
    × (select id after.checkpoints ≡ some (leased_row seconds token now row))

pub acquire_lease-ok :
    (seconds : ℕ) (token id : String) (expected now : ℕ) (store after : Store) (drawn : String)
    → acquire_lease seconds token id expected now store ≡ ok (drawn, after)
    → (row : Row) × Leases seconds token id expected now store after row
unfolding acquire_lease
acquire_lease-ok seconds token id expected now store after drawn h =
    elim (Option-cases (select id store.checkpoints)) [
      | inl q ↦ absurd (ground arith)
      | inr (row, q) ↦
          let write = leased_row seconds token now in
          let same : nat_eq row.revision expected ≡ true = ground arith in
          let rows : after.checkpoints
              ≡ update id (λ r. nat_eq r.revision expected) write store.checkpoints =
            ground arith in
          let found =
            select-update id (λ r. nat_eq r.revision expected) write store.checkpoints row
              (λ r. refl) q in
          (
            row,
            (
              q,
              (nat_eq_iff row.revision expected).0 same,
              ground arith,
              ap (select id) rows ∙ found ∙ rw same refl,
            ),
          )
    ]

pub some_row : (a b : Row) → some a ≡ some b → a ≡ b
some_row a b h = ground arith

pub matches_leased :
    (seconds : ℕ) (token : String) (now : ℕ) (row : Row) (lease : Option String) (checked : ℕ)
    → lease_matches (leased_row seconds token now row) lease checked ≡ true
    → (lease ≡ some token) × (checked < expiry_after seconds now)
unfolding lease_matches
matches_leased seconds token now row lease checked h =
    (text?_eq-eq lease (some token) (ground arith), ground arith)

pub still_active :
    (seconds : ℕ) (token : String) (now later : ℕ) (row : Row)
    → token ≢ ""
    → later < expiry_after seconds now
    → lease_active (leased_row seconds token now row) later ≡ true
unfolding lease_active
still_active seconds token now later row t l = ground (arith, eq_iff token "")

load_same :
    (codec : Codec) (id : String) (a b : Store)
    → select id a.checkpoints ≡ select id b.checkpoints
    → load codec id a ≡ load codec id b
unfolding load
load_same codec id a b h = rw h refl

pub select-save_other :
    (codec : Codec) (seconds : ℕ) (state : WorkflowState) (expected : ℕ) (lease : Option String)
    (keep : Bool) (now checked instant : ℕ) (store after : Store) (other : String)
    → state.run_id ≢ other
    → save codec seconds state expected lease keep now checked instant store ≡ ok after
    → select other after.checkpoints ≡ select other store.checkpoints
unfolding save
select-save_other codec seconds state expected lease keep now checked instant store after other d
      h =
    elim (Result-cases (encode codec state)) [
      | inr (e, p) ↦ absurd (ground arith)
      | inl (payload, p) ↦ elim (Option-cases (select state.run_id store.checkpoints)) [
        | inl q ↦ absurd (ground arith)
        | inr (row, q) ↦
            let write =
              saved_row seconds state payload (if keep then lease else none) now instant in
            let rows : after.checkpoints
                ≡ update state.run_id (λ r. nat_eq r.revision expected) write store.checkpoints =
              ground arith in
            ap (select other) rows
            ∙ select-update_other state.run_id other (λ r. nat_eq r.revision expected) write
                store.checkpoints (λ r. refl) d
      ]
    ]

-- A save of one workflow leaves what is loaded of every other as it was.
pub load-save_other :
    (codec : Codec) (seconds : ℕ) (state : WorkflowState) (expected : ℕ) (lease : Option String)
    (keep : Bool) (now checked instant : ℕ) (store after : Store) (other : String)
    → state.run_id ≢ other
    → save codec seconds state expected lease keep now checked instant store ≡ ok after
    → load codec other after ≡ load codec other store
load-save_other codec seconds state expected lease keep now checked instant store after other d h =
    load_same codec other after store (
      select-save_other codec seconds state expected lease keep now checked instant store after
        other d h)

-- The holder of a lease can give it up: after that a lease of that workflow, at the revision that it
-- is stored with, can be acquired at any instant.
pub acquire_lease-release_lease :
    (seconds : ℕ) (token next id : String) (now : ℕ) (store : Store) (row : Row)
    → select id store.checkpoints ≡ some row
    → row.lease_id ≡ some token
    → (after : Store) × (acquire_lease seconds next id row.revision now
          (release_lease id token store)
        ≡ ok (next, after))
unfolding release_lease acquire_lease lease_active
acquire_lease-release_lease seconds token next id now store row h held =
    let found =
      select-update id (λ r. text?_eq r.lease_id (some token))
        (λ r. record r { lease_id = none; lease_expires_at = none }) store.checkpoints row
        (λ r. refl) h in
    let same : text?_eq row.lease_id (some token) ≡ true = rw (held, eq_refl token) refl in
    let rows = (release_lease id token store).checkpoints in
    let released = record store {
      checkpoints =
          update id (λ r. nat_eq r.revision row.revision) (leased_row seconds next now) rows;
    } in
    (released, rw (found, same, (nat_eq_iff row.revision row.revision).1 refl) refl)
