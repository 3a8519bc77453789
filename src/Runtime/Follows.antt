-- ===== src/Runtime/Follows.antt =====
-- What the requests of workflow/runtime.py keep of the checkpoint store, and the rules that carry it
-- through their effects.
use synora_agentic_erp.Prelude.{
  ℕ, ◌≡◌, refl, sym, ap, ◌∙◌, subst, String, Bool, false, Option, none, some, arith, inl, inr, ◌==◌,
  eq_iff, ◌≢◌, nat_eq, text?_eq, Bool-cases,
}
use synora_agentic_erp.Prelude.Result.{ok}
use synora_agentic_erp.Workflow.Contracts.{WorkflowState, ReplanReason}
use synora_agentic_erp.Workflow.Invariant.{IsSound}
use synora_agentic_erp.Workflow.Histories.{Step, Step-IsSound}
use synora_agentic_erp.Workflow.Revisions.{Step-run_id}
use synora_agentic_erp.Checkpoint.{
  Codec, Row, Store, select, update, leased_row, save, acquire_lease, release_lease,
}
use synora_agentic_erp.Checkpoint.Saves.{changed, select-update, select-update_other, save-ok}

-- The state s with a note on why its plan is to be looked at again.
abbrev pub noted : Bool → ReplanReason → WorkflowState → WorkflowState
noted crashed reason s = record s { crash_recovered = crashed; replan_reason = some reason }

-- A state that successful calls of the engine lead to, with notes of the runtime between them.
pub data Follows (sha256 : String → String) (s : WorkflowState) : WorkflowState → Type 0 where
  same : {t : WorkflowState} → s ≡ t → Follows sha256 s t
  next : {t u : WorkflowState} → Follows sha256 s t → Step sha256 t u → Follows sha256 s u
  note :
      {t u : WorkflowState} (crashed : Bool) (reason : ReplanReason)
      → Follows sha256 s t
      → noted crashed reason t ≡ u
      → Follows sha256 s u

noted-IsSound :
    (crashed : Bool) (reason : ReplanReason) (s : WorkflowState)
    → IsSound s
    → IsSound (noted crashed reason s)
noted-IsSound crashed reason s i = record {
  plan = i.plan;
  single = i.single;
  in_order = i.in_order;
  asks = i.asks;
}

pub Follows-IsSound :
    (sha256 : String → String) (s t : WorkflowState) → Follows sha256 s t → IsSound s → IsSound t
Follows-IsSound sha256 s t (same e) i = subst IsSound e i
Follows-IsSound sha256 s t (next {t = u} f st) i =
    Step-IsSound sha256 u t st (Follows-IsSound sha256 s u f i)
Follows-IsSound sha256 s t (note {t = u} crashed reason f e) i =
    subst IsSound e (noted-IsSound crashed reason u (Follows-IsSound sha256 s u f i))

pub Follows-run_id :
    (sha256 : String → String) (s t : WorkflowState) → Follows sha256 s t → t.run_id ≡ s.run_id
Follows-run_id sha256 s t (same e) = ap (λ x. x.run_id) (sym e)
Follows-run_id sha256 s t (next {t = u} f st) =
    Step-run_id sha256 u t st ∙ Follows-run_id sha256 s u f
Follows-run_id sha256 s t (note {t = u} crashed reason f e) =
    ap (λ x. x.run_id) (sym e) ∙ Follows-run_id sha256 s u f

-- The checkpoint of the run `id` is that of s: its payload, and its revision.
pub record Stores (codec : Codec) (id : String) (s : WorkflowState) (store : Store) : Type 0 where
  pub row : Row
  pub found : select id store.checkpoints ≡ some row
  pub payload : row.payload ≡ codec.dump s
  pub revision : row.revision ≡ s.revision

changed-leaves :
    (test : Row → Bool) (change : Row → Row) (row : Row)
    → ((change row).payload ≡ row.payload) × ((change row).revision ≡ row.revision)
    → ((changed test change row).payload ≡ row.payload)
      × ((changed test change row).revision ≡ row.revision)
changed-leaves test change row h = elim (Bool-cases (test row)) [
  | inl p ↦ rw p h
  | inr p ↦ rw p (refl, refl)
]

pub differs : (a b : String) → (a == b) ≡ false → a ≢ b
differs a b h e = ground (arith, eq_iff a b)

-- An update that leaves payloads and revisions alone.
update-Stores :
    (codec : Codec) (id : String) (s : WorkflowState) (store : Store) (other : String)
    (test : Row → Bool) (change : Row → Row)
    → ((r : Row) → (change r).run_id ≡ r.run_id)
    → ((r : Row) → ((change r).payload ≡ r.payload) × ((change r).revision ≡ r.revision))
    → Stores codec id s store
    → Stores codec id s (record store { checkpoints = update other test change store.checkpoints })
update-Stores codec id s store other test change keeps leaves h = elim (Bool-cases (other == id)) [
  | inr p ↦ record {
    row = h.row;
    found =
        select-update_other other id test change store.checkpoints keeps (differs other id p)
        ∙ h.found;
    payload = h.payload;
    revision = h.revision;
  }
  | inl p ↦
      let e = (eq_iff other id).0 p in
      record {
        row = changed test change h.row;
        found =
            ap (λ x. select id (update x test change store.checkpoints)) e
            ∙ select-update id test change store.checkpoints h.row keeps h.found;
        payload = (changed-leaves test change h.row (leaves h.row)).0 ∙ h.payload;
        revision = (changed-leaves test change h.row (leaves h.row)).1 ∙ h.revision;
      }
]

pub release-Stores :
    (codec : Codec) (id : String) (s : WorkflowState) (store : Store) (other lease : String)
    → Stores codec id s store
    → Stores codec id s (release_lease other lease store)
unfolding release_lease
release-Stores codec id s store other lease h =
    update-Stores codec id s store other (λ r. text?_eq r.lease_id (some lease))
      (λ r. record r { lease_id = none; lease_expires_at = none }) (λ r. refl) (λ r. (refl, refl)) h

pub acquire_lease-Stores :
    (codec : Codec) (id : String) (s : WorkflowState) (store after : Store) (seconds : ℕ)
    (token other : String) (expected now : ℕ) (drawn : String)
    → acquire_lease seconds token other expected now store ≡ ok (drawn, after)
    → Stores codec id s store
    → Stores codec id s after
unfolding acquire_lease
acquire_lease-Stores codec id s store after seconds token other expected now drawn e h =
    let rows : record store {
      checkpoints =
          update other (λ r. nat_eq r.revision expected) (leased_row seconds token now)
            store.checkpoints;
    }
        ≡ after =
      ground arith in
    subst (Stores codec id s) rows (
      update-Stores codec id s store other (λ r. nat_eq r.revision expected)
        (leased_row seconds token now) (λ r. refl) (λ r. (refl, refl)) h)

pub save-Stores :
    (codec : Codec) (id : String) (s : WorkflowState) (store after : Store) (seconds expected : ℕ)
    (lease : Option String) (keep : Bool) (now checked instant : ℕ)
    → s.run_id ≡ id
    → save codec seconds s expected lease keep now checked instant store ≡ ok after
    → Stores codec id s after
save-Stores codec id s store after seconds expected lease keep now checked instant e h =
    let (_, row, (_, _, _, _, _, found, payload, revision, _)) =
      save-ok codec seconds s expected lease keep now checked instant store after h in
    record {
      row = row;
      found = ap (λ x. select x after.checkpoints) (sym e) ∙ found;
      payload = payload;
      revision = revision;
    }
