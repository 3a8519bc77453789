-- ===== src/Runtime/Failures.antt =====
-- The pattern of workflow/runtime.py for one transition: a lease, a call of the engine and a save, where
-- the lease is given back if the call or the save raises.
use synora_agentic_erp.Prelude.{
  ℕ, ◌+◌, ◌≡◌, refl, ap, ◌∙◌, String, Bool, true, Option, none, some, arith, ◌⊎◌, inl, inr, eq_refl,
  text?_eq, sym, subst, Option-cases,
}
use synora_agentic_erp.Prelude.Result.{Result, ok, err, Result-cases}
use synora_agentic_erp.Workflow.Contracts.{WorkflowState, Fault}
use synora_agentic_erp.Checkpoint.{
  Codec, Row, Store, select, leased_row, save, acquire_lease, release_lease,
}
use synora_agentic_erp.Checkpoint.Saves.{select-update, save-ok}
use synora_agentic_erp.Checkpoint.Leases.{acquire_lease-ok}
use synora_agentic_erp.Runtime.Effects.{
  RuntimeError, Times, acquire, persist, protect, released_on_error,
}
use synora_agentic_erp.Runtime.Follows.{Stores, save-Stores}
use synora_agentic_erp.Runtime.Posts.{Post, bind-Post, from_engine-Post, pure-Post}
use synora_agentic_erp.Runtime.{save_outcome, commit}

abbrev pub unleased : Row → Row
unleased row = record row { lease_id = none; lease_expires_at = none }

release_lease-select :
    (id token : String) (store : Store) (row : Row)
    → select id store.checkpoints ≡ some row
    → row.lease_id ≡ some token
    → select id (release_lease id token store).checkpoints ≡ some (unleased row)
unfolding release_lease
release_lease-select id token store row h held =
    let found =
      select-update id (λ r. text?_eq r.lease_id (some token)) unleased store.checkpoints row
        (λ r. refl) h in
    let same : text?_eq row.lease_id (some token) ≡ true = rw (held, eq_refl token) refl in
    found ∙ rw same refl

pub same_row : (a b : Row) → some a ≡ some b → a ≡ b
same_row a b h = ground arith

drawn_token :
    (seconds : ℕ) (token id : String) (expected now : ℕ) (store after : Store) (drawn : String)
    → acquire_lease seconds token id expected now store ≡ ok (drawn, after)
    → drawn ≡ token
unfolding acquire_lease
drawn_token seconds token id expected now store after drawn h =
    elim (Option-cases (select id store.checkpoints)) [
      | inl q ↦ absurd (ground arith)
      | inr (row, q) ↦ ground arith
    ]

module _ (codec : Codec) (seconds : ℕ) (clock : Times) (state : WorkflowState) (row : Row) where
  -- The row is as it was, or it is so but for a lease of before, which had expired.
  unfoldable pub Unchanged : Store → Type 0
  Unchanged store =
      (select state.run_id store.checkpoints ≡ some row)
      ⊎ (select state.run_id store.checkpoints ≡ some (unleased row))

  unfoldable pub Leased : Store → Type 0
  Leased store =
      select state.run_id store.checkpoints
      ≡ some (leased_row seconds clock.token clock.acquired row)

  -- What has been saved is the outcome of the call, as the successor of the stored state.
  unfoldable pub Saved : Result Fault WorkflowState → String × WorkflowState → Store → Type 0
  Saved outcome (lease, u) store =
      (outcome ≡ ok u)
      × (lease ≡ clock.token)
      × (u.revision ≡ row.revision + 1)
      × Stores codec u.run_id u store

  acquire-Leased :
      (store : Store)
      → select state.run_id store.checkpoints ≡ some row
      → Post Unchanged
          (λ lease σ. (lease ≡ clock.token) × (row.revision ≡ state.revision) × Leased σ)
          (acquire codec seconds clock state.run_id state.revision store)
  unfolding acquire Post Unchanged Leased
  acquire-Leased store h =
      elim (Result-cases
        (acquire_lease seconds clock.token state.run_id state.revision clock.acquired store)) [
          | inr (e, p) ↦ rw p (inl h)
          | inl ((drawn, after), p) ↦
              let (old, (found, revision, _, leased)) =
                acquire_lease-ok seconds clock.token state.run_id state.revision clock.acquired
                  store after drawn p in
              let same : old ≡ row = same_row old row (sym found ∙ h) in
              rw p (
                drawn_token seconds clock.token state.run_id state.revision clock.acquired store
                    after drawn p,
                subst (λ r. r.revision ≡ state.revision) same revision,
                leased ∙ ap (λ r. some (leased_row seconds clock.token clock.acquired r)) same,
              )
        ]

  persist-Saved :
      (lease : Option String) (keep : Bool) (outcome : Result Fault WorkflowState)
      (u : WorkflowState) (store : Store)
      → outcome ≡ ok u
      → row.revision ≡ state.revision
      → Leased store
      → Post Leased
          (λ done. Saved outcome (clock.token, u))
          (persist codec seconds clock state u lease keep store)
  unfolding persist Post Saved
  persist-Saved lease keep outcome u store e revision h =
      elim (Result-cases (
        save codec seconds u state.revision lease keep clock.saved clock.checked clock.renewed
          store)) [
            | inr (e', p) ↦ rw p h
            | inl (after, p) ↦
                let (_, _, (grown, _, _, _, _, _, _, _, _)) =
                  save-ok codec seconds u state.revision lease keep clock.saved clock.checked
                    clock.renewed store after p in
                rw p (
                  e,
                  refl,
                  grown ∙ ap (λ n. n + 1) (sym revision),
                  save-Stores codec u.run_id u store after seconds state.revision lease keep
                      clock.saved clock.checked clock.renewed refl p,
                )
          ]

  release-Unchanged :
      (store : Store) → Leased store → Unchanged (release_lease state.run_id clock.token store)
  unfolding Leased Unchanged
  release-Unchanged store h = inr (
      release_lease-select state.run_id clock.token store
        (leased_row seconds clock.token clock.acquired row) h refl)

  protect-Unchanged :
      {A : Type 0} (Q : A → Store → Type 0) (m : Result RuntimeError A × Store)
      → Post Leased Q m
      → Post Unchanged Q (released_on_error state.run_id clock.token m)
  unfolding Post
  protect-Unchanged Q (ok a, store) h = h
  protect-Unchanged Q (err e, store) h = release-Unchanged store h

  save_outcome-Saved :
      (keep : WorkflowState → Bool) (outcome : Result Fault WorkflowState) (store : Store)
      → row.revision ≡ state.revision
      → Leased store
      → Post Leased
          (Saved outcome)
          (save_outcome codec seconds clock state keep outcome clock.token store)
  save_outcome-Saved keep outcome store revision h =
      bind-Post _ (λ u σ. (outcome ≡ ok u) × Leased σ) _ _ _
        (from_engine-Post Leased (λ u σ. (outcome ≡ ok u) × Leased σ) outcome store h
          (λ u e. (e, h)))
        (λ u σ (e, i).
          bind-Post _ (λ done. Saved outcome (clock.token, u)) _ _ _
            (persist-Saved (some clock.token) (keep u) outcome u σ e revision i)
            (λ done τ g. pure-Post _ (Saved outcome) (clock.token, u) τ g))

  -- A transition is made as a whole or not at all: when it raises, the checkpoint is the stored one, and
  -- the lease that was drawn for it is given back; when it returns, the engine has returned the state
  -- that is stored now, and its revision is the stored one's successor.
  pub commit_whole :
      (keep : WorkflowState → Bool) (outcome : Result Fault WorkflowState) (store : Store)
      → select state.run_id store.checkpoints ≡ some row
      → Post Unchanged (Saved outcome) (commit codec seconds clock state keep outcome store)
  unfolding commit
  commit_whole keep outcome store h =
      bind-Post _ (λ lease σ. (lease ≡ clock.token) × (row.revision ≡ state.revision) × Leased σ) _
        _ _ (acquire-Leased store h)
        (λ lease σ (drawn, revision, i).
          subst
            (λ l.
              Post Unchanged (Saved outcome)
                (protect state.run_id l (save_outcome codec seconds clock state keep outcome l) σ))
            (sym drawn) (protect-Unchanged _ _ (save_outcome-Saved keep outcome σ revision i)))
