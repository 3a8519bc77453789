-- ===== src/Runtime/Apart.antt =====
-- WorkflowRuntime.recover of workflow/runtime.py: the recovery of one run leaves the others alone.
use synora_agentic_erp.Prelude.{
  ℕ, ◌≡◌, ◌≢◌, refl, sym, ◌∙◌, String, Bool, true, false, Option, none, some, arith, inl, inr,
}
use synora_agentic_erp.Prelude.Result.{Result, ok, err, Result-cases}
use synora_agentic_erp.Workflow.Contracts.{WorkflowState, Fault, PlanStep}
use synora_agentic_erp.Workflow.Histories.{asked}
use synora_agentic_erp.Workflow.Revisions.{Step-run_id}
use synora_agentic_erp.Workflow.Engine.{status_is_running}
use synora_agentic_erp.Workflow.Steps.{find_step, is_running}
use synora_agentic_erp.Workflow.Control.{interrupt}
use synora_agentic_erp.Checkpoint.{Codec, Store, save, acquire_lease}
use synora_agentic_erp.Checkpoint.Leases.{select-save_other}
use synora_agentic_erp.Runtime.{
  save_outcome, commit, crash_request, marked, recover_step, recover_current, recover_one,
}
use synora_agentic_erp.Runtime.Effects.{RuntimeError, Times, acquire, persist, released_on_error}
use synora_agentic_erp.Runtime.Follows.{Stores, release-Stores, acquire_lease-Stores}
use synora_agentic_erp.Runtime.Posts.{
  Post, bind-Post, from_engine-Post, pure-Post, throw-Post, if-Post,
}

-- The recovery of a run t leaves the checkpoint of another run alone.
module _ (codec : Codec) (seconds : ℕ) (id : String) (u : WorkflowState) where
  unfoldable pub Keeps : {A : Type 0} → Result RuntimeError A × Store → Type 0
  Keeps outcome = Post (Stores codec id u) (λ a. Stores codec id u) outcome

  acquire-Keeps :
      (clock : Times) (other : String) (expected : ℕ) (store : Store)
      → Stores codec id u store
      → Keeps (acquire codec seconds clock other expected store)
  unfolding Keeps acquire Post
  acquire-Keeps clock other expected store h =
      elim (Result-cases (acquire_lease seconds clock.token other expected clock.acquired store)) [
        | inr (e, p) ↦ rw p h
        | inl ((token, after), p) ↦ rw p (
            acquire_lease-Stores codec id u store after seconds clock.token other expected
              clock.acquired token p h)
      ]

  persist-Keeps :
      (clock : Times) (t v : WorkflowState) (lease : Option String) (keep : Bool) (store : Store)
      → v.run_id ≢ id
      → Stores codec id u store
      → Keeps (persist codec seconds clock t v lease keep store)
  unfolding Keeps persist Post
  persist-Keeps clock t v lease keep store d h =
      elim (Result-cases (
        save codec seconds v t.revision lease keep clock.saved clock.checked clock.renewed store)) [
          | inr (e, p) ↦ rw p h
          | inl (after, p) ↦ rw p (record {
            row = h.row;
            found =
                select-save_other codec seconds v t.revision lease keep clock.saved clock.checked
                  clock.renewed store after id d p
                ∙ h.found;
            payload = h.payload;
            revision = h.revision;
          })
        ]

  released-Keeps :
      {A : Type 0} (other lease : String) (m : Result RuntimeError A × Store)
      → Keeps m
      → Keeps (released_on_error other lease m)
  unfolding Keeps Post
  released-Keeps other lease (ok a, store) h = h
  released-Keeps other lease (err e, store) h = release-Stores codec id u store other lease h

  commit-Keeps :
      (clock : Times) (t : WorkflowState) (keep : WorkflowState → Bool)
      (outcome : Result Fault WorkflowState) (store : Store)
      → ((v : WorkflowState) → outcome ≡ ok v → v.run_id ≢ id)
      → Stores codec id u store
      → Keeps (commit codec seconds clock t keep outcome store)
  unfolding Keeps commit
  commit-Keeps clock t keep outcome store d h =
      bind-Post _ (λ lease. Stores codec id u) _ _ _
        (acquire-Keeps clock t.run_id t.revision store h)
        (λ lease σ g.
          released-Keeps t.run_id lease (save_outcome codec seconds clock t keep outcome lease σ) (
            bind-Post _ (λ v τ. (outcome ≡ ok v) × Stores codec id u τ) _ _ _
              (from_engine-Post (Stores codec id u) (λ v τ. (outcome ≡ ok v) × Stores codec id u τ)
                outcome σ g (λ v e. (e, g)))
              (λ v τ (e, i).
                bind-Post _ (λ done. Stores codec id u) _ _ _
                  (persist-Keeps clock t v (some lease) (keep v) τ (d v e) i)
                  (λ done τ' i'. pure-Post _ _ (lease, v) τ' i'))))

  marked-run_id :
      (clock : Times) (interrupt_id : String) (t v : WorkflowState) (r : Result Fault WorkflowState)
      → interrupt clock.engine t (crash_request interrupt_id) ≡ r
      → marked r ≡ ok v
      → v.run_id ≡ t.run_id
  marked-run_id clock interrupt_id t v (ok w) e p =
      let moved = Step-run_id (λ x. x) t w (asked clock.engine (crash_request interrupt_id) e) in
      ground arith
  marked-run_id clock interrupt_id t v (err e') e p = absurd (ground arith)

  recover_step-Keeps :
      (clock : Times) (interrupt_id : String) (t : WorkflowState) (found : Option PlanStep)
      (store : Store)
      → t.run_id ≢ id
      → Stores codec id u store
      → Keeps (recover_step codec seconds clock interrupt_id t found store)
  unfolding Keeps recover_step
  recover_step-Keeps clock interrupt_id t none store d h = throw-Post _ _ _ store h
  recover_step-Keeps clock interrupt_id t (some step) store d h =
      if-Post _ _ (is_running step.status) _ _ store
        (λ _.
          bind-Post _ (λ saved. Stores codec id u) _ _ _
            (commit-Keeps clock t _ (marked (interrupt clock.engine t (crash_request interrupt_id)))
              store (λ v e run. d (sym (marked-run_id clock interrupt_id t v _ refl e) ∙ run)) h)
            (λ saved τ g. pure-Post _ _ true τ g))
        (λ _. pure-Post _ _ false store h)

  recover_current-Keeps :
      (clock : Times) (interrupt_id : String) (t : WorkflowState) (current : Option String)
      (store : Store)
      → t.run_id ≢ id
      → Stores codec id u store
      → Keeps (recover_current codec seconds clock interrupt_id t current store)
  unfolding Keeps recover_current
  recover_current-Keeps clock interrupt_id t none store d h = pure-Post _ _ false store h
  recover_current-Keeps clock interrupt_id t (some step_id) store d h =
      recover_step-Keeps clock interrupt_id t (find_step step_id t.steps) store d h

  pub recover_one-Keeps :
      (clock : Times) (interrupt_id : String) (t : WorkflowState) (store : Store)
      → t.run_id ≢ id
      → Stores codec id u store
      → Keeps (recover_one codec seconds clock interrupt_id t store)
  unfolding Keeps recover_one
  recover_one-Keeps clock interrupt_id t store d h =
      if-Post _ _ (status_is_running t.status) _ _ store
        (λ _. recover_current-Keeps clock interrupt_id t t.current_step_id store d h)
        (λ _. pure-Post _ _ false store h)
