-- ===== src/Runtime/Loading.antt =====
-- workflow/runtime.py: a request loads the state whose checkpoint is stored, or raises.
use synora_agentic_erp.Prelude.{
  ℕ, ◌≡◌, refl, sym, ap, ◌∙◌, subst, String, Option, some, List, nat_eq, ◌≢◌, arith, inl, inr,
}
use synora_agentic_erp.Prelude.Result.{ok, err, Result-cases}
use synora_agentic_erp.Workflow.Contracts.{WorkflowState, PlanStep}
use synora_agentic_erp.Workflow.Engine.{create_state}
use synora_agentic_erp.Checkpoint.{Codec, Store, select, encode, load, create, conflict, not_found}
use synora_agentic_erp.Runtime.Effects.{
  Runtime, RuntimeError, runtime_error, checkpoint_error, pure, throw, ◌>>=◌, ◌>>◌, fetch,
}
use synora_agentic_erp.Runtime.Follows.{same, Stores}
use synora_agentic_erp.Runtime.Posts.{
  Post, bind-Post, pure-Post, throw-Post, if-Post, At, Kept, At-Kept,
}
use synora_agentic_erp.Workflow.Validation.{accepted, accepted-some}
use synora_agentic_erp.Runtime.{fresh_revision}

pub load-Stores :
    (codec : Codec) (s t : WorkflowState) (store : Store)
    → codec.parse (codec.dump s) ≡ some s
    → Stores codec s.run_id s store
    → load codec s.run_id store ≡ ok t
    → s ≡ t
unfolding load
load-Stores codec s t store read h e =
    let found = h.found in
    let back : codec.parse h.row.payload ≡ some s = ap codec.parse h.payload ∙ read in
    let taken : accepted (codec.parse h.row.payload) ≡ some t = ground arith in
    let same = accepted-some (codec.parse h.row.payload) t taken in ground arith

pub create-Stores :
    (codec : Codec) (seconds : ℕ) (s t : WorkflowState) (lease : Option String) (now instant : ℕ)
    (store after : Store)
    → t.run_id ≡ s.run_id
    → Stores codec s.run_id s store
    → create codec seconds t lease now instant store ≡ ok after
    → ⊥
unfolding create
create-Stores codec seconds s t lease now instant store after run h e =
    let found : select t.run_id store.checkpoints ≡ some h.row =
      ap (λ id. select id store.checkpoints) run ∙ h.found in
    elim (Result-cases (encode codec t)) [
      | inl (payload, p) ↦ ground arith
      | inr (e', p) ↦ ground arith
    ]

pub load-found :
    (codec : Codec) (s : WorkflowState) (store : Store)
    → Stores codec s.run_id s store
    → load codec s.run_id store ≢ err not_found
unfolding load
load-found codec s store h e = let found = h.found in ground arith

pub created_run :
    (id trace_id : String) (steps : List PlanStep) (deadline : ℕ) (t : WorkflowState)
    → create_state id trace_id steps deadline ≡ ok t
    → t.run_id ≡ id
unfolding create_state
created_run id trace_id steps deadline t e = ground arith

module _ (codec : Codec) (seconds : ℕ) (sha256 : String → String) (s : WorkflowState)
    (read : codec.parse (codec.dump s) ≡ some s) where
  pub fresh-Post :
      (revision : ℕ) (t : WorkflowState) (store : Store)
      → At codec seconds sha256 s t store
      → Post
          (Kept codec seconds sha256 s)
          (λ done. At codec seconds sha256 s t)
          (fresh_revision revision t store)
  fresh-Post revision t store h =
      if-Post _ _ (nat_eq t.revision revision) (pure tt) (throw (checkpoint_error conflict)) store
        (λ _. pure-Post _ _ _ store h)
        (λ _. throw-Post _ _ _ store (At-Kept codec seconds sha256 s t store h))

  pub fetch-Post :
      (store : Store)
      → Stores codec s.run_id s store
      → Post
          (Kept codec seconds sha256 s)
          (λ t σ. At codec seconds sha256 s t σ × (s ≡ t))
          (fetch codec seconds s.run_id store)
  unfolding fetch Post At Kept
  fetch-Post store h = elim (Result-cases (load codec s.run_id store)) [
    | inl (t, p) ↦
        let e = load-Stores codec s t store read h p in
        rw p ((same e, subst (λ x. Stores codec s.run_id x store) e h), e)
    | inr (e, p) ↦ rw p (s, (same refl, h))
  ]

  pub loaded_here :
      (t : WorkflowState) (store : Store)
      → s ≡ t
      → Stores codec s.run_id s store
      → Post
          (Kept codec seconds sha256 s)
          (λ t σ. At codec seconds sha256 s t σ × (s ≡ t))
          (pure t store)
  unfolding Post At
  loaded_here t store e h = ((same e, subst (λ x. Stores codec s.run_id x store) e h), e)

  pub stored-Kept :
      (store : Store) → Stores codec s.run_id s store → Kept codec seconds sha256 s store
  unfolding Kept At
  stored-Kept store h = (s, (same refl, h))

  pub raise-Post :
      {A : Type 0} (Q : A → Store → Type 0) (e : RuntimeError) (store : Store)
      → Stores codec s.run_id s store
      → Post (Kept codec seconds sha256 s) Q (throw e store)
  raise-Post Q e store h = throw-Post _ Q e store (stored-Kept store h)

  pub stored-At :
      (store : Store) → Stores codec s.run_id s store → At codec seconds sha256 s s store
  unfolding At
  stored-At store h = (same refl, h)

  pub fetched-Post :
      (store : Store)
      → Stores codec s.run_id s store
      → Post
          (Kept codec seconds sha256 s)
          (At codec seconds sha256 s)
          (fetch codec seconds s.run_id store)
  unfolding fetch
  fetched-Post store h = elim (Result-cases (load codec s.run_id store)) [
    | inl (t, p) ↦
        let e = load-Stores codec s t store read h p in
        rw p (
          pure-Post _ _ t store
            (subst (λ x. At codec seconds sha256 s x store) e (stored-At store h)))
    | inr (e, p) ↦ rw p (raise-Post _ _ store h)
  ]

  pub refused :
      (t : WorkflowState) (store : Store)
      → At codec seconds sha256 s t store
      → Post
          (Kept codec seconds sha256 s)
          (At codec seconds sha256 s)
          (throw (runtime_error "WORKFLOW_CONFLICT") store)
  refused t store h = throw-Post _ _ _ store (At-Kept codec seconds sha256 s t store h)

  -- The first two lines of most requests.
  pub loaded-Post :
      {B : Type 0} (R : B → Store → Type 0) (rest : WorkflowState → Runtime B) (store : Store)
      → Stores codec s.run_id s store
      → ((σ : Store)
          → At codec seconds sha256 s s σ
          → Post (Kept codec seconds sha256 s) R (rest s σ))
      → Post (Kept codec seconds sha256 s) R ((fetch codec seconds s.run_id >>= rest) store)
  loaded-Post R rest store h k =
      bind-Post _ (λ t σ. At codec seconds sha256 s t σ × (s ≡ t)) R _ _ (fetch-Post store h)
        (λ t σ (g, e).
          subst (λ x. Post (Kept codec seconds sha256 s) R (rest x σ)) e
            (k σ (subst (λ x. At codec seconds sha256 s x σ) (sym e) g)))

  pub fresh_loaded-Post :
      {B : Type 0} (R : B → Store → Type 0) (revision : ℕ) (rest : WorkflowState → Runtime B)
      (store : Store)
      → Stores codec s.run_id s store
      → ((σ : Store)
          → At codec seconds sha256 s s σ
          → Post (Kept codec seconds sha256 s) R (rest s σ))
      → Post
          (Kept codec seconds sha256 s)
          R
          ((fetch codec seconds s.run_id >>= λ t. fresh_revision revision t >> rest t) store)
  fresh_loaded-Post R revision rest store h k = loaded-Post R _ store h (λ σ g.
      bind-Post _ (λ done. At codec seconds sha256 s s) R _ _ (fresh-Post revision s σ g)
        (λ done τ i. k τ i))
