-- ===== src/Runtime/Posts.antt =====
-- Postconditions of the effects of workflow/runtime.py: what holds of the store when they return, and
-- when they raise.
use synora_agentic_erp.Prelude.{
  ℕ, ◌≡◌, refl, String, Bool, true, false, Option, none, some, inl, inr, if◌then◌else◌,
}
use synora_agentic_erp.Prelude.Result.{Result, ok, err, Result-cases}
use synora_agentic_erp.Workflow.Contracts.{
  WorkflowState, Fault, workflow_error, value_error, recursion_error,
}
use synora_agentic_erp.Checkpoint.{Codec, Store, save, acquire_lease, release_lease}
use synora_agentic_erp.Runtime.Effects.{
  RuntimeError, checkpoint_error, engine_error, runtime_error, unending, Runtime, pure, throw,
  continue_with, from_engine, Times, acquire, persist, release_held, released_on_error, protect,
}
use synora_agentic_erp.Runtime.Advance.{handled, guarded, required}
use synora_agentic_erp.Runtime.Follows.{
  Follows, Follows-run_id, Stores, release-Stores, acquire_lease-Stores, save-Stores,
}

-- P of the store when the code raises, and Q of the value and the store when it returns.
unfoldable pub Post :
    {A : Type 0} → (Store → Type 0) → (A → Store → Type 0) → Result RuntimeError A × Store → Type 0
Post P Q (err e, store) = P store
Post P Q (ok a, store) = Q a store

pub bind-Post :
    {A B : Type 0} (P : Store → Type 0) (Q : A → Store → Type 0) (R : B → Store → Type 0)
    (m : Result RuntimeError A × Store) (f : A → Runtime B)
    → Post P Q m
    → ((a : A) (store : Store) → Q a store → Post P R (f a store))
    → Post P R (continue_with m f)
unfolding Post
bind-Post P Q R (err e, store) f h k = h
bind-Post P Q R (ok a, store) f h k = k a store h

pub pure-Post :
    {A : Type 0} (P : Store → Type 0) (Q : A → Store → Type 0) (a : A) (store : Store)
    → Q a store
    → Post P Q (pure a store)
unfolding Post
pure-Post P Q a store h = h

pub throw-Post :
    {A : Type 0} (P : Store → Type 0) (Q : A → Store → Type 0) (e : RuntimeError) (store : Store)
    → P store
    → Post P Q (throw e store)
unfolding Post
throw-Post P Q e store h = h

pub from_engine-Post :
    {A : Type 0} (P : Store → Type 0) (Q : A → Store → Type 0) (r : Result Fault A) (store : Store)
    → P store
    → ((a : A) → r ≡ ok a → Q a store)
    → Post P Q (from_engine r store)
unfolding Post
from_engine-Post P Q (err e) store p q = p
from_engine-Post P Q (ok a) store p q = q a refl

pub required-Post :
    {A : Type 0} (P : Store → Type 0) (Q : A → Store → Type 0) (o : Option A) (code : String)
    (store : Store)
    → P store
    → ((a : A) → o ≡ some a → Q a store)
    → Post P Q (required o code store)
unfolding Post
required-Post P Q none code store p q = p
required-Post P Q (some a) code store p q = q a refl

pub if-Post :
    {A : Type 0} (P : Store → Type 0) (Q : A → Store → Type 0) (b : Bool) (x y : Runtime A)
    (store : Store)
    → (b ≡ true → Post P Q (x store))
    → (b ≡ false → Post P Q (y store))
    → Post P Q ((if b then x else y) store)
if-Post P Q true x y store t f = t refl
if-Post P Q false x y store t f = f refl

pub either-Post :
    {A : Type 0} (P : Store → Type 0) (Q : A → Store → Type 0) (b : Bool) (x y : Runtime A)
    (store : Store)
    → (b ≡ true → Post P Q (x store))
    → (b ≡ false → Post P Q (y store))
    → Post P Q ((elim b as (λ _. Runtime A) [ true ↦ x | false ↦ y ]) store)
either-Post P Q true x y store t f = t refl
either-Post P Q false x y store t f = f refl

-- The checkpoint of s is kept, up to what successful calls make of it: it is that of a state which
-- follows s, or of a given one.
module _ (codec : Codec) (seconds : ℕ) (sha256 : String → String) (s : WorkflowState) where
  unfoldable pub At : WorkflowState → Store → Type 0
  At t store = Follows sha256 s t × Stores codec s.run_id t store

  unfoldable pub Kept : Store → Type 0
  unfolding At
  Kept store = (t : WorkflowState) × At t store

  pub At-Kept : (t : WorkflowState) (store : Store) → At t store → Kept store
  unfolding Kept
  At-Kept t store h = (t, h)

  release-Kept :
      (other lease : String) (store : Store) → Kept store → Kept (release_lease other lease store)
  unfolding Kept At
  release-Kept other lease store (t, (f, h)) =
      (t, (f, release-Stores codec s.run_id t store other lease h))

  release_held-Kept :
      (other : String) (held : Option String) (store : Store)
      → Kept store
      → Kept (release_held other held store)
  release_held-Kept other none store h = h
  release_held-Kept other (some lease) store h = release-Kept other lease store h

  handled-Post :
      {A : Type 0} (Q : A → Store → Type 0) (id : String) (held : Option String)
      (m : Result RuntimeError A × Store)
      → Post Kept Q m
      → Post Kept Q (handled id held m)
  unfolding Post
  handled-Post Q id held (ok a, store) h = h
  handled-Post Q id held (err (checkpoint_error e), store) h = h
  handled-Post Q id held (err (engine_error (workflow_error c d)), store) h =
      release_held-Kept id held store h
  handled-Post Q id held (err (engine_error (value_error t)), store) h =
      release_held-Kept id held store h
  handled-Post Q id held (err (engine_error recursion_error), store) h =
      release_held-Kept id held store h
  handled-Post Q id held (err (runtime_error code), store) h = release_held-Kept id held store h
  handled-Post Q id held (err unending, store) h = h

  pub guarded-Post :
      {A : Type 0} (Q : A → Store → Type 0) (current : WorkflowState) (held : Option String)
      (body : Runtime A) (store : Store)
      → Post Kept Q (body store)
      → Post Kept Q (guarded current held body store)
  unfolding guarded
  guarded-Post Q current held body store h = handled-Post Q current.run_id held (body store) h

  released-Post :
      {A : Type 0} (Q : A → Store → Type 0) (id lease : String) (m : Result RuntimeError A × Store)
      → Post Kept Q m
      → Post Kept Q (released_on_error id lease m)
  unfolding Post
  released-Post Q id lease (ok a, store) h = h
  released-Post Q id lease (err e, store) h = release-Kept id lease store h

  pub protect-Post :
      {A : Type 0} (Q : A → Store → Type 0) (id lease : String) (body : Runtime A) (store : Store)
      → Post Kept Q (body store)
      → Post Kept Q (protect id lease body store)
  protect-Post Q id lease body store h = released-Post Q id lease (body store) h

  pub acquire-Post :
      (times : Times) (t : WorkflowState) (other : String) (expected : ℕ) (store : Store)
      → At t store
      → Post Kept (λ lease. At t) (acquire codec seconds times other expected store)
  unfolding acquire Post Kept At
  acquire-Post times t other expected store (f, h) =
      elim (Result-cases (acquire_lease seconds times.token other expected times.acquired store)) [
        | inr (e, p) ↦ rw p (t, (f, h))
        | inl ((token, after), p) ↦ rw p (
          f,
          acquire_lease-Stores codec s.run_id t store after seconds times.token other expected
              times.acquired token p h,
        )
      ]

  pub persist-Post :
      (times : Times) (current t u : WorkflowState) (lease : Option String) (keep : Bool)
      (store : Store)
      → At t store
      → Follows sha256 s u
      → Post Kept (λ done. At u) (persist codec seconds times current u lease keep store)
  unfolding persist Post Kept At
  persist-Post times current t u lease keep store (f, h) g =
      elim (Result-cases (
        save codec seconds u current.revision lease keep times.saved times.checked times.renewed
          store)) [
            | inr (e, p) ↦ rw p (t, (f, h))
            | inl (after, p) ↦ rw p (
              g,
              save-Stores codec s.run_id u store after seconds current.revision lease keep
                  times.saved times.checked times.renewed (Follows-run_id sha256 s u g) p,
            )
          ]
