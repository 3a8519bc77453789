-- ===== src/Runtime/Ends.antt =====
-- Postconditions of the effects of workflow/runtime.py of another kind: the code ends.
use synora_agentic_erp.Prelude.{
  ◌≡◌, refl, String, Bool, true, false, Option, none, some, if◌then◌else◌,
}
use synora_agentic_erp.Prelude.Result.{Result, ok, err}
use synora_agentic_erp.Workflow.Contracts.{
  WorkflowState, Fault, workflow_error, value_error, recursion_error,
}
use synora_agentic_erp.Checkpoint.{Store, CheckpointError}
use synora_agentic_erp.Runtime.Effects.{
  RuntimeError, checkpoint_error, engine_error, runtime_error, unending, Runtime, pure, throw,
  continue_with, from_engine, written, leased,
}
use synora_agentic_erp.Runtime.Advance.{handled, guarded, required}

-- The code ends, and Q holds of the value that it returns.
unfoldable pub Ends : {A : Type 0} → (A → Type 0) → Result RuntimeError A × Store → Type 0
Ends Q (err unending, store) = ⊥
Ends Q (err (checkpoint_error e), store) = Unit {0}
Ends Q (err (engine_error e), store) = Unit {0}
Ends Q (err (runtime_error c), store) = Unit {0}
Ends Q (ok a, store) = Q a

pub bind-Ends :
    {A B : Type 0} (Q : A → Type 0) (R : B → Type 0) (m : Result RuntimeError A × Store)
    (f : A → Runtime B)
    → Ends Q m
    → ((a : A) (store : Store) → Q a → Ends R (f a store))
    → Ends R (continue_with m f)
unfolding Ends
bind-Ends Q R (err unending, store) f h k = absurd h
bind-Ends Q R (err (checkpoint_error e), store) f h k = tt
bind-Ends Q R (err (engine_error e), store) f h k = tt
bind-Ends Q R (err (runtime_error c), store) f h k = tt
bind-Ends Q R (ok a, store) f h k = k a store h

pub pure-Ends : {A : Type 0} (Q : A → Type 0) (a : A) (store : Store) → Q a → Ends Q (pure a store)
unfolding Ends
pure-Ends Q a store h = h

pub stop-Ends :
    {A : Type 0} (Q : A → Type 0) (code : String) (store : Store)
    → Ends Q (throw (runtime_error code) store)
unfolding Ends
stop-Ends Q code store = tt

pub from_engine-Ends :
    {A : Type 0} (r : Result Fault A) (store : Store) → Ends (λ a. r ≡ ok a) (from_engine r store)
unfolding Ends
from_engine-Ends (err e) store = tt
from_engine-Ends (ok a) store = refl

pub required-Ends :
    {A : Type 0} (o : Option A) (code : String) (store : Store)
    → Ends (λ a. Unit {0}) (required o code store)
unfolding Ends
required-Ends none code store = tt
required-Ends (some a) code store = tt

pub handled-Ends :
    {A : Type 0} (Q : A → Type 0) (id : String) (held : Option String)
    (m : Result RuntimeError A × Store)
    → Ends Q m
    → Ends Q (handled id held m)
unfolding Ends
handled-Ends Q id held (ok a, store) h = h
handled-Ends Q id held (err (checkpoint_error e), store) h = tt
handled-Ends Q id held (err (engine_error (workflow_error c d)), store) h = tt
handled-Ends Q id held (err (engine_error (value_error t)), store) h = tt
handled-Ends Q id held (err (engine_error recursion_error), store) h = tt
handled-Ends Q id held (err (runtime_error code), store) h = tt
handled-Ends Q id held (err unending, store) h = absurd h

pub guarded-Ends :
    {A : Type 0} (Q : A → Type 0) (current : WorkflowState) (held : Option String)
    (body : Runtime A) (store : Store)
    → Ends Q (body store)
    → Ends Q (guarded current held body store)
unfolding guarded
guarded-Ends Q current held body store h = handled-Ends Q current.run_id held (body store) h

pub if-Ends :
    {A : Type 0} (Q : A → Type 0) (b : Bool) (x y : Runtime A) (store : Store)
    → Ends Q (x store)
    → Ends Q (y store)
    → Ends Q ((if b then x else y) store)
if-Ends Q true x y store t f = t
if-Ends Q false x y store t f = f

pub either-Ends :
    {A : Type 0} (Q : A → Type 0) (b : Bool) (x y : Runtime A) (store : Store)
    → (b ≡ true → Ends Q (x store))
    → (b ≡ false → Ends Q (y store))
    → Ends Q ((elim b as (λ _. Runtime A) [ true ↦ x | false ↦ y ]) store)
either-Ends Q true x y store t f = t refl
either-Ends Q false x y store t f = f refl

pub when-Ends :
    {A : Type 0} (Q : A → Type 0) (b : Bool) (x y : Runtime A) (store : Store)
    → (b ≡ true → Ends Q (x store))
    → (b ≡ false → Ends Q (y store))
    → Ends Q ((if b then x else y) store)
when-Ends Q true x y store t f = t refl
when-Ends Q false x y store t f = f refl

pub written-Ends :
    (r : Result CheckpointError Store) (store : Store) → Ends (λ done. Unit {0}) (written r store)
unfolding Ends
written-Ends (ok after) store = tt
written-Ends (err e) store = tt

pub leased-Ends :
    (r : Result CheckpointError (String × Store)) (store : Store)
    → Ends (λ token. Unit {0}) (leased r store)
unfolding Ends
leased-Ends (ok (token, after)) store = tt
leased-Ends (err e) store = tt
