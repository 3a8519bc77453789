-- ===== src/Runtime/Requests.antt =====
-- The requests of WorkflowRuntime in workflow/runtime.py, and what they leave in the checkpoint store.
use synora_agentic_erp.Prelude.{ℕ, ◌≡◌, refl, String, some}
use synora_agentic_erp.Prelude.Result.{Result, ok, err}
use synora_agentic_erp.Workflow.Contracts.{WorkflowState, PlanStep}
use synora_agentic_erp.Workflow.Invariant.{IsSound}
use synora_agentic_erp.Checkpoint.{Codec, Store}
use synora_agentic_erp.Runtime.{
  Request, get_status, cancel_at, complete, resume_with, start_with, plan_action, serve,
}
use synora_agentic_erp.Runtime.Effects.{RuntimeError, Times}
use synora_agentic_erp.Runtime.Advance.{StepReply}
use synora_agentic_erp.Runtime.Follows.{Follows, Stores, Follows-IsSound}
use synora_agentic_erp.Runtime.Posts.{Post, At, Kept}
use synora_agentic_erp.Runtime.Committing.{
  status-Post, cancel_run-Post, complete_action-Post, resume_run-Post,
}
use synora_agentic_erp.Runtime.Planning.{start_run-Post, plan_governed_action-Post}

serve-Post :
    (codec : Codec) (seconds : ℕ) (sha256 : String → String) (s : WorkflowState)
    (read : codec.parse (codec.dump s) ≡ some s) (tools : PlanStep → StepReply)
    (casefold : String → String) (times : ℕ → Times) (clock : Times) (request : Request)
    (store : Store)
    → Stores codec s.run_id s store
    → Post
        (Kept codec seconds sha256 s)
        (At codec seconds sha256 s)
        (serve codec seconds tools casefold sha256 times clock s.run_id request store)
unfolding serve
serve-Post codec seconds sha256 s read tools casefold times clock get_status store h =
    status-Post codec seconds sha256 s read clock store h
serve-Post codec seconds sha256 s read tools casefold times clock (cancel_at revision) store h =
    cancel_run-Post codec seconds sha256 s read clock revision store h
serve-Post codec seconds sha256 s read tools casefold times clock (complete revision step_id digest)
      store h =
    complete_action-Post codec seconds sha256 s read clock revision step_id digest store h
serve-Post codec seconds sha256 s read tools casefold times clock
      (resume_with revision interrupt_id answer) store h =
    resume_run-Post codec seconds sha256 s read tools times clock revision interrupt_id answer store
      h
serve-Post codec seconds sha256 s read tools casefold times clock
      (start_with trace_id requested goal interrupt_id deadline) store h =
    start_run-Post codec seconds sha256 s read tools times casefold clock trace_id requested goal
      interrupt_id deadline store h
serve-Post codec seconds sha256 s read tools casefold times clock
      (plan_action intent step_id trace_id deadline) store h =
    plan_governed_action-Post codec seconds sha256 s read times clock intent step_id trace_id
      deadline store h

-- The store holds a sound state that follows s, and it is the state of the response, if there is one.
unfoldable pub Refined :
    {A : Type 0}
    → Codec
    → (String → String)
    → WorkflowState
    → (A → WorkflowState → Type 0)
    → Result RuntimeError A × Store
    → Type 0
Refined codec sha256 s IsResponse (ok a, store) =
    (t : WorkflowState) × (IsResponse a t
      × Follows sha256 s t
      × Stores codec s.run_id t store
      × IsSound t)
Refined codec sha256 s IsResponse (err e, store) =
    (t : WorkflowState) × (Follows sha256 s t × Stores codec s.run_id t store × IsSound t)

Post-Refined :
    (codec : Codec) (seconds : ℕ) (sha256 : String → String) (s : WorkflowState)
    (outcome : Result RuntimeError WorkflowState × Store)
    → IsSound s
    → Post (Kept codec seconds sha256 s) (At codec seconds sha256 s) outcome
    → Refined codec sha256 s (λ a t. a ≡ t) outcome
unfolding Post At Kept Refined
Post-Refined codec seconds sha256 s (ok t, store) i (f, h) =
    (t, (refl, f, h, Follows-IsSound sha256 s t f i))
Post-Refined codec seconds sha256 s (err e, store) i (t, (f, h)) =
    (t, (f, h, Follows-IsSound sha256 s t f i))

pub Kept-Refined :
    {A : Type 0} (codec : Codec) (seconds : ℕ) (sha256 : String → String) (s : WorkflowState)
    (outcome : Result RuntimeError A × Store)
    → IsSound s
    → Post (Kept codec seconds sha256 s) (λ done. Kept codec seconds sha256 s) outcome
    → Refined codec sha256 s (λ done t. Unit {0}) outcome
unfolding Post At Kept Refined
Kept-Refined codec seconds sha256 s (ok done, store) i (t, (f, h)) =
    (t, (tt, f, h, Follows-IsSound sha256 s t f i))
Kept-Refined codec seconds sha256 s (err e, store) i (t, (f, h)) =
    (t, (f, h, Follows-IsSound sha256 s t f i))

-- Whatever request is served, and however it ends, the checkpoint of the run stays one of a sound state
-- which successful calls of the engine have made of the state that was stored, and a response is the
-- state that is stored then: for a sound state that is read back as it was written, with any answers of
-- the tools, at any instants.
pub serve-Refined :
    (codec : Codec) (seconds : ℕ) (sha256 : String → String) (s : WorkflowState)
    (tools : PlanStep → StepReply) (casefold : String → String) (times : ℕ → Times) (clock : Times)
    (request : Request) (store : Store)
    → codec.parse (codec.dump s) ≡ some s
    → IsSound s
    → Stores codec s.run_id s store
    → Refined codec sha256 s
        (λ a t. a ≡ t)
        (serve codec seconds tools casefold sha256 times clock s.run_id request store)
serve-Refined codec seconds sha256 s tools casefold times clock request store read i h =
    Post-Refined codec seconds sha256 s _ i
      (serve-Post codec seconds sha256 s read tools casefold times clock request store h)
