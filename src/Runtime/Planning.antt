-- ===== src/Runtime/Planning.antt =====
-- The requests of workflow/runtime.py that start a workflow, or plan its next governed action.
use synora_agentic_erp.Prelude.{ℕ, ◌≡◌, refl, sym, subst, String, ◌==◌, none, some, List, any}
use synora_agentic_erp.Prelude.Result.{Result, ok, err}
use synora_agentic_erp.Workflow.Contracts.{
  WorkflowState, PlanStep, GovernedActionIntent, ReplanReason,
}
use synora_agentic_erp.Workflow.Histories.{replanned}
use synora_agentic_erp.Workflow.Engine.{create_state, status_is_ready}
use synora_agentic_erp.Checkpoint.{
  CheckpointError, Codec, Store, load, conflict, not_found, incompatible, unavailable,
}
use synora_agentic_erp.Runtime.Effects.{Times, fetch}
use synora_agentic_erp.Runtime.Advance.{StepReply}
use synora_agentic_erp.Runtime.Follows.{next, Stores}
use synora_agentic_erp.Runtime.Posts.{
  Post, bind-Post, from_engine-Post, pure-Post, if-Post, At, Kept,
}
use synora_agentic_erp.Runtime.Advancing.{advance-Post}
use synora_agentic_erp.Runtime.{
  created_or_loaded, create_or_load, start_run, default_plan, requested_steps, loaded_or_created,
  load_or_create, plan_next, plan_governed_action, find_current, is_busy, is_same, only_intent,
  refuses,
}
use synora_agentic_erp.Runtime.Loading.{
  load-Stores, create-Stores, load-found, created_run, loaded_here, stored-Kept, raise-Post,
  fetched-Post, refused,
}
use synora_agentic_erp.Runtime.Committing.{commit-Post}

module _ (codec : Codec) (seconds : ℕ) (sha256 : String → String) (s : WorkflowState)
    (read : codec.parse (codec.dump s) ≡ some s) where
  pub created_or_loaded-Post :
      (t : WorkflowState) (r : Result CheckpointError Store) (store : Store)
      → t.run_id ≡ s.run_id
      → ((after : Store) → r ≡ ok after → ⊥)
      → Stores codec s.run_id s store
      → Post
          (Kept codec seconds sha256 s)
          (At codec seconds sha256 s)
          (created_or_loaded codec seconds t r store)
  created_or_loaded-Post t (ok after) store run never h = absurd (never after refl)
  created_or_loaded-Post t (err conflict) store run never h =
      subst
        (λ id.
          Post (Kept codec seconds sha256 s) (At codec seconds sha256 s)
            (fetch codec seconds id store))
        (sym run) (fetched-Post codec seconds sha256 s read store h)
  created_or_loaded-Post t (err not_found) store run never h =
      raise-Post codec seconds sha256 s read _ _ store h
  created_or_loaded-Post t (err incompatible) store run never h =
      raise-Post codec seconds sha256 s read _ _ store h
  created_or_loaded-Post t (err unavailable) store run never h =
      raise-Post codec seconds sha256 s read _ _ store h

  pub start_run-Post :
      (tools : PlanStep → StepReply) (times : ℕ → Times) (casefold : String → String)
      (clock : Times) (trace_id : String) (requested : List PlanStep) (goal interrupt_id : String)
      (deadline : ℕ) (store : Store)
      → Stores codec s.run_id s store
      → Post (Kept codec seconds sha256 s) (At codec seconds sha256 s) (
          start_run codec seconds tools times casefold clock s.run_id trace_id requested goal
            interrupt_id deadline store)
  unfolding start_run create_or_load At
  start_run-Post tools times casefold clock trace_id requested goal interrupt_id deadline store h =
      let steps = requested_steps requested (default_plan casefold goal interrupt_id) in
      bind-Post _ (λ t σ. (t.run_id ≡ s.run_id) × Stores codec s.run_id s σ) _ _ _
        (from_engine-Post (Kept codec seconds sha256 s)
          (λ t σ. (t.run_id ≡ s.run_id) × Stores codec s.run_id s σ)
          (create_state s.run_id trace_id steps deadline) store
          (stored-Kept codec seconds sha256 s read store h)
          (λ t e. (created_run s.run_id trace_id steps deadline t e, h)))
        (λ t σ (run, i).
          bind-Post _ (At codec seconds sha256 s) _ _ _
            (created_or_loaded-Post t _ σ run
              (λ after e.
                create-Stores codec seconds s t none clock.saved clock.renewed σ after run i e)
              i)
            (λ u τ g. advance-Post codec seconds sha256 s (some tools) times u none τ g))

  pub loaded_or_created-Post :
      (clock : Times) (trace_id : String) (step : PlanStep) (deadline : ℕ)
      (r : Result CheckpointError WorkflowState) (store : Store)
      → load codec s.run_id store ≡ r
      → Stores codec s.run_id s store
      → Post
          (Kept codec seconds sha256 s)
          (λ t σ. At codec seconds sha256 s t σ × (s ≡ t))
          (loaded_or_created codec seconds clock s.run_id trace_id step deadline r store)
  loaded_or_created-Post clock trace_id step deadline (ok t) store e h =
      loaded_here codec seconds sha256 s read t store (load-Stores codec s t store read h e) h
  loaded_or_created-Post clock trace_id step deadline (err not_found) store e h =
      absurd (load-found codec s store h e)
  loaded_or_created-Post clock trace_id step deadline (err conflict) store e h =
      raise-Post codec seconds sha256 s read _ _ store h
  loaded_or_created-Post clock trace_id step deadline (err incompatible) store e h =
      raise-Post codec seconds sha256 s read _ _ store h
  loaded_or_created-Post clock trace_id step deadline (err unavailable) store e h =
      raise-Post codec seconds sha256 s read _ _ store h

  pub planned-Post :
      (times : ℕ → Times) (clock : Times) (intent : GovernedActionIntent) (step_id : String)
      (t : WorkflowState) (store : Store)
      → At codec seconds sha256 s t store
      → Post
          (Kept codec seconds sha256 s)
          (At codec seconds sha256 s)
          (plan_next codec seconds times clock intent step_id t store)
  unfolding plan_next At
  planned-Post times clock intent step_id t store (f, h) =
      bind-Post _ (λ saved. At codec seconds sha256 s saved.1) _ _ _
        (commit-Post codec seconds sha256 s clock t _ _ store (f, h)
          (λ u e. next f (replanned clock.engine _ ReplanReason.no_progress e)))
        (λ saved τ g. advance-Post codec seconds sha256 s none times saved.1 none τ g)

  pub plan_governed_action-Post :
      (times : ℕ → Times) (clock : Times) (intent : GovernedActionIntent)
      (step_id trace_id : String) (deadline : ℕ) (store : Store)
      → Stores codec s.run_id s store
      → Post (Kept codec seconds sha256 s) (At codec seconds sha256 s) (
          plan_governed_action codec seconds times clock s.run_id intent step_id trace_id deadline
            store)
  unfolding plan_governed_action load_or_create
  plan_governed_action-Post times clock intent step_id trace_id deadline store h =
      bind-Post _ (λ t σ. At codec seconds sha256 s t σ × (s ≡ t)) _ _ _
        (loaded_or_created-Post clock trace_id _ deadline _ store refl h)
        (λ t σ (g, e).
          if-Post _ _ (is_busy (find_current t)) _ _ σ
            (λ _.
              if-Post _ _ (is_same intent (find_current t)) _ _ σ (λ _. pure-Post _ _ t σ g)
                (λ _. refused codec seconds sha256 s read t σ g))
            (λ _.
              if-Post _ _ (status_is_ready t.status) _ _ σ
                (λ _.
                  if-Post _ _ (only_intent intent t.steps) _ _ σ
                    (λ _. advance-Post codec seconds sha256 s none times t none σ g)
                    (λ _. refused codec seconds sha256 s read t σ g))
                (λ _.
                  if-Post _ _ (refuses t.status) _ _ σ
                    (λ _. refused codec seconds sha256 s read t σ g)
                    (λ _.
                      if-Post _ _ (any (λ item. item.step_id == step_id) t.steps) _ _ σ
                        (λ _. refused codec seconds sha256 s read t σ g)
                        (λ _. planned-Post times clock intent step_id t σ g)))))
