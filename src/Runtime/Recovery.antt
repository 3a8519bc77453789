-- ===== src/Runtime/Recovery.antt =====
-- WorkflowRuntime.recover of workflow/runtime.py, over all the rows that recoverable() of
-- workflow/checkpoint.py finds.
use synora_agentic_erp.Prelude.{
  ℕ, ◌+◌, ◌≡◌, ◌≢◌, refl, sym, ap, ◌∙◌, subst, String, ◌==◌, true, false, Option, none, some, List,
  [], ◌∷◌, arith, inl, inr, Bool-cases, eq_iff, if◌then◌else◌, elem, distinct, map, length,
}
use synora_agentic_erp.Prelude.Result.{Result, ok, err}
use synora_agentic_erp.Workflow.Contracts.{WorkflowState}
use synora_agentic_erp.Workflow.Invariant.{IsSound}
use synora_agentic_erp.Checkpoint.{Codec, Row, Store, select, recoverable_row}
use synora_agentic_erp.Runtime.{recover_one, recover_row, recover_rows, recover}
use synora_agentic_erp.Runtime.Effects.{continue_with, RuntimeError, Runtime, Times}
use synora_agentic_erp.Runtime.Follows.{differs, Stores, same}
use synora_agentic_erp.Runtime.Posts.{Post, bind-Post, pure-Post, At, Kept}
use synora_agentic_erp.Runtime.Committing.{recover_one-Post}
use synora_agentic_erp.Runtime.Requests.{Refined, Kept-Refined}
use synora_agentic_erp.Runtime.Failures.{same_row}
use synora_agentic_erp.Workflow.Validation.{accepted-some}
use synora_agentic_erp.Runtime.Apart.{Keeps, recover_one-Keeps}

-- P holds of every row.
unfoldable pub Rows : (Row → Type 0) → List Row → Type 0
Rows P [] = Unit {0}
Rows P (row ∷ rows) = P row × Rows P rows

-- A payload that can be read is of the run that its row is of.
unfoldable pub Owned : Option WorkflowState → String → Type 0
Owned none id = Unit {0}
Owned (some t) id = t.run_id ≡ id

recoverable_row-parse :
    (codec : Codec) (now : ℕ) (row : Row) (t : WorkflowState)
    → recoverable_row codec now row ≡ some t
    → codec.parse row.payload ≡ some t
unfolding recoverable_row
recoverable_row-parse codec now row t h = accepted-some (codec.parse row.payload) t (ground arith)

weaken-Post :
    {A : Type 0} (P P' : Store → Type 0) (m : Result RuntimeError A × Store)
    → ((σ : Store) → P σ → P' σ)
    → Post P (λ a. P) m
    → Post P' (λ a. P') m
unfolding Post
weaken-Post P P' (err e, store) w h = w store h
weaken-Post P P' (ok a, store) w h = w store h

-- A part that leaves the checkpoint alone, and the rest after it.
unchanged_bind-Post :
    {A B : Type 0} (P P' : Store → Type 0) (R : B → Store → Type 0)
    (m : Result RuntimeError A × Store) (f : A → Runtime B)
    → ((σ : Store) → P σ → P' σ)
    → Post P (λ a. P) m
    → ((a : A) (σ : Store) → P σ → Post P' R (f a σ))
    → Post P' R (continue_with m f)
unfolding Post
unchanged_bind-Post P P' R (err e, store) f w h k = w store h
unchanged_bind-Post P P' R (ok a, store) f w h k = k a store h

same_state : (a b : WorkflowState) → some a ≡ some b → a ≡ b
same_state a b h = ground arith

payload_run :
    (codec : Codec) (row : Row) (t : WorkflowState)
    → Owned (codec.parse row.payload) row.run_id
    → codec.parse row.payload ≡ some t
    → t.run_id ≡ row.run_id
unfolding Owned
payload_run codec row t o p = subst (λ x. Owned x row.run_id) p o

-- The row of the run of s reads as s.
reads_as :
    (codec : Codec) (s : WorkflowState) (row : Row) (store : Store)
    → codec.parse (codec.dump s) ≡ some s
    → Stores codec s.run_id s store
    → select row.run_id store.checkpoints ≡ some row
    → row.run_id ≡ s.run_id
    → codec.parse row.payload ≡ some s
reads_as codec s row store read h found e =
    let here : select s.run_id store.checkpoints ≡ some row =
      ap (λ id. select id store.checkpoints) (sym e) ∙ found in
    let same : h.row ≡ row = same_row h.row row (sym h.found ∙ here) in
    ap (λ r. codec.parse r.payload) (sym same) ∙ ap codec.parse h.payload ∙ read

module _ (codec : Codec) (seconds : ℕ) (sha256 : String → String) (s : WorkflowState)
    (times : ℕ → Times) (crash_id : WorkflowState → String) (now : ℕ) where
  -- A row of another run.
  other-Post :
      (clock : Times) (interrupt_id : String) (row : Row) (found : Option WorkflowState)
      (t : WorkflowState) (store : Store)
      → row.run_id ≢ s.run_id
      → Owned (codec.parse row.payload) row.run_id
      → recoverable_row codec now row ≡ found
      → Stores codec s.run_id t store
      → Post
          (Stores codec s.run_id t)
          (λ done. Stores codec s.run_id t)
          (recover_row codec seconds clock interrupt_id found store)
  unfolding recover_row Keeps
  other-Post clock interrupt_id row none t store d o e h = pure-Post _ _ false store h
  other-Post clock interrupt_id row (some v) t store d o e h =
      recover_one-Keeps codec seconds s.run_id t clock interrupt_id v store
        (λ run. d (sym (payload_run codec row v o (recoverable_row-parse codec now row v e)) ∙ run))
        h

  -- The rows after that of the run of s.
  rest-Post :
      (rows : List Row) (n : ℕ) (store : Store)
      → elem s.run_id (map (λ r. r.run_id) rows) ≡ false
      → Rows (λ r. Owned (codec.parse r.payload) r.run_id) rows
      → Kept codec seconds sha256 s store
      → Post
          (Kept codec seconds sha256 s)
          (λ m. Kept codec seconds sha256 s)
          (recover_rows codec seconds times crash_id now rows n store)
  unfolding recover_rows Rows Kept At
  rest-Post [] n store absent owned h = pure-Post _ _ n store h
  rest-Post (row ∷ rows) n store absent (o, owned) (t, (f, h)) =
      let d : row.run_id ≢ s.run_id = λ e. ground (arith, eq_iff row.run_id s.run_id) in
      let later : elem s.run_id (map (λ r. r.run_id) rows) ≡ false = ground arith in
      bind-Post _ (λ done. Kept codec seconds sha256 s) _ _ _
        (weaken-Post (Stores codec s.run_id t) (Kept codec seconds sha256 s) _ (λ σ g. (t, (f, g)))
          (other-Post (times (length rows)) _ row _ t store d o refl h))
        (λ done σ g. rest-Post rows (if done then n + 1 else n) σ later owned g)

  own-Post :
      (clock : Times) (interrupt_id : String) (found : Option WorkflowState) (row : Row)
      (store : Store)
      → codec.parse row.payload ≡ some s
      → recoverable_row codec now row ≡ found
      → Stores codec s.run_id s store
      → Post
          (Kept codec seconds sha256 s)
          (λ done. Kept codec seconds sha256 s)
          (recover_row codec seconds clock interrupt_id found store)
  unfolding recover_row Kept At
  own-Post clock interrupt_id none row store p e h = pure-Post _ _ false store (s, (same refl, h))
  own-Post clock interrupt_id (some v) row store p e h =
      let is : s ≡ v = same_state s v (sym p ∙ recoverable_row-parse codec now row v e) in
      subst
        (λ x.
          Post (Kept codec seconds sha256 s) (λ done. Kept codec seconds sha256 s)
            (recover_one codec seconds clock interrupt_id x store))
        is (recover_one-Post codec seconds sha256 s clock interrupt_id s store (same refl, h))

  all-Post :
      (rows : List Row) (n : ℕ) (before store : Store)
      → codec.parse (codec.dump s) ≡ some s
      → Stores codec s.run_id s before
      → distinct (map (λ r. r.run_id) rows) ≡ true
      → Rows (λ r. Owned (codec.parse r.payload) r.run_id) rows
      → Rows (λ r. select r.run_id before.checkpoints ≡ some r) rows
      → Stores codec s.run_id s store
      → Post
          (Kept codec seconds sha256 s)
          (λ m. Kept codec seconds sha256 s)
          (recover_rows codec seconds times crash_id now rows n store)
  unfolding recover_rows Rows Kept At
  all-Post [] n before store read stored keys owned selected h =
      pure-Post _ _ n store (s, (same refl, h))
  all-Post (row ∷ rows) n before store read stored keys (o, owned) (e, selected) h =
      let later : distinct (map (λ r. r.run_id) rows) ≡ true = ground arith in
      elim (Bool-cases (row.run_id == s.run_id)) [
        | inl p ↦
            let run : row.run_id ≡ s.run_id = (eq_iff row.run_id s.run_id).0 p in
            let absent : elem row.run_id (map (λ r. r.run_id) rows) ≡ false = ground arith in
            bind-Post _ (λ done. Kept codec seconds sha256 s) _ _ _
              (own-Post (times (length rows)) _ _ row store
                (reads_as codec s row before read stored e run) refl h)
              (λ done σ g.
                rest-Post rows (if done then n + 1 else n) σ
                  (ap (λ id. elem id (map (λ r. r.run_id) rows)) (sym run) ∙ absent) owned g)
        | inr p ↦
            unchanged_bind-Post (Stores codec s.run_id s) (Kept codec seconds sha256 s) _ _ _
              (λ σ g. (s, (same refl, g)))
              (other-Post (times (length rows)) _ row _ s store (differs row.run_id s.run_id p) o
                refl h)
              (λ done σ g.
                all-Post rows (if done then n + 1 else n) before σ read stored later owned selected
                  g)
      ]

-- Whatever runs are recovered at the start, and however the recovery ends, the checkpoint of every run
-- that is stored soundly stays one of a sound state that calls of the engine have made of the stored
-- one: for a state that is read back as it was written, if the query returns rows of the table, none
-- twice, whose payloads are of the runs that the rows are of.
pub recover-Refined :
    (codec : Codec) (seconds : ℕ) (sha256 : String → String) (s : WorkflowState) (times : ℕ → Times)
    (crash_id : WorkflowState → String) (now : ℕ) (selected : List Row) (store : Store)
    → codec.parse (codec.dump s) ≡ some s
    → IsSound s
    → Stores codec s.run_id s store
    → distinct (map (λ r. r.run_id) selected) ≡ true
    → Rows (λ r. Owned (codec.parse r.payload) r.run_id) selected
    → Rows (λ r. select r.run_id store.checkpoints ≡ some r) selected
    → Refined codec sha256 s
        (λ n t. Unit {0})
        (recover codec seconds times crash_id now selected store)
unfolding recover
recover-Refined codec seconds sha256 s times crash_id now selected store read i h keys owned found =
    Kept-Refined codec seconds sha256 s _ i (
      all-Post codec seconds sha256 s times crash_id now selected 0 store store read h keys owned
        found h)
