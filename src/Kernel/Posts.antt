-- ===== src/Kernel/Posts.antt =====
-- What a run of the kernel keeps to, and the rules that carry it through the stages of a step.
use synora_agentic_erp.Prelude.{
  ℕ, suc, ◌≤◌, ◌≡◌, ◌≢◌, refl, ap, String, Bool, true, false, Option, none, some, List, [], ◌∷◌,
  all, elem, distinct, subset, map, if◌then◌else◌,
}
use synora_agentic_erp.Prelude.Result.{Result, ok, err, ◌>>=◌, ◌>>◌}
use synora_agentic_erp.Limits.Calls.{occurrences}
use synora_agentic_erp.Kernel.Trace.{
  Action, FinalAnswer, Event, StopCode, final_answer, run_stopped, executed, model_calls, proven,
  stops,
}
use synora_agentic_erp.Kernel.{RunResult, State, stop}

-- A postcondition of fallible code: P of what ends the run, Q of what goes on.
unfoldable pub Post :
    {A : Type 0} → (RunResult → Type 0) → (A → Type 0) → Result RunResult A → Type 0
Post P Q (err r) = P r
Post P Q (ok a) = Q a

pub bind-Post :
    {A B : Type 0} (P : RunResult → Type 0) (Q : A → Type 0) (R : B → Type 0)
    (m : Result RunResult A) (f : A → Result RunResult B)
    → Post P Q m
    → ((a : A) → Q a → Post P R (f a))
    → Post P R (m >>= f)
unfolding Post
bind-Post P Q R (err r) f h k = h
bind-Post P Q R (ok a) f h k = k a h

-- A test that goes on when it holds, and one that ends the run when it holds.
pub passes-Post :
    {B : Type 0} (P : RunResult → Type 0) (R : B → Type 0) (b : Bool) (r : RunResult)
    (rest : Result RunResult B)
    → P r
    → (b ≡ true → Post P R rest)
    → Post P R ((if b then ok tt else err r) >> rest)
unfolding Post
passes-Post P R true r rest p h = h refl
passes-Post P R false r rest p h = p

pub stops-Post :
    {B : Type 0} (P : RunResult → Type 0) (R : B → Type 0) (b : Bool) (r : RunResult)
    (rest : Result RunResult B)
    → P r
    → (b ≡ false → Post P R rest)
    → Post P R ((if b then err r else ok tt) >> rest)
unfolding Post
stops-Post P R true r rest p h = p
stops-Post P R false r rest p h = h refl

-- The answer of a run has evidence, and all of it is among the digests that the trace shows as observed
-- with success.
abbrev pub Supported : FinalAnswer → List Event → Type 0
Supported f log = (f.evidence_refs ≢ []) × (subset f.evidence_refs (proven log) ≡ true)

-- An answer comes with the code FINAL_ANSWER and with no other, and it is supported.
abbrev pub Answers : StopCode → Option FinalAnswer → List Event → Type 0
Answers final_answer (some f) log = Supported f log
Answers final_answer none log = ⊥
Answers _ (some f) log = ⊥
Answers _ none log = Unit {0}

module _ (key : Action → String) (allowed : List String) (most : ℕ) where
  -- The calls of tools that a run may make: of allowed tools, no two the same, none too often.
  pub record Legal (actions : List Action) : Type 0 where
    pub tools : all (λ a. elem a.tool_name allowed) actions ≡ true
    pub different : distinct (map key actions) ≡ true
    pub frequency : (t : String) → occurrences t (map (λ a. a.tool_name) actions) ≤ most

  -- What holds of the result of a run with at most n calls of the model.
  pub record Ends (n : ℕ) (r : RunResult) : Type 0 where
    pub legal : Legal (executed r.log)
    pub calls : model_calls r.log ≤ n
    pub once : stops r.log ≡ 1
    pub last : (before : List Event) × (r.log ≡ run_stopped r.step r.code r.detail ∷ before)
    pub answers : Answers r.code r.answer r.log

  -- What holds of a log as long as the run goes on.
  pub record Open (n : ℕ) (log : List Event) : Type 0 where
    pub legal : Legal (executed log)
    pub calls : model_calls log ≤ n
    pub going : stops log ≡ 0

  pub stop-Ends :
      (n : ℕ) (s : State) (code : StopCode) (step : ℕ) (detail : String)
      (answer : Option FinalAnswer)
      → Open n s.log
      → Answers code answer (run_stopped step code detail ∷ s.log)
      → Ends n (stop s code step detail answer)
  unfolding stop executed model_calls stops
  stop-Ends n s code step detail answer o h = record {
    legal = o.legal;
    calls = o.calls;
    once = ap suc o.going;
    last = (s.log, refl);
    answers = h;
  }
