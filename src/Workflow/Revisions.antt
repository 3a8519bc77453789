-- ===== src/Workflow/Revisions.antt =====
-- What every successful call does to the revision, and what no call changes.
use synora_agentic_erp.Prelude.{
  ℕ, ◌+◌, ◌≡◌, refl, sym, subst, String, Bool, true, false, List, arith, ◌⊎◌, inl, inr, Bool-cases,
  if◌then◌else◌, false≢true,
}
use synora_agentic_erp.Prelude.Result.{ok}
use synora_agentic_erp.Workflow.Contracts.{
  PlanStep, WorkflowState, WorkflowStatus, ClarificationRequest, ReplanReason, is_terminal,
}
use synora_agentic_erp.Workflow.Engine.{
  Observed, start, begin_step, wait_for_governed_action, complete_governed_action, complete_step,
  advance,
}
use synora_agentic_erp.Workflow.Control.{fail_step, interrupt, resume, replan, cancel, expire}
use synora_agentic_erp.Workflow.Histories.{
  Step, Reach, started, began, waited, received, completed, failed, asked, answered, replanned,
  cancelled, expired, here, next,
}

-- The revision grows by one, and the identity of the workflow stays.
pub record Advances (s t : WorkflowState) : Type 0 where
  pub revision : t.revision ≡ s.revision + 1
  pub run_id : t.run_id ≡ s.run_id
  pub trace_id : t.trace_id ≡ s.trace_id
  pub deadline : t.deadline ≡ s.deadline

start-Advances : (now : ℕ) (s t : WorkflowState) → start now s ≡ ok t → Advances s t
unfolding start
start-Advances now s t h = ground arith

begin_step-Advances :
    (now : ℕ) (s t : WorkflowState) (id : String) → begin_step now s id ≡ ok t → Advances s t
unfolding begin_step
begin_step-Advances now s t id h = ground arith

wait-Advances :
    (now : ℕ) (s t : WorkflowState) (id : String)
    → wait_for_governed_action now s id ≡ ok t
    → Advances s t
unfolding wait_for_governed_action
wait-Advances now s t id h = ground arith

advance-Advances :
    (s : WorkflowState) (steps : List PlanStep) (reason : String)
    → Advances s (advance s steps reason)
unfolding advance
advance-Advances s steps reason = ground arith

receive-Advances :
    (now : ℕ) (stamp : String) (s t : WorkflowState) (id digest : String)
    → complete_governed_action now stamp s id digest ≡ ok t
    → Advances s t
unfolding complete_governed_action advance
receive-Advances now stamp s t id digest h = ground arith

complete-Advances :
    (now : ℕ) (stamp : String) (s t : WorkflowState) (observation : Observed)
    → complete_step now stamp s observation ≡ ok t
    → Advances s t
unfolding complete_step advance
complete-Advances now stamp s t observation h = ground arith

fail-Advances :
    (now : ℕ) (s t : WorkflowState) (code detail : String)
    → fail_step now s code detail ≡ ok t
    → Advances s t
unfolding fail_step
fail-Advances now s t code detail h = ground arith

interrupt-Advances :
    (now : ℕ) (s t : WorkflowState) (request : ClarificationRequest)
    → interrupt now s request ≡ ok t
    → Advances s t
unfolding interrupt
interrupt-Advances now s t request h = ground arith

resume-Advances :
    (sha256 : String → String) (now : ℕ) (stamp : String) (s t : WorkflowState) (id answer : String)
    → resume sha256 now stamp s id answer ≡ ok t
    → Advances s t
unfolding resume
resume-Advances sha256 now stamp s t id answer h = ground arith

replan-Advances :
    (now : ℕ) (s t : WorkflowState) (steps : List PlanStep) (reason : ReplanReason)
    → replan now s steps reason ≡ ok t
    → Advances s t
unfolding replan
replan-Advances now s t steps reason h = ground arith

cancel-Advances : (s t : WorkflowState) (detail : String) → cancel s detail ≡ ok t → Advances s t
unfolding cancel
cancel-Advances s t detail h = ground arith

-- A call of `expire` that finds the workflow over.
unfoldable pub is_idle : {sha256 : String → String} {s t : WorkflowState} → Step sha256 s t → Bool
is_idle {s = s} (expired h) = is_terminal s.status
is_idle _ = false

-- The calls of a history that found nothing to expire.
unfoldable pub idle_calls :
    {sha256 : String → String} {s : WorkflowState} {n : ℕ} {t : WorkflowState}
    → Reach sha256 s n t
    → ℕ
idle_calls (here e) = 0
idle_calls (next r st) = if is_idle st then idle_calls r + 1 else idle_calls r

expire-Advances : (s t : WorkflowState) → is_terminal s.status ≡ false → expire s ≡ t → Advances s t
unfolding expire
expire-Advances s t live h = ground arith

pub expire-idle : (s t : WorkflowState) → is_terminal s.status ≡ true → expire s ≡ t → t ≡ s
unfolding expire
expire-idle s t over h = ground arith

pub Step-Advances :
    (sha256 : String → String) (s t : WorkflowState) (st : Step sha256 s t)
    → is_idle st ≡ false
    → Advances s t
unfolding is_idle
Step-Advances sha256 s t (started now h) live = start-Advances now s t h
Step-Advances sha256 s t (began now id h) live = begin_step-Advances now s t id h
Step-Advances sha256 s t (waited now id h) live = wait-Advances now s t id h
Step-Advances sha256 s t (received now stamp id digest h) live =
    receive-Advances now stamp s t id digest h
Step-Advances sha256 s t (completed now stamp observation h) live =
    complete-Advances now stamp s t observation h
Step-Advances sha256 s t (failed now code detail h) live = fail-Advances now s t code detail h
Step-Advances sha256 s t (asked now request h) live = interrupt-Advances now s t request h
Step-Advances sha256 s t (answered now stamp id answer h) live =
    resume-Advances sha256 now stamp s t id answer h
Step-Advances sha256 s t (replanned now steps reason h) live =
    replan-Advances now s t steps reason h
Step-Advances sha256 s t (cancelled detail h) live = cancel-Advances s t detail h
Step-Advances sha256 s t (expired h) live = expire-Advances s t live h

idle_same :
    (sha256 : String → String) (s t : WorkflowState) (st : Step sha256 s t)
    → is_idle st ≡ true
    → t ≡ s
unfolding is_idle
idle_same sha256 s t (started now h) i = absurd (false≢true i)
idle_same sha256 s t (began now id h) i = absurd (false≢true i)
idle_same sha256 s t (waited now id h) i = absurd (false≢true i)
idle_same sha256 s t (received now stamp id digest h) i = absurd (false≢true i)
idle_same sha256 s t (completed now stamp observation h) i = absurd (false≢true i)
idle_same sha256 s t (failed now code detail h) i = absurd (false≢true i)
idle_same sha256 s t (asked now request h) i = absurd (false≢true i)
idle_same sha256 s t (answered now stamp id answer h) i = absurd (false≢true i)
idle_same sha256 s t (replanned now steps reason h) i = absurd (false≢true i)
idle_same sha256 s t (cancelled detail h) i = absurd (false≢true i)
idle_same sha256 s t (expired h) i = expire-idle s t i h

-- What every step leaves, an idle one, too.
Step-kept :
    (sha256 : String → String) (s t : WorkflowState) (st : Step sha256 s t)
    → (t.revision + (if is_idle st then 1 else 0) ≡ s.revision + 1)
      × (t.run_id ≡ s.run_id)
      × (t.trace_id ≡ s.trace_id)
      × (t.deadline ≡ s.deadline)
Step-kept sha256 s t st = elim (Bool-cases (is_idle st)) [
  | inr live ↦ ground (arith, live, Step-Advances sha256 s t st live)
  | inl idle ↦
      let e = idle_same sha256 s t st idle in
      rw idle (
        subst
          (λ x.
            (x.revision + 1 ≡ s.revision + 1)
            × (x.run_id ≡ s.run_id)
            × (x.trace_id ≡ s.trace_id)
            × (x.deadline ≡ s.deadline))
          (sym e) (refl, refl, refl, refl))
]

pub Step-run_id :
    (sha256 : String → String) (s t : WorkflowState) → Step sha256 s t → t.run_id ≡ s.run_id
Step-run_id sha256 s t st = let (_, run, _, _) = Step-kept sha256 s t st in run

-- After n successful calls the revision has grown by n less the calls of `expire` that found the
-- workflow over, and the run, the trace and the deadline are the workflow's own.
pub revision_counts :
    (sha256 : String → String) (s t : WorkflowState) (n : ℕ) (r : Reach sha256 s n t)
    → (t.revision + idle_calls r ≡ s.revision + n)
      × (t.run_id ≡ s.run_id)
      × (t.trace_id ≡ s.trace_id)
      × (t.deadline ≡ s.deadline)
unfolding idle_calls
revision_counts sha256 s t n (here e) = ground (arith, e)
revision_counts sha256 s t n (next {n = m} {t = u} r st) = elim (Bool-cases (is_idle st)) [
  | inl idle ↦
      rw idle (ground (arith, revision_counts sha256 s u m r, rw idle at (Step-kept sha256 u t st)))
  | inr live ↦
      rw live (ground (arith, revision_counts sha256 s u m r, rw live at (Step-kept sha256 u t st)))
]

-- A successful call on a workflow that is over is a call of `expire`, and leaves it as it is, or a
-- replanning, which sets it running under the next version of the plan.
pub over_until_replanned :
    (sha256 : String → String) (s t : WorkflowState) (st : Step sha256 s t)
    → is_terminal s.status ≡ true
    → ((is_idle st ≡ true) × (t ≡ s))
      ⊎ ((t.status ≡ WorkflowStatus.running) × (t.plan_version ≡ s.plan_version + 1))
unfolding is_idle start begin_step wait_for_governed_action complete_governed_action complete_step
    fail_step interrupt resume replan cancel
over_until_replanned sha256 s t (started now h) o = absurd (ground arith)
over_until_replanned sha256 s t (began now id h) o = absurd (ground arith)
over_until_replanned sha256 s t (waited now id h) o = absurd (ground arith)
over_until_replanned sha256 s t (received now stamp id digest h) o = absurd (ground arith)
over_until_replanned sha256 s t (completed now stamp observation h) o = absurd (ground arith)
over_until_replanned sha256 s t (failed now code detail h) o = absurd (ground arith)
over_until_replanned sha256 s t (asked now request h) o = absurd (ground arith)
over_until_replanned sha256 s t (answered now stamp id answer h) o = absurd (ground arith)
over_until_replanned sha256 s t (replanned now steps reason h) o = inr (ground arith)
over_until_replanned sha256 s t (cancelled detail h) o = absurd (ground arith)
over_until_replanned sha256 s t (expired h) o = inl (o, expire-idle s t o h)
