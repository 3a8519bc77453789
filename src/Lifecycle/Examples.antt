-- ===== src/Lifecycle/Examples.antt =====
-- Histories of a run, of a governed action and of a memory record, to which the theorems apply.
use synora_agentic_erp.Prelude.{
  ℕ, ◌+◌, ◌≤◌, ◌≡◌, ◌≢◌, ◌↔◌, refl, String, true, false, some, none, List, [], ◌∷◌, elem, arith,
  ◌&&◌, ◌||◌, length, eq_iff,
}
use synora_agentic_erp.Prelude.Int.{pos}
use synora_agentic_erp.Prelude.Result.{ok, err}
use synora_agentic_erp.Lifecycle.Table.{targets, allowed}
use synora_agentic_erp.Lifecycle.Version.{int, positive?, stale}
use synora_agentic_erp.Lifecycle.Run
use synora_agentic_erp.Lifecycle.Run.{run_states}
use synora_agentic_erp.Lifecycle.Run.History.{
  Runs, created, executing_needs_approval, transitions_beyond_spec, spec_transitions,
  extra_transitions,
}
use synora_agentic_erp.Lifecycle.Action
use synora_agentic_erp.Lifecycle.Action.History.{
  Actions, drafted, transition_state-eq-ok_iff, second_writer_conflicts, action_bounded,
  executed_was_approved,
}
use synora_agentic_erp.Lifecycle.Memory
use synora_agentic_erp.Lifecycle.Memory.History.{
  memory_transition-eq-ok_iff, Lives, here, step, Expects, changes_bounded, never_approved_again,
}

abbrev executing_seen : List String
executing_seen = "AWAITING_APPROVAL" ∷ "PROPOSED" ∷ "CREATED" ∷ []

executing_run : Runs executing_seen "EXECUTING"
unfolding Run.validate_transition targets Run.transitions
executing_run = Runs.move (Runs.move (Runs.move (created refl) refl) refl) refl

executing_needs_approval_example : elem "AWAITING_APPROVAL" executing_seen ≡ true
executing_needs_approval_example =
    executing_needs_approval executing_seen "EXECUTING" executing_run refl

transitions_beyond_spec_example :
    ((Run.validate_transition "EXECUTING" "CANCELLED" ≡ ok tt) ↔ (
      (allowed spec_transitions "EXECUTING" "CANCELLED"
        || allowed extra_transitions "EXECUTING" "CANCELLED")
      ≡ true))
    × ((allowed spec_transitions "EXECUTING" "CANCELLED"
          && allowed extra_transitions "EXECUTING" "CANCELLED")
        ≡ false)
    × ((Run.validate_transition "EXECUTING" "CANCELLED" ≡ err Run.invalid_transition)
        ↔ (elem "EXECUTING" run_states ≡ false))
transitions_beyond_spec_example = transitions_beyond_spec "EXECUTING" "CANCELLED"

cancelled_while_executing :
    (Run.validate_transition "EXECUTING" "CANCELLED" ≡ ok tt)
    × (allowed spec_transitions "EXECUTING" "CANCELLED" ≡ false)
unfolding Run.validate_transition targets Run.transitions allowed spec_transitions
cancelled_while_executing = (refl, refl)

abbrev executed_seen : List String
executed_seen = "APPROVED" ∷ "AWAITING_APPROVAL" ∷ "DRAFT" ∷ []

executed_action : Actions executed_seen "EXECUTED" 4
unfolding Action.transition_state Action.validate_transition targets Action.transitions
executed_action =
    Actions.move none
      (Actions.move (some (int (pos 2))) (Actions.move none (drafted {v = 1} refl refl) refl) refl)
      refl

action_bounded_example : (◌≡◌ {A = ℕ} 4 (length executed_seen + 1)) × (length executed_seen ≤ 3)
action_bounded_example = action_bounded executed_seen "EXECUTED" 4 executed_action

executed_was_approved_example : executed_seen ≡ "APPROVED" ∷ "AWAITING_APPROVAL" ∷ "DRAFT" ∷ []
executed_was_approved_example =
    executed_was_approved executed_seen "EXECUTED" 4 executed_action refl

approval_at_two :
    Action.transition_state "AWAITING_APPROVAL" "APPROVED" (int (pos 2)) (some (int (pos 2)))
    ≡ ok ("APPROVED", 3)
unfolding Action.transition_state Action.validate_transition targets Action.transitions
approval_at_two = refl

second_writer_conflicts_example :
    Action.transition_state "APPROVED" "DECLINED" (int (pos 3)) (some (int (pos 2)))
    ≡ err Action.changed_concurrently
second_writer_conflicts_example =
    second_writer_conflicts "AWAITING_APPROVAL" "APPROVED" "DECLINED" 2 3 "APPROVED" approval_at_two

transition_state-eq-ok_iff_example :
    (Action.transition_state "DRAFT" "EXECUTED" (int (pos 1)) none ≡ ok ("EXECUTED", 2)) ↔ (
      (v : ℕ) × (positive? (int (pos 1)) ≡ some v)
      × (stale none v ≡ false)
      × (allowed Action.transitions "DRAFT" "EXECUTED" ≡ true)
      × (◌≡◌ {A = String} "EXECUTED" "EXECUTED")
      × (2 ≡ v + 1))
transition_state-eq-ok_iff_example =
    transition_state-eq-ok_iff "DRAFT" "EXECUTED" "EXECUTED" (int (pos 1)) none 2

superseded_deleted : Lives "SUPERSEDED" 1 "DELETED"
unfolding Memory.transition_state Memory.validate_transition allowed targets Memory.transitions
superseded_deleted = step 2 none 3 (here refl) refl

changes_bounded_example : 1 ≤ 3
changes_bounded_example = changes_bounded "SUPERSEDED" "DELETED" 1 superseded_deleted

never_approved_again_example : ◌≢◌ {A = String} "DELETED" "APPROVED"
never_approved_again_example =
    never_approved_again "SUPERSEDED" "DELETED" 1 superseded_deleted
      (λ e. ground (arith, eq_iff "SUPERSEDED" "CANDIDATE"))
      (λ e. ground (arith, eq_iff "SUPERSEDED" "APPROVED"))

memory_transition-eq-ok_iff_example :
    (Memory.transition_state "APPROVED" "EXPIRED" (int (pos 2)) (some (int (pos 2)))
      ≡ ok ("EXPIRED", 3))
    ↔ ((v : ℕ) × (positive? (int (pos 2)) ≡ some v)
        × Expects (some (int (pos 2))) v
        × (allowed Memory.transitions "APPROVED" "EXPIRED" ≡ true)
        × (◌≡◌ {A = String} "EXPIRED" "EXPIRED")
        × (3 ≡ v + 1))
memory_transition-eq-ok_iff_example =
    memory_transition-eq-ok_iff "APPROVED" "EXPIRED" "EXPIRED" (int (pos 2)) (some (int (pos 2))) 3
