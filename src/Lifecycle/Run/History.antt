-- ===== src/Lifecycle/Run/History.antt =====
-- What the run's transition table allows over whole histories.
use synora_agentic_erp.Prelude.{
  String, ◌==◌, ◌≡◌, ◌≢◌, ◌↔◌, is_none, refl, sym, ◌∙◌, eq_iff, Option-cases, Bool, true, false,
  not, ◌&&◌, ◌||◌, inl, inr, none, List, [], ◌∷◌, arith, elem, Bool-cases, all,
}
use synora_agentic_erp.Prelude.Result.{Result, ok, err}
use synora_agentic_erp.Lifecycle.Fault.{GatewayFault}
use synora_agentic_erp.Lifecycle.Table.{
  Table, targets, allowed, all_edges, all_edges-allowed, all-elem,
}
use synora_agentic_erp.Lifecycle.Run.{
  run_states, transitions, conflict, invalid_transition, validate_transition,
}

validate-allowed : (c t : String) → validate_transition c t ≡ ok tt → allowed transitions c t ≡ true
unfolding validate_transition allowed
validate-allowed c t h = ground arith

allowed-validate : (c t : String) → allowed transitions c t ≡ true → validate_transition c t ≡ ok tt
unfolding validate_transition allowed
allowed-validate c t h = ground arith

-- The states that a run has been in, the latest first, and the state that it is in.
pub data Runs : List String → String → Type 0 where
  created : {s : String} → s ≡ "CREATED" → Runs [] s
  move :
      {seen : List String} {s t : String}
      → Runs seen s
      → validate_transition s t ≡ ok tt
      → Runs (s ∷ seen) t

-- The states that a run can be in without having awaited approval.
before_approval : String → Bool
before_approval s = elem s (
    "CREATED" ∷ "ANALYZING" ∷ "PROPOSED" ∷ "AWAITING_APPROVAL" ∷ "SUCCEEDED" ∷ "FAILED"
    ∷ "CANCELLED" ∷ "EXPIRED" ∷ [])

stays_before : String → String → Bool
unfolding before_approval
stays_before c t = c == "AWAITING_APPROVAL" || not (before_approval c) || before_approval t

stays_before_table : all_edges stays_before transitions ≡ true
unfolding transitions stays_before
stays_before_table = refl

step_before :
    (c t : String)
    → validate_transition c t ≡ ok tt
    → (c == "AWAITING_APPROVAL" || not (before_approval c) || before_approval t) ≡ true
unfolding stays_before
step_before c t h =
    all_edges-allowed stays_before transitions c t stays_before_table (validate-allowed c t h)

created_before : before_approval "CREATED" ≡ true
unfolding before_approval
created_before = refl

awaited_or_before :
    {seen : List String} {s : String}
    → Runs seen s
    → (elem "AWAITING_APPROVAL" seen || before_approval s) ≡ true
awaited_or_before (created e) = rw e created_before
awaited_or_before (move {seen} {s} {t} r h) = ground (arith, step_before s t h, awaited_or_before r)

abbrev pub past_approval : List String
past_approval = "EXECUTING" ∷ "DECLINED" ∷ "RECONCILIATION_REQUIRED" ∷ []

past_not_before : all (λ s. not (before_approval s)) past_approval ≡ true
unfolding before_approval
past_not_before = refl

-- A run that executes, that was declined, or that needs reconciliation has awaited approval before.
pub executing_needs_approval :
    (seen : List String) (s : String)
    → Runs seen s
    → elem s past_approval ≡ true
    → elem "AWAITING_APPROVAL" seen ≡ true
executing_needs_approval seen s r h =
    let past = all-elem (λ s. not (before_approval s)) s past_approval past_not_before h in
    ground (arith, awaited_or_before r, past)

-- The edges of the diagram of docs/SPEC.md, section 8.1.
unfoldable pub spec_transitions : Table
spec_transitions =
    ("CREATED", "ANALYZING" ∷ "EXPIRED" ∷ "CANCELLED" ∷ [])
    ∷ ("ANALYZING", "PROPOSED" ∷ "FAILED" ∷ "EXPIRED" ∷ "CANCELLED" ∷ [])
    ∷ ("PROPOSED", "AWAITING_APPROVAL" ∷ "SUCCEEDED" ∷ [])
    ∷ ("AWAITING_APPROVAL", "DECLINED" ∷ "EXPIRED" ∷ "EXECUTING" ∷ [])
    ∷ ("EXECUTING", "SUCCEEDED" ∷ "FAILED" ∷ "RECONCILIATION_REQUIRED" ∷ [])
    ∷ ("RECONCILIATION_REQUIRED", "SUCCEEDED" ∷ "FAILED" ∷ [])
    ∷ []

-- The edges that the diagram lacks: the short cut to a proposal, the way back from a failed analysis,
-- and the cancellation and expiry of runs past their analysis.
unfoldable pub extra_transitions : Table
extra_transitions =
    ("CREATED", "PROPOSED" ∷ [])
    ∷ ("ANALYZING", "CREATED" ∷ [])
    ∷ ("PROPOSED", "CANCELLED" ∷ "EXPIRED" ∷ [])
    ∷ ("AWAITING_APPROVAL", "CANCELLED" ∷ [])
    ∷ ("EXECUTING", "CANCELLED" ∷ "EXPIRED" ∷ [])
    ∷ ("RECONCILIATION_REQUIRED", "CANCELLED" ∷ "EXPIRED" ∷ [])
    ∷ []

listed : String → String → Bool
listed c t = allowed spec_transitions c t || allowed extra_transitions c t

unlisted_extra : String → String → Bool
unlisted_extra c t = not (allowed extra_transitions c t)

table_listed : all_edges listed transitions ≡ true
unfolding transitions listed allowed targets spec_transitions extra_transitions
table_listed = refl

spec_in_table : all_edges (allowed transitions) spec_transitions ≡ true
unfolding transitions allowed targets spec_transitions
spec_in_table = refl

extra_in_table : all_edges (allowed transitions) extra_transitions ≡ true
unfolding transitions allowed targets extra_transitions
extra_in_table = refl

spec_not_extra : all_edges unlisted_extra spec_transitions ≡ true
unfolding unlisted_extra allowed targets spec_transitions extra_transitions
spec_not_extra = refl

listed-allowed : (c t : String) → listed c t ≡ true → allowed transitions c t ≡ true
unfolding listed
listed-allowed c t h = elim (Bool-cases (allowed spec_transitions c t)) [
  | inl p ↦ all_edges-allowed (allowed transitions) spec_transitions c t spec_in_table p
  | inr p ↦
      all_edges-allowed (allowed transitions) extra_transitions c t extra_in_table (ground arith)
]

apart : (c t : String) → (allowed spec_transitions c t && allowed extra_transitions c t) ≡ false
unfolding unlisted_extra
apart c t = elim (Bool-cases (allowed spec_transitions c t)) [
  | inl p ↦ ground (arith, all_edges-allowed unlisted_extra spec_transitions c t spec_not_extra p)
  | inr p ↦ ground arith
]

-- The names of the states are the keys of the table.
known : String → Bool
unfolding targets transitions
known c = not (is_none (targets c transitions))

unknown_targets : (c : String) → elem c run_states ≡ false → targets c transitions ≡ none
unfolding targets transitions
unknown_targets c h = ground arith

known_table : all known run_states ≡ true
unfolding known
known_table = refl

codes_differ : ◌≢◌ {A = Result GatewayFault Unit} (err conflict) (err invalid_transition)
codes_differ e = ground (arith, eq_iff "CONFLICT" "INVALID_TRANSITION")

not_invalid : (c t : String) → known c ≡ true → validate_transition c t ≢ err invalid_transition
unfolding validate_transition known
not_invalid c t k e = elim (Option-cases (targets c transitions)) [
  | inl q ↦ ground arith
  | inr (ts, q) ↦ elim (Bool-cases (elem t ts)) [
    | inl m ↦ absurd (ground arith)
    | inr m ↦
        let r : validate_transition c t ≡ err conflict = ground arith in
        absurd (codes_differ (sym r ∙ e))
  ]
]

invalid_unknown :
    (c t : String)
    → (validate_transition c t ≡ err invalid_transition) ↔ (elem c run_states ≡ false)
unfolding validate_transition
invalid_unknown c t = elim (Bool-cases (elem c run_states)) [
  | inl p ↦ (
    (λ e. absurd (not_invalid c t (all-elem known c run_states known_table p) e)),
    (λ e. absurd (ground arith)),
  )
  | inr p ↦ let u = unknown_targets c p in ((λ e. p), (λ e. rw (u, validate_transition) refl))
]

-- The table compared with the diagram of docs/SPEC.md, section 8.1: a transition succeeds just when it is
-- an edge of the diagram or one of the listed extra edges, none of which is in the diagram, and the
-- state is called invalid just when it is no run state.
pub transitions_beyond_spec :
    (c t : String)
    → ((validate_transition c t ≡ ok tt)
        ↔ ((allowed spec_transitions c t || allowed extra_transitions c t) ≡ true))
      × ((allowed spec_transitions c t && allowed extra_transitions c t) ≡ false)
      × ((validate_transition c t ≡ err invalid_transition) ↔ (elem c run_states ≡ false))
unfolding listed
transitions_beyond_spec c t = (
  (
    (λ h. all_edges-allowed listed transitions c t table_listed (validate-allowed c t h)),
    (λ h. allowed-validate c t (listed-allowed c t h)),
  ),
  apart c t,
  invalid_unknown c t,
)
