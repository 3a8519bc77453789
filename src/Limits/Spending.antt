-- ===== src/Limits/Spending.antt =====
-- What the account of agent/budget.py guarantees of the tokens and the cost of a run.
use native.Mathlib.Nat.{mul-le-mul, div-lt_iff_lt-mul, lt-div-mul-add}
use synora_agentic_erp.Prelude.{
  ℕ, ◌+◌, ◌-◌, ◌*◌, ◌≤◌, ◌<◌, ◌≡◌, ◌≢◌, none, some, arith, leb, if◌then◌else◌, inl, inr,
  Option-cases,
}
use synora_agentic_erp.Prelude.Int.{ℤ, pos, negsuc}
use synora_agentic_erp.Limits.Budget.{
  token_budget, cost_budget, Pricing, BudgetAccount, unit, ceiling, cost_microusd,
  maximum_output_cost_microusd, preflight, record_usage, over_reservation, call_cost, elapsed_ms,
}

ceiling_le : (a b k : ℕ) → 1 ≤ b → a ≤ k * b → ceiling a b ≤ k
unfolding ceiling
ceiling_le a b k p h =
    let strict : a + (b - 1) < (k + 1) * b = omega (arith, h, p) in
    omega (arith, (div-lt_iff_lt-mul {k = b} {x = a + (b - 1)} {y = k + 1} p).1 strict)

le_ceiling : (a b : ℕ) → 1 ≤ b → a ≤ ceiling a b * b
unfolding ceiling
le_ceiling a b p = omega (arith, lt-div-mul-add {a = a + (b - 1)} {b = b} p)

unit_pos : (p : Pricing) → 1 ≤ unit p
unit_pos p = omega arith

-- The two prices of output tokens are at most the higher one.
higher : Pricing → ℕ
higher p = if leb p.reasoning p.output then p.output else p.reasoning

weighted : (c r most o q m : ℕ) → o ≤ m → q ≤ m → c + r ≤ most → c * o + r * q ≤ most * m
weighted c r most o q m h k l =
    let first : c * o ≤ c * m = mul-le-mul (omega arith) h in
    let second : r * q ≤ r * m = mul-le-mul (omega arith) k in
    let both : (c + r) * m ≤ most * m = mul-le-mul l (omega arith) in
    omega (arith, first, second, both)

output_higher : (p : Pricing) → p.output ≤ higher p
unfolding higher
output_higher p = ground arith

reasoning_higher : (p : Pricing) → p.reasoning ≤ higher p
unfolding higher
reasoning_higher p = ground arith

output_bound :
    (p : Pricing) (c r most : ℕ) → c + r ≤ most → c * p.output + r * p.reasoning ≤ most * higher p
output_bound p c r most h =
    weighted c r most p.output p.reasoning (higher p) (output_higher p) (reasoning_higher p) h

fits : (x s t y z u : ℕ) → y ≤ s * u → z ≤ t * u → x ≤ y + z → x ≤ (s + t) * u
fits x s t y z u h k l = omega (arith, h, k, l)

-- A call that keeps within the estimates costs at most what was reserved for it.
reservation_covers :
    (p : Pricing) (units most prompt c r : ℕ)
    → prompt ≤ units
    → c + r ≤ most
    → cost_microusd p prompt c r ≤ cost_microusd p units 0 0 + maximum_output_cost_microusd p most
unfolding cost_microusd maximum_output_cost_microusd higher
reservation_covers p units most prompt c r h k =
    let y = units * p.input + 0 * p.output + 0 * p.reasoning in
    let z = most * higher p in
    let x = prompt * p.input + c * p.output + r * p.reasoning in
    let small : prompt * p.input ≤ units * p.input = mul-le-mul h (omega arith) in
    let total : x ≤ y + z = omega (arith, small, output_bound p c r most k) in
    ceiling_le x (unit p) (ceiling y (unit p) + ceiling z (unit p)) (unit_pos p) (
      fits x (ceiling y (unit p)) (ceiling z (unit p)) y z (unit p)
        (le_ceiling y (unit p) (unit_pos p)) (le_ceiling z (unit p) (unit_pos p)) total)

-- What a preflight without a stop code leaves room for.
room :
    (a : BudgetAccount) (clock units prompt c r : ℕ)
    → preflight clock units a ≡ none
    → a.usage.cost_microusd ≤ a.limits.max_cost_microusd
    → prompt ≤ units
    → c + r ≤ a.limits.max_output_tokens
    → (a.usage.completion_tokens + a.usage.reasoning_tokens + a.limits.max_output_tokens
        ≤ a.limits.max_total_output_tokens)
      × (a.usage.cost_microusd + call_cost a.pricing prompt c r ≤ a.limits.max_cost_microusd)
unfolding preflight over_reservation
room a clock units prompt c r h start k l = elim (Option-cases a.pricing) [
  | inl e ↦ (ground arith, ground arith)
  | inr (p, e) ↦ (
    ground arith,
    ground (arith, reservation_covers p units a.limits.max_output_tokens prompt c r k l),
  )
]

-- A call that preflight has let through, and that keeps within the estimate of its input and the limit
-- of its output, leaves the account within both ceilings, of output tokens and of cost, if the cost
-- was within its ceiling before; only the wall time can stop the run after it.
pub preflight_covers :
    (a : BudgetAccount) (clock later units prompt c r : ℕ)
    → preflight clock units a ≡ none
    → a.usage.cost_microusd ≤ a.limits.max_cost_microusd
    → prompt ≤ units
    → c + r ≤ a.limits.max_output_tokens
    → ((record_usage later (pos prompt) (pos c) (pos r) a).0 ≢ some token_budget)
      × ((record_usage later (pos prompt) (pos c) (pos r) a).0 ≢ some cost_budget)
      × ((record_usage later (pos prompt) (pos c) (pos r) a).1.usage.completion_tokens
            + (record_usage later (pos prompt) (pos c) (pos r) a).1.usage.reasoning_tokens
          ≤ a.limits.max_total_output_tokens)
      × ((record_usage later (pos prompt) (pos c) (pos r) a).1.usage.cost_microusd
          ≤ a.limits.max_cost_microusd)
unfolding record_usage
preflight_covers a clock later units prompt c r h start k l =
    let (tokens, cost) = room a clock units prompt c r h start k l in
    ((λ e. ground arith), (λ e. ground arith), omega (arith, tokens, l), cost)

-- Whatever the provider reports, an account that gives no stop code after a call is within its limits
-- of output tokens, in that call and in all, of cost and of time, and its cost has not fallen.
pub record_usage_within :
    (a b : BudgetAccount) (clock : ℕ) (prompt c r : ℤ)
    → record_usage clock prompt c r a ≡ (none, b)
    → (b.usage.completion_tokens + b.usage.reasoning_tokens
        ≤ a.usage.completion_tokens + a.usage.reasoning_tokens + a.limits.max_output_tokens)
      × (b.usage.completion_tokens + b.usage.reasoning_tokens ≤ a.limits.max_total_output_tokens)
      × (b.usage.cost_microusd ≤ a.limits.max_cost_microusd)
      × (elapsed_ms clock a.started < a.limits.max_wall_time_ms)
      × (a.usage.cost_microusd ≤ b.usage.cost_microusd)
unfolding record_usage
record_usage_within a b clock (pos p) (pos c) (pos r) h =
    (ground arith, ground arith, ground arith, ground arith, ground arith)
record_usage_within a b clock (pos p) (pos c) (negsuc r) h = absurd (ground arith)
record_usage_within a b clock (pos p) (negsuc c) r h = absurd (ground arith)
record_usage_within a b clock (negsuc p) c r h = absurd (ground arith)
