-- ===== src/Limits/Budget.antt =====
-- agent/budget.py: BudgetAccount. A price is a Decimal, `scale` units being one micro-USD per million
-- tokens. A clock reading is in microseconds, `units` the estimate of the input of the next call.
use synora_agentic_erp.Prelude.{
  ℕ, ◌+◌, ◌-◌, ◌*◌, ◌/◌, Bool, Option, none, some, leb, ltb, if◌then◌else◌,
}
use synora_agentic_erp.Prelude.Int.{ℤ, pos}

-- The StopCodes that the account gives.
pub data StopCode : Type 0 where
  token_budget cost_budget wall_time_budget : StopCode

pub record BudgetLimits : Type 0 where
  pub max_steps : ℕ
  pub max_output_tokens : ℕ
  pub max_total_output_tokens : ℕ
  pub max_wall_time_ms : ℕ
  pub max_cost_microusd : ℕ
  pub max_calls_per_tool : ℕ
  pub no_progress_threshold : ℕ

-- The scale is one less than the number of units, which is not zero.
pub record Pricing : Type 0 where
  pub scale_less_one : ℕ
  pub input : ℕ
  pub output : ℕ
  pub reasoning : ℕ

pub record UsageSnapshot : Type 0 where
  pub prompt_tokens : ℕ
  pub completion_tokens : ℕ
  pub reasoning_tokens : ℕ
  pub cost_microusd : ℕ

pub record BudgetAccount : Type 0 where
  pub limits : BudgetLimits
  pub pricing : Option Pricing
  pub require_pricing : Bool
  pub started : ℕ
  pub usage : UsageSnapshot

-- The units of a price that make one micro-USD for one token.
abbrev pub unit : Pricing → ℕ
unit p = 1000000 * (p.scale_less_one + 1)

-- int((a / b).to_integral_value(rounding=ROUND_CEILING))
unfoldable pub ceiling : ℕ → ℕ → ℕ
ceiling a b = (a + (b - 1)) / b

-- cost_microusd(prompt_tokens=, completion_tokens=, reasoning_tokens=)
unfoldable pub cost_microusd : Pricing → ℕ → ℕ → ℕ → ℕ
cost_microusd p prompt completion reasoning =
    ceiling (prompt * p.input + completion * p.output + reasoning * p.reasoning) (unit p)

-- maximum_output_cost_microusd(output_tokens)
unfoldable pub maximum_output_cost_microusd : Pricing → ℕ → ℕ
maximum_output_cost_microusd p tokens =
    ceiling (tokens * (if leb p.reasoning p.output then p.output else p.reasoning)) (unit p)

-- elapsed_ms()
unfoldable pub elapsed_ms : ℕ → ℕ → ℕ
elapsed_ms clock started = (clock - started) / 1000

-- whether the usage and the reservation for the next call exceed the ceiling of the cost
unfoldable pub over_reservation : BudgetAccount → Pricing → ℕ → Bool
over_reservation a p units = ltb a.limits.max_cost_microusd (
    a.usage.cost_microusd
    + (cost_microusd p units 0 0 + maximum_output_cost_microusd p a.limits.max_output_tokens))

abbrev pub check_pricing : BudgetAccount → Option Pricing → ℕ → Option StopCode
check_pricing a none units = if a.require_pricing then some cost_budget else none
check_pricing a (some p) units = if over_reservation a p units then some cost_budget else none

-- preflight(messages=, tools=)
unfoldable pub preflight : ℕ → ℕ → BudgetAccount → Option StopCode
preflight clock units a =
    if leb a.limits.max_wall_time_ms (elapsed_ms clock a.started)
    then some wall_time_budget
    else if ltb a.limits.max_total_output_tokens
        (a.usage.completion_tokens + a.usage.reasoning_tokens + a.limits.max_output_tokens)
    then some token_budget
    else check_pricing a a.pricing units

abbrev pub call_cost : Option Pricing → ℕ → ℕ → ℕ → ℕ
call_cost none prompt completion reasoning = 0
call_cost (some p) prompt completion reasoning = cost_microusd p prompt completion reasoning

-- self.usage after the call
abbrev pub add_usage : BudgetAccount → ℕ → ℕ → ℕ → UsageSnapshot
add_usage a prompt completion reasoning = record {
  prompt_tokens = a.usage.prompt_tokens + prompt;
  completion_tokens = a.usage.completion_tokens + completion;
  reasoning_tokens = a.usage.reasoning_tokens + reasoning;
  cost_microusd = a.usage.cost_microusd + call_cost a.pricing prompt completion reasoning;
}

-- The answer of `record`, from the usage after the call and the output tokens of the call.
abbrev pub exceeded : ℕ → BudgetAccount → UsageSnapshot → ℕ → Option StopCode
exceeded clock a after per_call =
    if ltb a.limits.max_output_tokens per_call
    then some token_budget
    else if ltb a.limits.max_total_output_tokens (after.completion_tokens + after.reasoning_tokens)
    then some token_budget
    else if ltb a.limits.max_cost_microusd after.cost_microusd
    then some cost_budget
    else if leb a.limits.max_wall_time_ms (elapsed_ms clock a.started)
    then some wall_time_budget
    else none

-- record(response), given by its prompt, completion and reasoning tokens
unfoldable pub record_usage : ℕ → ℤ → ℤ → ℤ → BudgetAccount → Option StopCode × BudgetAccount
record_usage clock (pos prompt) (pos completion) (pos reasoning) a =
    let after = add_usage a prompt completion reasoning in
    (exceeded clock a after (completion + reasoning), record a { usage = after })
record_usage clock _ _ _ a = (some token_budget, a)
