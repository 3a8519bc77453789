-- ===== src/Limits/Examples.antt =====
-- Concrete runs: three calls, a run that is acquired, and an account with prices.
use synora_agentic_erp.Prelude.{
  ◌+◌, ◌≤◌, ◌<◌, ◌≡◌, ◌≢◌, refl, true, false, not, none, some, [], ◌∷◌, distinct, length, List,
  String, ◌*◌, arith,
}
use synora_agentic_erp.Prelude.Int.{pos}
use synora_agentic_erp.Limits.Guards.{try_acquire, is_active}
use synora_agentic_erp.Limits.Calls.{
  stops_repeated, stops_repeated_lem, acquire, let_go, releases, after_calls, holds_alone,
}
use synora_agentic_erp.Limits.Guards.{check_progress}
use synora_agentic_erp.Limits.Progress.{fresh, stops_checks, after_checks, stops_checks_lem}
use synora_agentic_erp.Limits.Budget.{
  token_budget, cost_budget, BudgetAccount, preflight, record_usage, over_reservation,
  cost_microusd, maximum_output_cost_microusd, ceiling, elapsed_ms,
}
use synora_agentic_erp.Limits.Spending.{preflight_covers, record_usage_within}

stops_repeated_lem_example :
    stops_repeated ("a" ∷ "b" ∷ "a" ∷ []) [] ≡ not (distinct ("a" ∷ "b" ∷ "a" ∷ []))
stops_repeated_lem_example = stops_repeated_lem ("a" ∷ "b" ∷ "a" ∷ [])

acquires : (try_acquire "r1" ("r0" ∷ [])).0 ≡ true
unfolding try_acquire
acquires = refl

keeps : releases "r1" (acquire "r2" ∷ acquire "r1" ∷ let_go "r0" ∷ []) ≡ false
unfolding releases
keeps = refl

holds_alone_example :
    (is_active "r1" (
        after_calls
          (acquire "r2" ∷ acquire "r1" ∷ let_go "r0" ∷ [])
          (try_acquire "r1" ("r0" ∷ [])).1)
      ≡ true)
    × ((try_acquire "r1" (
          after_calls
            (acquire "r2" ∷ acquire "r1" ∷ let_go "r0" ∷ [])
            (try_acquire "r1" ("r0" ∷ [])).1)).0
        ≡ false)
holds_alone_example =
    holds_alone "r1" ("r0" ∷ []) (acquire "r2" ∷ acquire "r1" ∷ let_go "r0" ∷ []) acquires keeps

abbrev digests : List String
digests = "a" ∷ "a" ∷ "b" ∷ []

goes_on : stops_checks digests (fresh 2) ≡ false
unfolding stops_checks check_progress
goes_on = refl

stops_checks_lem_example :
    (length digests ≤ 2 * length (after_checks digests (fresh 2)).seen_digests)
    × (distinct (after_checks digests (fresh 2)).seen_digests ≡ true)
stops_checks_lem_example = stops_checks_lem 2 digests (omega arith) goes_on

abbrev account : BudgetAccount
account = record {
  limits = record {
    max_steps = 6;
    max_output_tokens = 512;
    max_total_output_tokens = 3072;
    max_wall_time_ms = 180000;
    max_cost_microusd = 50000;
    max_calls_per_tool = 3;
    no_progress_threshold = 2;
  };
  pricing =
      some (record { scale_less_one = 0; input = 2000000; output = 8000000; reasoning = 8000000 });
  require_pricing = true;
  started = 1000;
  usage = record {
    prompt_tokens = 900;
    completion_tokens = 100;
    reasoning_tokens = 0;
    cost_microusd = 2600;
  };
}

abbrev after_one : BudgetAccount
after_one = record account {
  usage = record {
    prompt_tokens = 1700;
    completion_tokens = 300;
    reasoning_tokens = 50;
    cost_microusd = 6200;
  };
}

allowed : preflight 5000 1000 account ≡ none
unfolding preflight elapsed_ms over_reservation cost_microusd maximum_output_cost_microusd ceiling
allowed = refl

recorded : record_usage 9000 (pos 800) (pos 200) (pos 50) account ≡ (none, after_one)
unfolding record_usage elapsed_ms cost_microusd ceiling
recorded = refl

preflight_covers_example :
    ((record_usage 9000 (pos 800) (pos 200) (pos 50) account).0 ≢ some token_budget)
    × ((record_usage 9000 (pos 800) (pos 200) (pos 50) account).0 ≢ some cost_budget)
    × ((record_usage 9000 (pos 800) (pos 200) (pos 50) account).1.usage.completion_tokens
          + (record_usage 9000 (pos 800) (pos 200) (pos 50) account).1.usage.reasoning_tokens
        ≤ 3072)
    × ((record_usage 9000 (pos 800) (pos 200) (pos 50) account).1.usage.cost_microusd ≤ 50000)
preflight_covers_example =
    preflight_covers account 5000 9000 1000 800 200 50 allowed (omega arith) (omega arith)
      (omega arith)

record_usage_within_example :
    (after_one.usage.completion_tokens + after_one.usage.reasoning_tokens
      ≤ account.usage.completion_tokens + account.usage.reasoning_tokens + 512)
    × (after_one.usage.completion_tokens + after_one.usage.reasoning_tokens ≤ 3072)
    × (after_one.usage.cost_microusd ≤ 50000)
    × (elapsed_ms 9000 1000 < 180000)
    × (account.usage.cost_microusd ≤ after_one.usage.cost_microusd)
record_usage_within_example =
    record_usage_within account after_one 9000 (pos 800) (pos 200) (pos 50) recorded
