-- ===== src/Limits/Guards.antt =====
-- agent/guards.py. A guard's check returns its answer, which is true to stop, and the guard's next
-- state. Sets are lists; a dictionary of counts is a list of pairs. The registry's lock makes each of
-- its methods one step, so interleaved callers are a sequence of steps.
use synora_agentic_erp.Prelude.{
  ℕ, ◌+◌, String, ◌==◌, Bool, true, false, not, List, [], ◌∷◌, elem, filter, leb, ltb,
  if◌then◌else◌,
}

-- RepeatedCallGuard.check(action), the action given by its call_key() and the guard by its _seen
unfoldable pub check_repeated : String → List String → Bool × List String
check_repeated key seen = if elem key seen then (true, seen) else (false, key ∷ seen)

-- self._counts.get(tool_name, 0)
unfoldable pub count : String → List (String × ℕ) → ℕ
count tool [] = 0
count tool (entry ∷ counts) = if entry.0 == tool then entry.1 else count tool counts

-- self._counts[tool_name] = n
unfoldable pub set_count : String → ℕ → List (String × ℕ) → List (String × ℕ)
set_count tool n [] = (tool, n) ∷ []
set_count tool n (entry ∷ counts) =
    if entry.0 == tool then (tool, n) ∷ counts else entry ∷ set_count tool n counts

-- ToolFrequencyGuard.check(action), `most` being _max_calls_per_tool
unfoldable pub check_frequency : ℕ → String → List (String × ℕ) → Bool × List (String × ℕ)
check_frequency most tool counts =
    let n = count tool counts + 1 in (ltb most n, set_count tool n counts)

pub record NoProgressGuard : Type 0 where
  pub threshold : ℕ
  pub seen_digests : List String
  pub stale_count : ℕ

-- NoProgressGuard.check(observation), the observation given by its digest
unfoldable pub check_progress : String → NoProgressGuard → Bool × NoProgressGuard
check_progress digest g =
    let next =
      if elem digest g.seen_digests
      then record g { stale_count = g.stale_count + 1 }
      else record g { seen_digests = digest ∷ g.seen_digests; stale_count = 0 } in
    (leb g.threshold next.stale_count, next)

-- RunConcurrencyRegistry.try_acquire(run_id), on its _active
unfoldable pub try_acquire : String → List String → Bool × List String
try_acquire run active = if elem run active then (false, active) else (true, run ∷ active)

-- release(run_id)
unfoldable pub release : String → List String → List String
release run active = filter (λ other. not (other == run)) active

-- is_active(run_id)
unfoldable pub is_active : String → List String → Bool
is_active run active = elem run active
