-- ===== src/Limits/Calls.antt =====
-- What the guards of agent/guards.py answer over whole runs.
use synora_agentic_erp.Prelude.{
  ℕ, suc, ◌+◌, ◌≡◌, refl, String, ◌==◌, Bool, true, false, not, ◌||◌, List, [], ◌∷◌, elem, any,
  distinct, arith, eq_iff, eq_refl, if◌then◌else◌, ltb,
}
use synora_agentic_erp.Limits.Guards.{
  check_repeated, count, set_count, check_frequency, try_acquire, release, is_active,
}

-- Whether one of the calls is stopped, and the guard goes on after each.
pub stops_repeated : List String → List String → Bool
stops_repeated [] seen = false
stops_repeated (key ∷ keys) seen =
    (check_repeated key seen).0 || stops_repeated keys (check_repeated key seen).1

any_new :
    (key : String) (keys seen : List String)
    → any (λ k. elem k (key ∷ seen)) keys ≡ (elem key keys || any (λ k. elem k seen) keys)
any_new key [] seen = refl
any_new key (k ∷ keys) seen = ground (arith, any_new key keys seen, eq_iff k key, eq_iff key k)

stops_after :
    (keys seen : List String)
    → stops_repeated keys seen ≡ (any (λ k. elem k seen) keys || not (distinct keys))
unfolding stops_repeated check_repeated
stops_after [] seen = refl
stops_after (key ∷ keys) seen =
    ground (arith, stops_after keys seen, stops_after keys (key ∷ seen), any_new key keys seen)

nothing_seen : (keys : List String) → any (λ k. elem k []) keys ≡ false
nothing_seen [] = refl
nothing_seen (key ∷ keys) = nothing_seen keys

-- A fresh guard against repeated calls stops some call of a run just when two of its calls have the
-- same tool and arguments.
pub stops_repeated_lem : (keys : List String) → stops_repeated keys [] ≡ not (distinct keys)
stops_repeated_lem keys = ground (arith, stops_after keys [], nothing_seen keys)

-- The counts after a run of calls.
pub calls_counted : ℕ → List String → List (String × ℕ) → List (String × ℕ)
calls_counted most [] counts = counts
calls_counted most (tool ∷ tools) counts =
    calls_counted most tools (check_frequency most tool counts).1

unfoldable pub occurrences : String → List String → ℕ
occurrences tool [] = 0
occurrences tool (t ∷ tools) =
    if t == tool then suc (occurrences tool tools) else occurrences tool tools

pub count-set_count :
    (tool other : String) (n : ℕ) (counts : List (String × ℕ))
    → count tool (set_count other n counts) ≡ (if other == tool then n else count tool counts)
unfolding count set_count
count-set_count tool other n [] = ground arith
count-set_count tool other n (entry ∷ counts) = ground (
  arith,
  eq_iff entry.0 other,
  eq_iff entry.0 tool,
  eq_iff other tool,
  count-set_count tool other n counts,
)

count_after :
    (most : ℕ) (tool : String) (tools : List String) (counts : List (String × ℕ))
    → count tool (calls_counted most tools counts) ≡ occurrences tool tools + count tool counts
unfolding calls_counted check_frequency occurrences
count_after most tool [] counts = omega arith
count_after most tool (t ∷ tools) counts = ground (
  arith,
  eq_iff t tool,
  count_after most tool tools (set_count t (count t counts + 1) counts),
  count-set_count tool t (count t counts + 1) counts,
)

count_empty : (tool : String) → count tool [] ≡ 0
unfolding count
count_empty tool = refl

-- After any run of calls the guard of a fresh account stops the next call of a tool just when the tool
-- has been called the permitted number of times or more.
pub check_frequency_lem :
    (most : ℕ) (tools : List String) (tool : String)
    → (check_frequency most tool (calls_counted most tools [])).0
      ≡ ltb most (occurrences tool tools + 1)
unfolding check_frequency
check_frequency_lem most tools tool =
    ground (arith, count_after most tool tools [], count_empty tool)

-- What callers do to the registry, one at a time.
pub data Call : Type 0 where
  acquire let_go : String → Call

pub after_call : Call → List String → List String
after_call (acquire run) active = (try_acquire run active).1
after_call (let_go run) active = release run active

pub after_calls : List Call → List String → List String
after_calls [] active = active
after_calls (c ∷ calls) active = after_calls calls (after_call c active)

unfoldable pub releases : String → List Call → Bool
releases run [] = false
releases run (acquire other ∷ calls) = releases run calls
releases run (let_go other ∷ calls) = other == run || releases run calls

elem-release :
    (run other : String) (active : List String)
    → (other == run) ≡ false
    → elem run active ≡ true
    → elem run (release other active) ≡ true
unfolding release
elem-release run other [] d h = ground arith
elem-release run other (r ∷ active) d h =
    ground (arith, eq_iff r run, eq_iff r other, eq_iff other run, elem-release run other active)

stays_active :
    (run : String) (calls : List Call) (active : List String)
    → releases run calls ≡ false
    → elem run active ≡ true
    → elem run (after_calls calls active) ≡ true
unfolding after_calls after_call releases try_acquire
stays_active run [] active n h = h
stays_active run (acquire other ∷ calls) active n h =
    stays_active run calls (after_call (acquire other) active) n (ground arith)
stays_active run (let_go other ∷ calls) active n h =
    stays_active run calls (release other active) (ground arith)
      (elem-release run other active (ground arith) h)

-- Whoever acquires a run holds it alone: after a successful try_acquire and whatever calls of other
-- callers, none of which releases that run, it is still active and try_acquire of it fails.
pub holds_alone :
    (run : String) (active : List String) (calls : List Call)
    → (try_acquire run active).0 ≡ true
    → releases run calls ≡ false
    → (is_active run (after_calls calls (try_acquire run active).1) ≡ true)
      × ((try_acquire run (after_calls calls (try_acquire run active).1)).0 ≡ false)
unfolding try_acquire is_active
holds_alone run active calls h n =
    let held = stays_active run calls (try_acquire run active).1 n (ground (arith, eq_refl run)) in
    (held, rw held refl)
