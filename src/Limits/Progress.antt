-- ===== src/Limits/Progress.antt =====
-- What NoProgressGuard of agent/guards.py answers over a whole run.
use synora_agentic_erp.Prelude.{
  ℕ, suc, ◌+◌, ◌*◌, ◌≤◌, ◌<◌, ◌≡◌, refl, String, Bool, true, false, ◌||◌, List, [], ◌∷◌, elem,
  distinct, length, arith, leb, Bool-cases, inl, inr, sym, ap, subst, ◌∙◌,
}
use synora_agentic_erp.Limits.Guards.{NoProgressGuard, check_progress}

-- NoProgressGuard(threshold=t)
abbrev pub fresh : ℕ → NoProgressGuard
fresh t = record { threshold = t; seen_digests = []; stale_count = 0 }

-- The guard after the observations, and whether it has stopped at one of them.
unfoldable pub after_checks : List String → NoProgressGuard → NoProgressGuard
after_checks [] g = g
after_checks (digest ∷ digests) g = after_checks digests (check_progress digest g).1

unfoldable pub stops_checks : List String → NoProgressGuard → Bool
stops_checks [] g = false
stops_checks (digest ∷ digests) g =
    (check_progress digest g).0 || stops_checks digests (check_progress digest g).1

-- Not stopped after n observations: the digests are distinct, and each of them accounts for at most
-- `threshold` observations.
pub record Going (t n : ℕ) (g : NoProgressGuard) : Type 0 where
  pub same : g.threshold ≡ t
  pub fresh_enough : g.stale_count < t
  pub different : distinct g.seen_digests ≡ true
  pub accounted : n + t ≤ t * length g.seen_digests + g.stale_count + 1

abbrev stale_once_more : NoProgressGuard → NoProgressGuard
stale_once_more g = record g { stale_count = g.stale_count + 1 }

abbrev progressed : String → NoProgressGuard → NoProgressGuard
progressed digest g = record g { seen_digests = digest ∷ g.seen_digests; stale_count = 0 }

check_seen :
    (digest : String) (g : NoProgressGuard)
    → elem digest g.seen_digests ≡ true
    → check_progress digest g ≡ (leb g.threshold (g.stale_count + 1), stale_once_more g)
unfolding check_progress
check_seen digest g e = rw e refl

check_new :
    (digest : String) (g : NoProgressGuard)
    → elem digest g.seen_digests ≡ false
    → check_progress digest g ≡ (leb g.threshold 0, progressed digest g)
unfolding check_progress
check_new digest g e = rw e refl

check-Going :
    (t n : ℕ) (digest : String) (g : NoProgressGuard)
    → Going t n g
    → (check_progress digest g).0 ≡ false
    → Going t (suc n) (check_progress digest g).1
check-Going t n digest g p h = elim (Bool-cases (elem digest g.seen_digests)) [
  | inl e ↦
      let under = sym (ap (λ r. r.0) (check_seen digest g e)) ∙ h in
      subst (λ r. Going t (suc n) r.1) (sym (check_seen digest g e))
        (record {
          same = p.same;
          fresh_enough = ground (arith, p.same);
          different = p.different;
          accounted = omega (arith, p.accounted);
        })
  | inr e ↦
      subst (λ r. Going t (suc n) r.1) (sym (check_new digest g e))
        (record {
          same = p.same;
          fresh_enough = omega (arith, p.fresh_enough);
          different = rw e p.different;
          accounted = omega (arith, p.accounted, p.fresh_enough);
        })
]

run-Going :
    (t n : ℕ) (digests : List String) (g : NoProgressGuard)
    → Going t n g
    → stops_checks digests g ≡ false
    → Going t (n + length digests) (after_checks digests g)
unfolding after_checks stops_checks
run-Going t n [] g p h = subst (λ k. Going t k g) (omega arith) p
run-Going t n (digest ∷ digests) g p h =
    subst (λ k. Going t k (after_checks digests (check_progress digest g).1)) (omega arith)
      (run-Going t (suc n) digests (check_progress digest g).1
        (check-Going t n digest g p (ground arith)) (ground arith))

first_check : (t : ℕ) (digest : String) → 1 ≤ t → Going t 1 (check_progress digest (fresh t)).1
first_check t digest p =
    subst (λ r. Going t 1 r.1) (sym (check_new digest (fresh t) refl))
      (record {
        same = refl;
        fresh_enough = omega (arith, p);
        different = refl;
        accounted = omega (arith, p);
      })

room_left : (t n s stale : ℕ) → stale < t → n + t ≤ t * s + stale + 1 → n ≤ t * s
room_left t n s stale h k = omega (arith, h, k)

-- A run that the guard has not stopped makes progress: it has at most `threshold` times as many
-- observations as the distinct digests that the guard has seen.
pub stops_checks_lem :
    (t : ℕ) (digests : List String)
    → 1 ≤ t
    → stops_checks digests (fresh t) ≡ false
    → (length digests ≤ t * length (after_checks digests (fresh t)).seen_digests)
      × (distinct (after_checks digests (fresh t)).seen_digests ≡ true)
unfolding stops_checks after_checks
stops_checks_lem t [] p h = (omega arith, refl)
stops_checks_lem t (digest ∷ digests) p h =
    let end = after_checks digests (check_progress digest (fresh t)).1 in
    let going =
      run-Going t 1 digests (check_progress digest (fresh t)).1 (first_check t digest p)
        (ground arith) in
    (
      omega (
        arith,
        room_left t (1 + length digests) (length end.seen_digests) end.stale_count
            going.fresh_enough going.accounted,
      ),
      going.different,
    )
