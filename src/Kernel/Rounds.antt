-- ===== src/Kernel/Rounds.antt =====
-- One step of the kernel keeps to the limits of a run, whatever the model and the tools answer.
use synora_agentic_erp.Prelude.{
  ℕ, zero, suc, ◌+◌, ◌≤◌, ◌≡◌, ◌≢◌, refl, ap, sym, ◌∙◌, String, ◌==◌, Bool, true, false, ◌&&◌,
  Option, none, some, List, [], ◌∷◌, ◌++◌, elem, subset, map, arith, eq_iff, false≢true, and_parts,
  Bool-cases, inl, inr, nat_eq, leb,
}
use synora_agentic_erp.Prelude.Result.{Result, ok, err, ◌>>◌}
use synora_agentic_erp.Limits.Guards.{
  check_repeated, check_frequency, count, check_progress, NoProgressGuard,
}
use synora_agentic_erp.Limits.Calls.{occurrences, count-set_count}
use synora_agentic_erp.Kernel.Trace.{
  Action, Observation, FinalAnswer, ModelReply, returned, raised, ToolReply, observed, failure,
  crashed, Decision, final, raw_action, typed_action, StopCode, Event, run_started, model_requested,
  final_proposed, final_rejected, final_validated, action_rejected, action_proposed,
  action_validated, guard_checked, tool_started, tool_failed, tool_observed, run_stopped,
  final_answer, max_steps, repeated_call, no_progress, wall_time_budget, cancelled,
  tool_not_allowed, tool_frequency, invalid_tool_args, tool_error, model_error,
  unsupported_final_answer, repeated_call_guard, tool_frequency_guard, no_progress_guard, executed,
  model_calls, proven, stops,
}
use synora_agentic_erp.Kernel.{
  KernelLimits, World, RunResult, State, add, stop, known_digests, cites, is_supported,
  judge_answer, decided, ask, typed_or_stop, admit, accept, answered, use_tool, act, round, rounds,
  decode,
}
use synora_agentic_erp.Kernel.Posts.{
  Post, bind-Post, passes-Post, stops-Post, Answers, Ends, Open, stop-Ends,
}

-- The events that tell nothing of what Legal, Ends and Open speak of.
abbrev is_neutral : Event → Bool
is_neutral (model_requested step) = false
is_neutral (tool_started step a) = false
is_neutral (tool_observed step o) = false
is_neutral (run_stopped step code detail) = false
is_neutral _ = true

silent :
    (e : Event) (log : List Event)
    → is_neutral e ≡ true
    → (executed (e ∷ log) ≡ executed log)
      × (model_calls (e ∷ log) ≡ model_calls log)
      × (proven (e ∷ log) ≡ proven log)
      × (stops (e ∷ log) ≡ stops log)
unfolding executed model_calls proven stops
silent (run_started k) log h = (refl, refl, refl, refl)
silent (final_proposed k f) log h = (refl, refl, refl, refl)
silent (final_rejected k t) log h = (refl, refl, refl, refl)
silent (final_validated k) log h = (refl, refl, refl, refl)
silent (action_rejected k t) log h = (refl, refl, refl, refl)
silent (action_proposed k a) log h = (refl, refl, refl, refl)
silent (action_validated k t) log h = (refl, refl, refl, refl)
silent (guard_checked k g b) log h = (refl, refl, refl, refl)
silent (tool_failed k t) log h = (refl, refl, refl, refl)
silent (model_requested k) log h = absurd (ground arith)
silent (tool_started k a) log h = absurd (ground arith)
silent (tool_observed k o) log h = absurd (ground arith)
silent (run_stopped k c d) log h = absurd (ground arith)

module _ (world : World) (correlation : String) (allowed : List String)
    (limits : KernelLimits) where
  -- What links the variables of the loop to its log.
  pub record Sane (n : ℕ) (s : State) : Type 0 where
    pub opened : Open world.call_key allowed limits.max_calls_per_tool n s.log
    pub proof : proven s.log ≡ known_digests s.observations
    pub keys :
        (t : String) → elem t (map world.call_key (executed s.log)) ≡ true → elem t s.seen ≡ true
    pub counted :
        (t : String) → occurrences t (map (λ a. a.tool_name) (executed s.log)) ≤ count t s.counts

  neutral-Sane : (n : ℕ) (e : Event) (s : State) → is_neutral e ≡ true → Sane n s → Sane n (add e s)
  unfolding add
  neutral-Sane n e s h p =
      let (acts, calls, shown, ended) = silent e s.log h in
      record {
        opened = record {
          legal = rw acts p.opened.legal;
          calls = rw calls p.opened.calls;
          going = ended ∙ p.opened.going;
        };
        proof = shown ∙ p.proof;
        keys = rw acts p.keys;
        counted = rw acts p.counted;
      }

  -- The call of an admitted action.
  start-Sane :
      (n step : ℕ) (s : State) (a : Action)
      → Sane n s
      → elem a.tool_name allowed ≡ true
      → (check_repeated (world.call_key a) s.seen).0 ≡ false
      → (check_frequency limits.max_calls_per_tool a.tool_name s.counts).0 ≡ false
      → Sane n (
          add (tool_started step a) (record s {
            seen = (check_repeated (world.call_key a) s.seen).1;
            counts = (check_frequency limits.max_calls_per_tool a.tool_name s.counts).1;
          }))
  unfolding add executed model_calls proven stops check_repeated check_frequency occurrences
  start-Sane n step s a p known new rare = record {
    opened = record {
      legal = record {
        tools = ground (arith, known, p.opened.legal.tools);
        different = ground (arith, p.keys (world.call_key a), p.opened.legal.different);
        frequency =
            λ t. ground (arith, p.opened.legal.frequency t, p.counted t, eq_iff a.tool_name t);
      };
      calls = p.opened.calls;
      going = p.opened.going;
    };
    proof = p.proof;
    keys = λ t h. ground (arith, p.keys t);
    counted = λ t. ground (
      arith,
      p.counted t,
      eq_iff a.tool_name t,
      count-set_count t a.tool_name (count a.tool_name s.counts + 1) s.counts,
    );
  }

  unfoldable pub RunEnds : ℕ → RunResult → Type 0
  RunEnds n = Ends world.call_key allowed limits.max_calls_per_tool n

  halt-Ends :
      (n : ℕ) (s : State) (code : StopCode) (step : ℕ) (detail : String)
      → Open world.call_key allowed limits.max_calls_per_tool n s.log
      → Answers code none (run_stopped step code detail ∷ s.log)
      → RunEnds n (stop s code step detail none)
  unfolding RunEnds
  halt-Ends n s code step detail p h =
      stop-Ends world.call_key allowed limits.max_calls_per_tool n s code step detail none p h

  typed-Post :
      (n step : ℕ) (s : State) (is_typed : Bool) (rest : Result RunResult State)
      → Sane n s
      → Post (RunEnds n) (Sane n) rest
      → Post (RunEnds n) (Sane n) (typed_or_stop step s is_typed >> rest)
  unfolding Post
  typed-Post n step s true rest p h = h
  typed-Post n step s false rest p h =
      halt-Ends n _ invalid_tool_args step _
        (neutral-Sane n (action_rejected step "tool arguments are invalid") s refl p).opened tt

  admit-Post :
      (n step : ℕ) (s : State) (a : Action) (is_typed : Bool)
      → Sane n s
      → Post (RunEnds n) (Sane n) (admit world correlation allowed limits step s a is_typed)
  unfolding admit add Post
  admit-Post n step s a is_typed p =
      let proposed = neutral-Sane n (action_proposed step a) s refl p in
      let validated = neutral-Sane n (action_validated step a.tool_name) _ refl proposed in
      let fresh = neutral-Sane n (guard_checked step repeated_call_guard true) _ refl validated in
      let counted = neutral-Sane n (guard_checked step tool_frequency_guard true) _ refl fresh in
      passes-Post _ _ (elem a.tool_name allowed) _ _
        (halt-Ends n _ tool_not_allowed step _
          (neutral-Sane n (action_rejected step a.tool_name) s refl p).opened tt)
        (λ known. typed-Post n step s is_typed _ p (
          passes-Post _ _ (world.fits_schema a) _ _
            (halt-Ends n _ invalid_tool_args step _
              (neutral-Sane n (action_rejected step "tool arguments are invalid") _ refl
                proposed).opened
              tt)
            (λ fits.
              stops-Post _ _ (check_repeated (world.call_key a) s.seen).0 _ _
                (halt-Ends n _ repeated_call step _
                  (neutral-Sane n (guard_checked step repeated_call_guard false) _ refl
                    validated).opened
                  tt)
                (λ new.
                  stops-Post _ _ (check_frequency limits.max_calls_per_tool a.tool_name s.counts).0
                    _ _
                    (halt-Ends n _ tool_frequency step _
                      (neutral-Sane n (guard_checked step tool_frequency_guard false) _ refl
                        fresh).opened
                      tt)
                    (λ rare. start-Sane n step _ a counted known new rare)))))

  observe-Sane :
      (n step : ℕ) (s : State) (o : Observation)
      → Sane n s
      → Sane n (add (tool_observed step o) (record s { observations = o ∷ s.observations }))
  unfolding add executed model_calls proven stops
  observe-Sane n step s o p = record {
    opened = record { legal = p.opened.legal; calls = p.opened.calls; going = p.opened.going };
    proof = ground (arith, p.proof);
    keys = p.keys;
    counted = p.counted;
  }

  -- Sane does not read the messages or the guard of the progress.
  other-Sane :
      (n : ℕ) (s : State) (messages : List String) (progress : NoProgressGuard)
      → Sane n s
      → Sane n (record s { messages = messages; progress = progress })
  other-Sane n s messages progress p = record {
    opened = p.opened;
    proof = p.proof;
    keys = p.keys;
    counted = p.counted;
  }

  accept-Post :
      (n step : ℕ) (s : State) (a : Action) (o : Observation)
      → Sane n s
      → Post (RunEnds n) (Sane n) (accept world correlation allowed limits step s a o)
  unfolding accept add Post
  accept-Post n step s a o p =
      let next = (check_progress o.digest s.progress).1 in
      let noted = other-Sane n _ s.messages next (observe-Sane n step s o p) in
      stops-Post _ _ (world.cancelled_after_tool step) _ _
        (halt-Ends n s cancelled step _ p.opened tt)
        (λ on.
          passes-Post _ _ (o.tool_name == a.tool_name && nat_eq o.step step) _ _
            (halt-Ends n _ tool_error step _
              (neutral-Sane n (tool_failed step a.tool_name) s refl p).opened tt)
            (λ matches.
              stops-Post _ _ (check_progress o.digest s.progress).0 _ _
                (halt-Ends n _ no_progress step _
                  (neutral-Sane n (guard_checked step no_progress_guard false) _ refl noted).opened
                  tt)
                (λ moves.
                  other-Sane n _ (s.messages ++ world.observation_text o ∷ []) next
                    (neutral-Sane n (guard_checked step no_progress_guard true) _ refl noted))))

  answered-Post :
      (n step : ℕ) (s : State) (a : Action) (reply : ToolReply)
      → Sane n s
      → Post (RunEnds n) (Sane n) (answered world correlation allowed limits step s a reply)
  unfolding answered Post
  answered-Post n step s a (observed o) p = accept-Post n step s a o p
  answered-Post n step s a (failure code) p =
      halt-Ends n _ tool_error step _
        (neutral-Sane n (tool_failed step a.tool_name) s refl p).opened tt
  answered-Post n step s a crashed p =
      halt-Ends n _ tool_error step _
        (neutral-Sane n (tool_failed step a.tool_name) s refl p).opened tt

  use_tool-Post :
      (n step : ℕ) (s : State) (a : Action) (is_typed : Bool)
      → Sane n s
      → Post (RunEnds n) (Sane n) (use_tool world correlation allowed limits step s a is_typed)
  unfolding use_tool
  use_tool-Post n step s a is_typed p =
      bind-Post _ (Sane n) _ _ _ (admit-Post n step s a is_typed p)
        (λ started h. answered-Post n step started a (world.execute a) h)

  cites-ne_nil : (refs : List String) → cites refs ≡ true → refs ≢ []
  cites-ne_nil refs h e = false≢true (sym (ap cites e) ∙ h)

  shown :
      (n step : ℕ) (s : State) (f : FinalAnswer)
      → Sane n s
      → subset f.evidence_refs (known_digests s.observations) ≡ true
      → subset f.evidence_refs (proven (final_validated step ∷ final_proposed step f ∷ s.log))
        ≡ true
  unfolding proven
  shown n step s f p h = ap (subset f.evidence_refs) p.proof ∙ h

  judge-Ends :
      (n step : ℕ) (s : State) (f : FinalAnswer) → Sane n s → RunEnds n (judge_answer step s f)
  unfolding judge_answer RunEnds add proven
  judge-Ends n step s f p =
      let proposed = neutral-Sane n (final_proposed step f) s refl p in
      elim (Bool-cases (is_supported f s.observations)) [
        | inl h ↦
            let (some_ref, known) =
              and_parts (cites f.evidence_refs)
                (subset f.evidence_refs (known_digests s.observations)) h in
            let valid = neutral-Sane n (final_validated step) _ refl proposed in
            rw h (
              stop-Ends world.call_key allowed limits.max_calls_per_tool n _ final_answer step _
                (some f) valid.opened
                (cites-ne_nil f.evidence_refs some_ref, shown n step s f p known))
        | inr h ↦ rw h (
            halt-Ends n _ unsupported_final_answer step _
              (neutral-Sane n (final_rejected step "evidence ref is unknown") _ refl
                proposed).opened
              tt)
      ]

  act-Post :
      (n step : ℕ) (s : State) (d : Decision)
      → Sane n s
      → Post (RunEnds n) (Sane n) (act world correlation allowed limits step s d)
  unfolding act Post
  act-Post n step s (final f) p = judge-Ends n step s f p
  act-Post n step s (raw_action a) p = use_tool-Post n step s a (world.is_typed a) p
  act-Post n step s (typed_action a) p = use_tool-Post n step s a true p

  decided-Post :
      (n step : ℕ) (s : State) (d : Option Decision)
      → Sane n s
      → Post (RunEnds n) (λ _. Unit {0}) (decided world correlation allowed limits step s d)
  unfolding decided Post
  decided-Post n step s none p =
      halt-Ends n _ model_error step _
        (neutral-Sane n (final_rejected step "invalid model decision") s refl p).opened tt
  decided-Post n step s (some d) p = elim (Bool-cases (world.cancelled_after_model step)) [
    | inl h ↦ rw h (halt-Ends n s cancelled step _ p.opened tt)
    | inr h ↦ rw h tt
  ]

  ask-Post :
      (n step : ℕ) (s : State) (reply : ModelReply)
      → Sane n s
      → Post (RunEnds n) (λ _. Unit {0}) (ask world correlation allowed limits step s reply)
  unfolding ask Post
  ask-Post n step s (returned raw) p = decided-Post n step s (decode correlation step raw) p
  ask-Post n step s (raised true) p = decided-Post n step s none p
  ask-Post n step s (raised false) p = halt-Ends n s model_error step _ p.opened tt

  request-Sane : (n step : ℕ) (s : State) → Sane n s → Sane (suc n) (add (model_requested step) s)
  unfolding add executed model_calls proven stops
  request-Sane n step s p = record {
    opened = record {
      legal = p.opened.legal;
      calls = omega (arith, p.opened.calls);
      going = p.opened.going;
    };
    proof = p.proof;
    keys = p.keys;
    counted = p.counted;
  }

  later-Open :
      (n : ℕ) (s : State)
      → Sane n s
      → Open world.call_key allowed limits.max_calls_per_tool (suc n) s.log
  later-Open n s p = record {
    legal = p.opened.legal;
    calls = omega (arith, p.opened.calls);
    going = p.opened.going;
  }

  pub round-Post :
      (n step : ℕ) (s : State)
      → Sane n s
      → Post (RunEnds (suc n)) (Sane (suc n)) (round world correlation allowed limits step s)
  unfolding round
  round-Post n step s p =
      let asked = request-Sane n step s p in
      stops-Post _ _ (world.cancelled_before step) _ _
        (halt-Ends (suc n) s cancelled step _ (later-Open n s p) tt)
        (λ on.
          stops-Post _ _ (leb limits.max_wall_time_ms (world.elapsed_ms step)) _ _
            (halt-Ends (suc n) s wall_time_budget step _ (later-Open n s p) tt)
            (λ early.
              bind-Post _ (λ _. Unit {0}) _ _ _
                (ask-Post (suc n) step _ (world.next s.messages step) asked)
                (λ d _. act-Post (suc n) step _ d asked)))

  weaken-Ends : (n m : ℕ) (r : RunResult) → n ≤ m → RunEnds n r → RunEnds m r
  unfolding RunEnds
  weaken-Ends n m r h e = record {
    legal = e.legal;
    calls = omega (arith, h, e.calls);
    once = e.once;
    last = e.last;
    answers = e.answers;
  }

  next-Ends :
      (left step n m : ℕ) (after : Result RunResult State)
      → n ≤ m
      → ((s : State)
          → Sane n s
          → RunEnds m (rounds world correlation allowed limits left (suc step) s))
      → Post (RunEnds n) (Sane n) after
      → RunEnds m (elim after [
        | err result ↦ result
        | ok s ↦ rounds world correlation allowed limits left (suc step) s
      ])
  unfolding Post
  next-Ends left step n m (err r) h go p = weaken-Ends n m r h p
  next-Ends left step n m (ok s) h go p = go s p

  -- A run that starts with n calls made, and goes on for so many steps.
  pub rounds-Ends :
      (left n step m : ℕ) (s : State)
      → left + n ≡ m
      → Sane n s
      → RunEnds m (rounds world correlation allowed limits left step s)
  unfolding rounds
  rounds-Ends zero n step m s e p =
      weaken-Ends n m _ (omega arith) (halt-Ends n s max_steps limits.max_steps _ p.opened tt)
  rounds-Ends (suc left) n step m s e p =
      next-Ends left step (suc n) m (round world correlation allowed limits step s) (omega arith)
        (λ after. rounds-Ends left (suc n) (suc step) m after (omega arith)) (round-Post n step s p)
