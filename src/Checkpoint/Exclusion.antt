-- ===== src/Checkpoint/Exclusion.antt =====
-- The exclusive lease of the checkpoint store, whatever other callers do meanwhile.
use synora_agentic_erp.Prelude.{
  ℕ, ◌<◌, ◌≡◌, ◌≢◌, refl, sym, ap, ◌∙◌, String, ◌==◌, Bool, true, false, not, Option, none, some,
  List, [], ◌∷◌, ◌++◌, all, arith, inl, inr, ltb, eq_iff, eq_refl, false≢true, Bool-cases,
  Option-cases, text?_eq, and_parts, nat_eq,
}
use synora_agentic_erp.Prelude.Result.{Result, ok, err, Result-cases}
use synora_agentic_erp.Workflow.Contracts.{WorkflowState}
use synora_agentic_erp.Checkpoint.{
  CheckpointError, Codec, Row, Store, select, update, lease_matches, lease_active, leased_row,
  expiry_after, create, save, acquire_lease, release_lease, encode,
}
use synora_agentic_erp.Checkpoint.Saves.{select-update, select-update_other, save-ok}
use synora_agentic_erp.Checkpoint.Creates.{created_row}
use synora_agentic_erp.Checkpoint.Leases.{
  acquire_lease-ok, some_row, matches_leased, still_active, select-save_other,
}

-- The calls that change the store, with what they read of the clock and draw.
pub data Call : Type 0 where
  creates : WorkflowState → Option String → ℕ → ℕ → Call
  saves : WorkflowState → ℕ → Option String → Bool → ℕ → ℕ → ℕ → Call
  acquires : String → String → ℕ → ℕ → Call
  releases : String → String → Call

abbrev pub after_write : Store → Result CheckpointError Store → Store
after_write store (ok after) = after
after_write store (err e) = store

abbrev pub after_lease : Store → Result CheckpointError (String × Store) → Store
after_lease store (ok (token, after)) = after
after_lease store (err e) = store

-- A call that raises changes nothing.
unfoldable pub perform : Codec → ℕ → Call → Store → Store
perform codec seconds (creates state lease now instant) store =
    after_write store (create codec seconds state lease now instant store)
perform codec seconds (saves state expected lease keep now checked instant) store =
    after_write store (save codec seconds state expected lease keep now checked instant store)
perform codec seconds (acquires token id expected now) store =
    after_lease store (acquire_lease seconds token id expected now store)
perform codec seconds (releases id lease) store = release_lease id lease store

unfoldable pub perform_all : Codec → ℕ → List Call → Store → Store
perform_all codec seconds [] store = store
perform_all codec seconds (c ∷ calls) store =
    perform_all codec seconds calls (perform codec seconds c store)

-- A call of someone who does not have the token, before an instant.
unfoldable pub is_foreign : String → ℕ → Call → Bool
is_foreign token until (creates state lease now instant) = true
is_foreign token until (saves state expected lease keep now checked instant) =
    not (text?_eq lease (some token))
is_foreign token until (acquires drawn id expected now) = ltb now until
is_foreign token until (releases id lease) = not (lease == token)

-- The row of the run, as the lease has left it.
unfoldable pub Held : ℕ → String → String → ℕ → Row → Store → Type 0
Held seconds token id now row store =
    select id store.checkpoints ≡ some (leased_row seconds token now row)

select-append_found :
    (id : String) (rows added : List Row) (row : Row)
    → select id rows ≡ some row
    → select id (rows ++ added) ≡ some row
unfolding select
select-append_found id [] added row h = absurd (ground arith)
select-append_found id (r ∷ rows) added row h =
    ground (arith, select-append_found id rows added row)

differ : (a b : String) → (a == b) ≡ false → a ≢ b
differ a b h e = ground (arith, eq_iff a b)

select-acquire_other :
    (seconds : ℕ) (token other : String) (expected now : ℕ) (store after : Store)
    (drawn id : String)
    → other ≢ id
    → acquire_lease seconds token other expected now store ≡ ok (drawn, after)
    → select id after.checkpoints ≡ select id store.checkpoints
unfolding acquire_lease
select-acquire_other seconds token other expected now store after drawn id d h =
    elim (Option-cases (select other store.checkpoints)) [
      | inl q ↦ absurd (ground arith)
      | inr (row, q) ↦
          let write = leased_row seconds token now in
          let rows : after.checkpoints
              ≡ update other (λ r. nat_eq r.revision expected) write store.checkpoints =
            ground arith in
          ap (select id) rows
          ∙ select-update_other other id (λ r. nat_eq r.revision expected) write store.checkpoints
              (λ r. refl) d
    ]

module _ (codec : Codec) (seconds : ℕ) (token id : String) (now : ℕ) (row : Row) where
  creates-Held :
      (state : WorkflowState) (lease : Option String) (at instant : ℕ) (store : Store)
      → Held seconds token id now row store
      → (r : Result CheckpointError Store) → create codec seconds state lease at instant store ≡ r
      → Held seconds token id now row (after_write store r)
  unfolding Held create
  creates-Held state lease at instant store h (err e) c = h
  creates-Held state lease at instant store h (ok after) c =
      elim (Result-cases (encode codec state)) [
        | inr (e, p) ↦ absurd (ground arith)
        | inl (payload, p) ↦
            let added = created_row seconds state payload lease at instant ∷ [] in
            let rows : after.checkpoints ≡ store.checkpoints ++ added = ground arith in
            ap (select id) rows ∙ select-append_found id store.checkpoints added _ h
      ]

  save_needs_token :
      (state : WorkflowState) (expected : ℕ) (lease : Option String) (keep : Bool)
      (at checked instant : ℕ) (store after : Store)
      → Held seconds token id now row store
      → state.run_id ≡ id
      → save codec seconds state expected lease keep at checked instant store ≡ ok after
      → (lease ≡ some token) × (checked < expiry_after seconds now)
  unfolding Held
  save_needs_token state expected lease keep at checked instant store after h run saved =
      let (old, _, (_, _, found, _, held, _, _, _, _)) =
        save-ok codec seconds state expected lease keep at checked instant store after saved in
      let same =
        some_row old (leased_row seconds token now row)
          (sym found ∙ ap (λ x. select x store.checkpoints) run ∙ h) in
      matches_leased seconds token now row lease checked
        (ap (λ r. lease_matches r lease checked) (sym same) ∙ held)

  nobody_acquires :
      (drawn : String) (expected later : ℕ) (store : Store) (outcome : String × Store)
      → token ≢ ""
      → Held seconds token id now row store
      → later < expiry_after seconds now
      → acquire_lease seconds drawn id expected later store ≢ ok outcome
  unfolding Held
  nobody_acquires drawn expected later store (drawn', after) t h early acquired =
      let (old, (found, _, free, _)) =
        acquire_lease-ok seconds drawn id expected later store after drawn' acquired in
      let same = some_row old (leased_row seconds token now row) (sym found ∙ h) in
      let active = still_active seconds token now later row t early in
      let idle = ap (λ r. lease_active r later) (sym same) ∙ free in ground arith

  saves-Held :
      (state : WorkflowState) (expected : ℕ) (lease : Option String) (keep : Bool)
      (at checked instant : ℕ) (store : Store)
      → text?_eq lease (some token) ≡ false
      → Held seconds token id now row store
      → (r : Result CheckpointError Store)
      → save codec seconds state expected lease keep at checked instant store ≡ r
      → Held seconds token id now row (after_write store r)
  unfolding Held
  saves-Held state expected lease keep at checked instant store f h (err e) s = h
  saves-Held state expected lease keep at checked instant store f h (ok after) s =
      elim (Bool-cases (state.run_id == id)) [
        | inl p ↦
            let (given, _) =
              save_needs_token state expected lease keep at checked instant store after h
                ((eq_iff state.run_id id).0 p) s in
            absurd (false≢true (sym f ∙ rw given (eq_refl token)))
        | inr p ↦
            select-save_other codec seconds state expected lease keep at checked instant store after
              id (differ state.run_id id p) s
            ∙ h
      ]

  acquires-Held :
      (drawn other : String) (expected later : ℕ) (store : Store)
      → token ≢ ""
      → later < expiry_after seconds now
      → Held seconds token id now row store
      → (r : Result CheckpointError (String × Store))
      → acquire_lease seconds drawn other expected later store ≡ r
      → Held seconds token id now row (after_lease store r)
  unfolding Held
  acquires-Held drawn other expected later store t early h (err e) a = h
  acquires-Held drawn other expected later store t early h (ok (drawn', after)) a =
      elim (Bool-cases (other == id)) [
        | inl p ↦ absurd (
            nobody_acquires drawn expected later store (drawn', after) t h early
              (ap (λ x. acquire_lease seconds drawn x expected later store)
                  (sym ((eq_iff other id).0 p))
                ∙ a))
        | inr p ↦
            select-acquire_other seconds drawn other expected later store after drawn' id
              (differ other id p) a
            ∙ h
      ]

  releases-Held :
      (other lease : String) (store : Store)
      → (lease == token) ≡ false
      → Held seconds token id now row store
      → Held seconds token id now row (release_lease other lease store)
  unfolding Held release_lease
  releases-Held other lease store f h = elim (Bool-cases (other == id)) [
    | inl p ↦
        let found =
          select-update id (λ r. text?_eq r.lease_id (some lease))
            (λ r. record r { lease_id = none; lease_expires_at = none }) store.checkpoints
            (leased_row seconds token now row) (λ r. refl) h in
        let other_token : (token == lease) ≡ false =
          ground (arith, eq_iff token lease, eq_iff lease token) in
        ap
          (λ x. select id (
            update x (λ r. text?_eq r.lease_id (some lease))
              (λ r. record r { lease_id = none; lease_expires_at = none }) store.checkpoints))
          ((eq_iff other id).0 p)
        ∙ (found ∙ rw other_token refl)
    | inr p ↦
        select-update_other other id (λ r. text?_eq r.lease_id (some lease))
          (λ r. record r { lease_id = none; lease_expires_at = none }) store.checkpoints (λ r. refl)
          (differ other id p)
        ∙ h
  ]

  perform-Held :
      (c : Call) (store : Store)
      → token ≢ ""
      → is_foreign token (expiry_after seconds now) c ≡ true
      → Held seconds token id now row store
      → Held seconds token id now row (perform codec seconds c store)
  unfolding perform is_foreign
  perform-Held (creates state lease at instant) store t f h =
      creates-Held state lease at instant store h _ refl
  perform-Held (saves state expected lease keep at checked instant) store t f h =
      saves-Held state expected lease keep at checked instant store (ground arith) h _ refl
  perform-Held (acquires drawn other expected later) store t f h =
      acquires-Held drawn other expected later store t (ground arith) h _ refl
  perform-Held (releases other lease) store t f h = releases-Held other lease store (ground arith) h

  perform_all-Held :
      (calls : List Call) (store : Store)
      → token ≢ ""
      → all (is_foreign token (expiry_after seconds now)) calls ≡ true
      → Held seconds token id now row store
      → Held seconds token id now row (perform_all codec seconds calls store)
  unfolding perform_all
  perform_all-Held [] store t f h = h
  perform_all-Held (c ∷ calls) store t f h =
      let (one, rest) =
        and_parts (is_foreign token (expiry_after seconds now) c)
          (all (is_foreign token (expiry_after seconds now)) calls) f in
      perform_all-Held calls (perform codec seconds c store) t rest (perform-Held c store t one h)

-- Once a lease is acquired, and whatever calls callers without its token then make, as long as they
-- acquire before it expires: a save of that workflow succeeds only with the token that was drawn and
-- before the lease expires, and until then nobody acquires another lease of it. This says nothing of
-- what follows a call with the token.
pub lease_is_exclusive :
    (codec : Codec) (seconds : ℕ) (token id : String) (expected now : ℕ) (store after : Store)
    (drawn : String) (calls : List Call)
    → token ≢ ""
    → acquire_lease seconds token id expected now store ≡ ok (drawn, after)
    → all (is_foreign token (expiry_after seconds now)) calls ≡ true
    → ((state : WorkflowState) (revision : ℕ) (lease : Option String) (keep : Bool)
          (now' checked instant : ℕ) (after' : Store)
        → state.run_id ≡ id
        → save codec seconds state revision lease keep now' checked instant
            (perform_all codec seconds calls after)
          ≡ ok after'
        → (lease ≡ some token) × (checked < expiry_after seconds now))
      × ((token' : String) (revision later : ℕ) (outcome : String × Store)
          → later < expiry_after seconds now
          → acquire_lease seconds token' id revision later (perform_all codec seconds calls after)
            ≢ ok outcome)
unfolding Held
lease_is_exclusive codec seconds token id expected now store after drawn calls t h foreign =
    let (row, (_, _, _, found)) =
      acquire_lease-ok seconds token id expected now store after drawn h in
    let held = perform_all-Held codec seconds token id now row calls after t foreign found in
    (
      (λ state revision lease keep now' checked instant after' run saved.
          save_needs_token codec seconds token id now row state revision lease keep now' checked
            instant (perform_all codec seconds calls after) after' held run saved),
      (λ token' revision later outcome early.
          nobody_acquires codec seconds token id now row token' revision later
            (perform_all codec seconds calls after) outcome t held early),
    )
