-- ===== src/Store/Sessions.antt =====
-- Every call of src/recallpack/storage.py moves every session by one step at most.
use recallpack.Base.{ℕ, String, List, [], ◌∷◌, inl, inr, arith, Bool-cases, Option-cases}
use recallpack.Json.{member}
use recallpack.Library.{Library}
use recallpack.Memory.{ObserveRequest}
use recallpack.Store.Rows.{Store, Draw}
use recallpack.Store.Query.{event_by_key, has_event_key, rowcount}
use recallpack.Store.Answer.{payload_hash}
use recallpack.Store.Claim.{claim_event}
use recallpack.Store.Complete.{complete_event, complete_observe_operation}
use recallpack.Store.Fail.{fail_retryable_event}
use recallpack.Store.Steps.{
  StoreCall, claims, completes, commits, fails, after_call, empty_store, with_attempt-all,
}
use recallpack.Store.Session.{SessionStep, session_of}
use recallpack.Store.Advance.{
  Moved, Ordered, Moved-refl, complete_attempt-Moved, complete_operation-Moved, fail_attempt-Moved,
}
use recallpack.Store.Entering.{claim_existing-Moved}
use recallpack.Store.Opened.{admit_new-Moved}

claim_event-Moved :
    (p q : String) (lib : Library) (request : ObserveRequest) (now : ℕ) (mode : String)
    (draw : Draw) (s : Store)
    → Ordered p q s
    → Moved p q s (claim_event lib request now mode draw s).1
unfolding claim_event event_by_key
claim_event-Moved p q lib request now mode draw s k =
    elim (Bool-cases (member mode ("fake" ∷ "live" ∷ []))) [
      | inr unknown ↦ rw (unknown, claim_event) (Moved-refl p q s k)
      | inl known ↦ elim (Option-cases (lib.canonical_utc_timestamp request.observed_at)) [
        | inl bad ↦ rw (known, bad, claim_event) (Moved-refl p q s k)
        | inr (at, canonical) ↦
            let hash = payload_hash lib request at in
            elim (Option-cases (event_by_key s request)) [
              | inl new ↦
                  rw (known, canonical, new, claim_event)
                    (admit_new-Moved p q request at hash now mode draw s k)
              | inr (existing, there) ↦
                  rw (known, canonical, there, claim_event)
                    (claim_existing-Moved p q lib s existing
                      (has_event_key request.project_id request.session_id request.event_id) hash
                      now mode draw there k)
            ]
      ]
    ]

after_call-Moved :
    (p q : String) (lib : Library) (call : StoreCall) (s : Store)
    → Ordered p q s
    → Moved p q s (after_call lib call s)
unfolding after_call complete_event complete_observe_operation fail_retryable_event
after_call-Moved p q lib (claims request now mode draw) s k =
    claim_event-Moved p q lib request now mode draw s k
after_call-Moved p q lib (completes attempt result evidence now) s k =
    with_attempt-all {A = _ × Store} (λ r. Moved p q s r.1) attempt _ _ (Moved-refl p q s k)
      (λ i l n event token number. complete_attempt-Moved p q lib i l n result evidence now s k)
after_call-Moved p q lib (commits attempt result memory supersedes embedding evidence draw) s k =
    with_attempt-all {A = _ × Store} (λ r. Moved p q s r.1) attempt _ _ (Moved-refl p q s k)
      (λ i l n event token number.
        complete_operation-Moved p q lib i l n result memory supersedes embedding evidence draw s k)
after_call-Moved p q lib (fails attempt error evidence detail now) s k =
    with_attempt-all {A = _ × Store} (λ r. Moved p q s r.1) attempt _ _ (Moved-refl p q s k)
      (λ i l n event token number. fail_attempt-Moved p q lib i l n error evidence detail now s k)

-- Each call of a sequence is a step of the session.
abbrev pub IsSessionRun : String → String → Library → List StoreCall → Store → Type 0
IsSessionRun p q lib [] s = Unit
IsSessionRun p q lib (c ∷ cs) s =
    SessionStep (session_of p q s) (session_of p q (after_call lib c s))
    × IsSessionRun p q lib cs (after_call lib c s)

after_calls-run :
    (p q : String) (lib : Library) (calls : List StoreCall) (s : Store)
    → Ordered p q s
    → IsSessionRun p q lib calls s
after_calls-run p q lib [] s k = tt
after_calls-run p q lib (c ∷ cs) s k =
    let m = after_call-Moved p q lib c s k in
    (m.step, after_calls-run p q lib cs (after_call lib c s) m.order)

-- In any sequence of claims, completions and retryable failures on an empty store, each call moves each session
-- by one step of its machine at most: a session without an open event opens the event that it expects, a
-- session with an open event closes it and expects the number after, and every other call leaves it as it is.
pub after_calls-IsSessionRun :
    (p q : String) (lib : Library) (lease_seconds : ℕ) (calls : List StoreCall)
    → IsSessionRun p q lib calls (empty_store lease_seconds)
unfolding rowcount
after_calls-IsSessionRun p q lib lease_seconds calls =
    after_calls-run p q lib calls (empty_store lease_seconds)
      (record { one = omega arith; numbers = tt; clean = tt; tracked = tt })
