-- ===== src/Store/Refused.antt =====
-- What `claim_event` of src/recallpack/storage.py leaves alone where it hands out no attempt.
use recallpack.Base.{
  ℕ, String, Bool, false, none, some, [], ◌∷◌, ◌≡◌, refl, inl, inr, arith, Bool-cases, Option-cases,
  Result, ok, err,
}
use recallpack.Json.{member}
use recallpack.Library.{Library}
use recallpack.Memory.{ObserveRequest}
use recallpack.Store.Rows.{Event, Store, Draw, lost_lease}
use recallpack.Store.Query.{is_pending, event_by_key, cursor_for}
use recallpack.Store.Runs.{finish_run}
use recallpack.Store.Answer.{StoreError, ClaimResult, payload_hash}
use recallpack.Store.Lease.{renew_lease, take_over_lease}
use recallpack.Store.Claim.{claim_existing, claim_new, admit_new, claim_event}

abbrev pub hands_out : Result StoreError ClaimResult → Bool
hands_out (ok c) = c.owns_attempt
hands_out (err e) = false

-- Everything but the cursors is as it was.
pub record IsUntouched (s s' : Store) : Type 0 where
  events : s'.events ≡ s.events
  memories : s'.memories ≡ s.memories
  relations : s'.relations ≡ s.relations
  runs : s'.runs ≡ s.runs

same-IsUntouched : (s s' : Store) → s' ≡ s → IsUntouched s s'
same-IsUntouched s s' e = record {
  events = ground arith;
  memories = ground arith;
  relations = ground arith;
  runs = ground arith;
}

renew_lease-unowned :
    (before s : Store) (existing : Event) (now : ℕ) (mode : String) (draw : Draw)
    → hands_out (renew_lease before s existing now mode draw).0 ≡ false
    → (renew_lease before s existing now mode draw).1 ≡ before
unfolding renew_lease
renew_lease-unowned before s existing now mode draw h = ground arith

take_over_lease-unowned :
    (lib : Library) (s : Store) (existing : Event) (now : ℕ) (mode : String) (draw : Draw)
    → hands_out (take_over_lease lib s existing now mode draw).0 ≡ false
    → (take_over_lease lib s existing now mode draw).1 ≡ s
unfolding take_over_lease
take_over_lease-unowned lib s existing now mode draw h =
    elim (Bool-cases (is_pending existing.processing_state)) [
      | inr other ↦ ground (arith, renew_lease-unowned s s existing now mode draw)
      | inl waiting ↦
          elim (Option-cases (
            finish_run lib s existing.internal_id existing.attempt_count lost_lease none
              (some "lease_expired") none draw.utc_now)) [
                | inl unfinished ↦ ground arith
                | inr (s₁, done) ↦ ground (arith, renew_lease-unowned s s₁ existing now mode draw)
              ]
    ]

claim_existing-unowned :
    (lib : Library) (s : Store) (existing : Event) (hash : String) (now : ℕ) (mode : String)
    (draw : Draw)
    → hands_out (claim_existing lib s existing hash now mode draw).0 ≡ false
    → (claim_existing lib s existing hash now mode draw).1 ≡ s
unfolding claim_existing
claim_existing-unowned lib s existing hash now mode draw h =
    ground (arith, take_over_lease-unowned lib s existing now mode draw)

claim_new-unowned :
    (before s : Store) (request : ObserveRequest) (at hash : String) (now : ℕ) (mode : String)
    (draw : Draw)
    → hands_out (claim_new before s request at hash now mode draw).0 ≡ false
    → (claim_new before s request at hash now mode draw).1 ≡ before
unfolding claim_new
claim_new-unowned before s request at hash now mode draw h = ground arith

admit_new-unowned :
    (s : Store) (request : ObserveRequest) (at hash : String) (now : ℕ) (mode : String)
    (draw : Draw)
    → hands_out (admit_new s request at hash now mode draw).0 ≡ false
    → IsUntouched s (admit_new s request at hash now mode draw).1
unfolding admit_new
admit_new-unowned s request at hash now mode draw h =
    let cursors = (cursor_for s.cursors request.project_id request.session_id).1 in
    let new = claim_new-unowned s (record s { cursors = cursors }) request at hash now mode draw in
    record {
      events = ground (arith, new);
      memories = ground (arith, new);
      relations = ground (arith, new);
      runs = ground (arith, new);
    }

-- A claim that hands out no attempt, whatever it answers or raises, leaves the events, the memories,
-- their relations and the runs as they are.
pub claim_event-unowned :
    (lib : Library) (request : ObserveRequest) (now : ℕ) (provider_mode : String) (draw : Draw)
    (s : Store)
    → hands_out (claim_event lib request now provider_mode draw s).0 ≡ false
    → IsUntouched s (claim_event lib request now provider_mode draw s).1
unfolding claim_event
claim_event-unowned lib request now provider_mode draw s h =
    elim (Bool-cases (member provider_mode ("fake" ∷ "live" ∷ []))) [
      | inr unknown ↦ rw unknown (same-IsUntouched s s refl)
      | inl known ↦ elim (Option-cases (lib.canonical_utc_timestamp request.observed_at)) [
        | inl bad ↦ rw (known, bad) (same-IsUntouched s s refl)
        | inr (at, canonical) ↦ elim (Option-cases (event_by_key s request)) [
          | inr (existing, there) ↦
              rw (known, canonical, there)
                (same-IsUntouched s
                  (claim_existing lib s existing (payload_hash lib request at) now provider_mode
                    draw).1
                  (claim_existing-unowned lib s existing (payload_hash lib request at) now
                    provider_mode draw (rw (known, canonical, there) at h)))
          | inl new ↦
              rw (known, canonical, new)
                (admit_new-unowned s request at (payload_hash lib request at) now provider_mode draw
                  (rw (known, canonical, new) at h))
        ]
      ]
    ]
