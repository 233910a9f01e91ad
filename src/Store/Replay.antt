-- ===== src/Store/Replay.antt =====
-- Idempotence of src/recallpack/storage.py: a request that is sent again after its event was
-- completed gets the stored result.
use recallpack.Base.{
  ℕ, String, true, false, Option, none, some, List, [], ◌∷◌, ◌≡◌, refl, sym, ap, inl, inr, arith,
  str_eq_sound, str_eq_complete, ◌∙◌, ok,
}
use recallpack.Json.{obj, Fields, member}
use recallpack.Library.{Library}
use recallpack.Memory.{ObserveRequest, NormalMemory}
use recallpack.Embedding.{Embedding}
use recallpack.Store.Commit.{complete_operation-outcome}
use recallpack.Store.Rows.{Event, RunState, Run, Store, Draw, completed}
use recallpack.Store.Query.{
  has_event_key, event_by_key, update_where, rowcount, is_owned, is_run_of, run_for_attempt,
}
use recallpack.Store.Results.{valid_v4_final_result}
use recallpack.Store.Runs.{is_running_run, finished_run, Evidence, normalized_run_evidence}
use recallpack.Store.Claim.{replay_completed, claim_existing, claim_event}
use recallpack.Store.Answer.{ClaimResult, payload_hash}
use recallpack.Store.Complete.{completed_row, complete_attempt, complete_operation, run_state_of}
use recallpack.Store.Tables.{changed, find-update_where, find-rowcount}
use recallpack.Store.Ended.{complete_attempt-true}

running_is_run :
    (i : String) (n : ℕ) (run : Run) → is_running_run i n run ≡ true → is_run_of i n run ≡ true
unfolding is_running_run
running_is_run i n run h = ground arith

finished-is_run_of :
    (lib : Library) (now : String) (state : RunState) (evidence : Evidence)
    (code detail : Option String) (i : String) (n : ℕ) (run : Run)
    → is_run_of i n (finished_run lib now state evidence code detail run) ≡ is_run_of i n run
unfolding is_run_of finished_run
finished-is_run_of lib now state evidence code detail i n run = refl

claim_event-existing :
    (lib : Library) (request : ObserveRequest) (now : ℕ) (provider_mode : String) (draw : Draw)
    (s : Store) (e : Event) (observed_at : String)
    → member provider_mode ("fake" ∷ "live" ∷ []) ≡ true
    → lib.canonical_utc_timestamp request.observed_at ≡ some observed_at
    → event_by_key s request ≡ some e
    → claim_event lib request now provider_mode draw s
      ≡ claim_existing lib s e (payload_hash lib request observed_at) now provider_mode draw
unfolding claim_event
claim_event-existing lib request now provider_mode draw s e observed_at known canonical there =
    rw (known, canonical, there)

claim_existing-completed :
    (lib : Library) (s : Store) (e : Event) (hash : String) (now : ℕ) (provider_mode : String)
    (draw : Draw)
    → (e.payload_hash ≡ hash) × (e.processing_state ≡ completed)
    → claim_existing lib s e hash now provider_mode draw ≡ (ok (replay_completed s e), s)
unfolding claim_existing replay_completed
claim_existing-completed lib s e hash now provider_mode draw h =
    rw (str_eq_complete e.payload_hash hash h.0, h.1)

-- A call that completes an attempt with a result: `complete_event`, or `complete_observe_operation`, which
-- stores a memory or turns it down.
pub data Completes (lib : Library) (i l : String) (n : ℕ) (result : Fields) (s : Store)
    : Store → Type 0 where
  by_event :
      (evidence : Option Fields) (now : String) (s' : Store)
      → complete_attempt lib i l n result evidence now s ≡ (true, s')
      → Completes lib i l n result s s'
  by_operation :
      (given : Fields) (memory : NormalMemory) (supersedes : List String) (embedding : Embedding)
      (evidence : Option Fields) (draw : Draw) (s' : Store)
      → complete_operation lib i l n given memory supersedes embedding evidence draw s
        ≡ (ok (some result), s')
      → Completes lib i l n result s s'

-- What both leave in the tables of events and of runs.
record IsEnded (lib : Library) (i l : String) (n : ℕ) (result : Fields) (s s' : Store)
    : Type 0 where
  valid : valid_v4_final_result (some (obj result)) ≡ true
  evidence : Option Fields
  now : String
  one_running : rowcount (is_running_run i n) s.runs ≡ 1
  events : s'.events ≡ update_where (is_owned i l n) (completed_row result) s.events
  runs :
      s'.runs
      ≡ update_where
          (is_running_run i n)
          (finished_run lib now (run_state_of result) (normalized_run_evidence evidence) none none)
          s.runs

complete_attempt-IsEnded :
    (lib : Library) (i l : String) (n : ℕ) (result : Fields) (s : Store) (evidence : Option Fields)
    (now : String) (s' : Store)
    → complete_attempt lib i l n result evidence now s ≡ (true, s')
    → IsEnded lib i l n result s s'
complete_attempt-IsEnded lib i l n result s evidence now s' h =
    let (event, there, c) =
      complete_attempt-true lib i l n result evidence now s (ap (λ r. r.0) h) in
    let same : (complete_attempt lib i l n result evidence now s).1 ≡ s' = ap (λ r. r.1) h in
    let store = sym same ∙ c.store in
    record {
      valid = c.valid;
      evidence = evidence;
      now = now;
      one_running = c.one_running;
      events = ap (λ t. t.events) store;
      runs = ap (λ t. t.runs) store;
    }

Completes-IsEnded :
    (lib : Library) (i l : String) (n : ℕ) (result : Fields) (s s' : Store)
    → Completes lib i l n result s s'
    → IsEnded lib i l n result s s'
Completes-IsEnded lib i l n result s s' (by_event evidence now _ h) =
    complete_attempt-IsEnded lib i l n result s evidence now s' h
Completes-IsEnded lib i l n result s s'
      (by_operation given memory supersedes embedding evidence draw _ h) =
    let (event, there, how) =
      complete_operation-outcome lib s s' i l n given memory supersedes embedding evidence draw
        result h in
    elim how [
      | inl c ↦ record {
        valid = c.valid;
        evidence = evidence;
        now = draw.utc_now;
        one_running = c.one_running;
        events = c.events;
        runs = c.runs;
      }
      | inr d ↦ record {
        valid = d.valid;
        evidence = evidence;
        now = draw.utc_now;
        one_running = d.one_running;
        events = d.events;
        runs = d.runs;
      }
    ]

module _ (lib : Library) (request : ObserveRequest) (i l : String) (n : ℕ) (result : Fields)
    (s after : Store) (existing : Event) where
  -- The row of the request after its completion.
  event_after :
      IsEnded lib i l n result s after
      → event_by_key s request ≡ some existing
      → is_owned i l n existing ≡ true
      → event_by_key after request ≡ some (completed_row result existing)
  unfolding event_by_key completed_row
  event_after c found mine =
      let moved =
        find-update_where (has_event_key request.project_id request.session_id request.event_id)
          (is_owned i l n) (completed_row result) s.events (λ x. refl) in
      rw c.events (rw moved (rw found (rw mine)))

  run_after :
      IsEnded lib i l n result s after → (run : Run) × (run_for_attempt after i n ≡ some run)
  unfolding run_for_attempt
  run_after c =
      let state = run_state_of result in
      let finished = finished_run lib c.now state (normalized_run_evidence c.evidence) none none in
      let (run, found) =
        find-rowcount (is_running_run i n) (is_run_of i n) s.runs (running_is_run i n)
          c.one_running in
      let moved =
        find-update_where (is_run_of i n) (is_running_run i n) finished s.runs
          (finished-is_run_of lib c.now state (normalized_run_evidence c.evidence) none none i n) in
      (changed (is_running_run i n) finished run, rw c.runs (rw moved (rw found)))

  completed_state :
      {hash : String}
      → existing.payload_hash ≡ hash
      → ((completed_row result existing).payload_hash ≡ hash)
        × ((completed_row result existing).processing_state ≡ completed)
  unfolding completed_row
  completed_state same = (same, refl)

  owned_run :
      is_owned i l n existing ≡ true
      → (run : Run) → run_for_attempt after i n ≡ some run
      → run_for_attempt after existing.internal_id existing.attempt_count ≡ some run
  unfolding is_owned
  owned_run mine run ran =
      let same_id : existing.internal_id ≡ i = str_eq_sound existing.internal_id i (ground arith) in
      let same_no : existing.attempt_count ≡ n = ground arith in rw (same_id, same_no) ran

  replayed :
      (run : Run)
      → run_for_attempt after existing.internal_id existing.attempt_count ≡ some run
      → valid_v4_final_result (some (obj result)) ≡ true
      → ((replay_completed after (completed_row result existing)).status_code ≡ 200)
        × ((replay_completed after (completed_row result existing)).final_result
            ≡ some (obj result))
        × ((replay_completed after (completed_row result existing)).owns_attempt ≡ false)
  unfolding replay_completed completed_row
  replayed run ran valid = (rw (valid, ran), rw (valid, ran), rw (valid, ran))

  -- A request whose event was completed by its owner, in either way, and that is sent again with the same
  -- content, a readable timestamp and a known provider mode, gets code 200 and the completed result, and
  -- the store does not change. It is not handed the attempt.
  pub complete-replay :
      Completes lib i l n result s after
      → event_by_key s request ≡ some existing
      → is_owned i l n existing ≡ true
      → (observed_at : String) → lib.canonical_utc_timestamp request.observed_at ≡ some observed_at
      → existing.payload_hash ≡ payload_hash lib request observed_at
      → (now : ℕ) (provider_mode : String) (draw : Draw)
      → member provider_mode ("fake" ∷ "live" ∷ []) ≡ true
      → (c : ClaimResult) × (claim_event lib request now provider_mode draw after ≡ (ok c, after))
        × (c.status_code ≡ 200)
        × (c.final_result ≡ some (obj result))
        × (c.owns_attempt ≡ false)
  complete-replay h found mine observed_at canonical same now provider_mode draw known =
      let c = Completes-IsEnded lib i l n result s after h in
      let (run, ran) = run_after c in
      let here = event_after c found mine in
      let row = completed_row result existing in
      let (status, stored, unowned) = replayed run (owned_run mine run ran) c.valid in
      (
        replay_completed after row,
        claim_event-existing lib request now provider_mode draw after row observed_at known
              canonical here
            ∙ claim_existing-completed lib after row (payload_hash lib request observed_at) now
                provider_mode draw (completed_state same),
        status,
        stored,
        unowned,
      )
