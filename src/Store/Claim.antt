-- ===== src/Store/Claim.antt =====
-- `claim_event` of src/recallpack/storage.py, with `_claim_existing`. A call returns its answer beside the
-- database; a rollback returns the database as it was.
use recallpack.Base.{
  ℕ, ◌+◌, String, Bool, false, not, ◌&&◌, ◌||◌, Option, none, some, [], ◌∷◌, any, ltb, ◌==◌, str_eq,
  if◌then◌else◌, Result, ok, err,
}
use recallpack.Json.{member}
use recallpack.Memory.{ObserveRequest}
use recallpack.Library.{Library}
use recallpack.Store.Rows.{pending, completed, failed, Event, Store, Draw}
use recallpack.Store.Query.{
  is_retryable, event_by_key, cursor_for, has_blocking_event, next_project_event_seq,
  run_for_attempt,
}
use recallpack.Store.Results.{valid_v4_final_result}
use recallpack.Store.Runs.{insert_running_run, claim_run_summary}
use recallpack.Store.Answer.{
  StoreError, invalid_provider_mode, invalid_timestamp, integrity_error, ClaimResult, rejected,
  owned, payload_hash,
}
use recallpack.Store.Lease.{take_over_lease}

-- A completed event is answered from the row.
unfoldable pub replay_completed : Store → Event → ClaimResult
replay_completed s existing =
    if elim existing.result_schema_version [ none ↦ false | some v ↦ v == 4 ]
      && valid_v4_final_result existing.final_result_json
    then elim (run_for_attempt s existing.internal_id existing.attempt_count) [
      | none ↦ rejected "legacy_result_incompatible"
      | some run ↦
          let summary = claim_run_summary (some run) in
          record {
            status = "completed";
            status_code = 200;
            error = none;
            event_internal_id = some existing.internal_id;
            project_event_seq = some existing.project_event_seq;
            lease_token = none;
            attempt_no = some existing.attempt_count;
            final_result = existing.final_result_json;
            run_id = summary.run_id;
            provider_mode = summary.provider_mode;
            repaired = summary.repaired;
            request_id_present = summary.request_id_present;
            owns_attempt = false;
          }
    ]
    else rejected "legacy_result_incompatible"

-- A lease that still runs is reported, and not owned.
unfoldable pub report_pending : Store → Event → ClaimResult
report_pending s existing =
    let summary =
      claim_run_summary (run_for_attempt s existing.internal_id existing.attempt_count) in
    record {
      status = "pending";
      status_code = 202;
      error = none;
      event_internal_id = some existing.internal_id;
      project_event_seq = some existing.project_event_seq;
      lease_token = existing.lease_token;
      attempt_no = some existing.attempt_count;
      final_result = none;
      run_id = summary.run_id;
      provider_mode = summary.provider_mode;
      repaired = summary.repaired;
      request_id_present = summary.request_id_present;
      owns_attempt = false;
    }

abbrev pub expiry : Option ℕ → ℕ
expiry none = 0
expiry (some t) = t

-- `_claim_existing`. A pending row has an expiry: the code reads it as an int.
unfoldable pub claim_existing :
    Library → Store → Event → String → ℕ → String → Draw → Result StoreError ClaimResult × Store
claim_existing lib s existing hash now provider_mode draw =
    if not (str_eq existing.payload_hash hash)
    then (ok (rejected "idempotency_conflict"), s)
    else elim existing.processing_state [
      | completed ↦ (ok (replay_completed s existing), s)
      | pending ↦
          if ltb now (expiry existing.lease_expires_at)
          then (ok (report_pending s existing), s)
          else take_over_lease lib s existing now provider_mode draw
      | failed ↦
          if is_retryable existing.failure_kind
          then take_over_lease lib s existing now provider_mode draw
          else (ok (rejected "event_not_retryable"), s)
    ]

-- The row that a new event gets.
unfoldable pub new_event : ObserveRequest → String → String → ℕ → ℕ → Draw → Event
new_event request observed_at hash project_event_seq lease_expires_at draw = record {
  internal_id = draw.event_id;
  project_id = request.project_id;
  session_id = request.session_id;
  external_event_id = request.event_id;
  sequence_no = request.sequence_no;
  project_event_seq = project_event_seq;
  actor = request.actor;
  kind = request.kind;
  observed_at = observed_at;
  text = request.text;
  payload_hash = hash;
  processing_state = pending;
  failure_kind = none;
  attempt_count = 1;
  lease_token = some draw.lease_token;
  lease_expires_at = some lease_expires_at;
  last_error = none;
  final_result_json = none;
  result_schema_version = some 4;
}

-- A row that the primary key or one of the three unique keys forbids beside `e`.
unfoldable pub clashes : Event → Event → Bool
clashes e f =
    str_eq f.internal_id e.internal_id
    || str_eq f.project_id e.project_id
      && (str_eq f.session_id e.session_id
            && (str_eq f.external_event_id e.external_event_id || f.sequence_no == e.sequence_no)
          || f.project_event_seq == e.project_event_seq)

-- The INSERT INTO session_events; none is the IntegrityError.
unfoldable pub insert_event : Store → Event → Option Store
insert_event s e =
    if any (clashes e) s.events then none else some (record s { events = e ∷ s.events })

-- A new event of a session, with the cursor that `_cursor_for` left.
unfoldable pub claim_new :
    Store
    → Store
    → ObserveRequest
    → String
    → String
    → ℕ
    → String
    → Draw
    → Result StoreError ClaimResult × Store
claim_new before s request observed_at hash now provider_mode draw =
    let seq = next_project_event_seq s request.project_id in
    elim (insert_event s (new_event request observed_at hash seq (now + s.lease_seconds) draw)) [
      | none ↦ (err integrity_error, before)
      | some s₁ ↦
          elim (insert_running_run s₁ draw.run_id draw.event_id 1 provider_mode draw.utc_now) [
            | none ↦ (err integrity_error, before)
            | some s₂ ↦
                (ok (owned draw.event_id seq draw.lease_token 1 draw.run_id provider_mode), s₂)
          ]
    ]

-- The tests on a new event, in their order.
unfoldable pub admit_new :
    Store
    → ObserveRequest
    → String
    → String
    → ℕ
    → String
    → Draw
    → Result StoreError ClaimResult × Store
admit_new s request observed_at hash now provider_mode draw =
    let (expected, cursors) = cursor_for s.cursors request.project_id request.session_id in
    let s' = record s { cursors = cursors } in
    if ltb request.sequence_no expected
    then (ok (rejected "sequence_conflict"), s')
    else if has_blocking_event s request.project_id request.session_id
    then (ok (rejected "prior_event_incomplete"), s')
    else if ltb expected request.sequence_no
    then (ok (rejected "out_of_order"), s')
    else claim_new s s' request observed_at hash now provider_mode draw

unfoldable pub claim_event :
    Library → ObserveRequest → ℕ → String → Draw → Store → Result StoreError ClaimResult × Store
claim_event lib request now provider_mode draw s =
    if not (member provider_mode ("fake" ∷ "live" ∷ []))
    then (err invalid_provider_mode, s)
    else elim (lib.canonical_utc_timestamp request.observed_at) [
      | none ↦ (err invalid_timestamp, s)
      | some observed_at ↦
          let hash = payload_hash lib request observed_at in
          elim (event_by_key s request) [
            | some existing ↦ claim_existing lib s existing hash now provider_mode draw
            | none ↦ admit_new s request observed_at hash now provider_mode draw
          ]
    ]
