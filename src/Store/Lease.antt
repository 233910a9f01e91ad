-- ===== src/Store/Lease.antt =====
-- `_take_over_lease` of src/recallpack/storage.py.
use recallpack.Base.{
  ℕ, ◌+◌, String, Bool, ◌&&◌, ◌||◌, none, some, ◌==◌, str_eq, opt_str_eq, if◌then◌else◌, Result, ok,
  err,
}
use recallpack.Library.{Library}
use recallpack.Store.Rows.{pending, Event, lost_lease, Store, Draw}
use recallpack.Store.Query.{is_pending, is_failed, update_where, rowcount}
use recallpack.Store.Runs.{insert_running_run, finish_run}
use recallpack.Store.Answer.{StoreError, integrity_error, ClaimResult, rejected, owned}

-- The UPDATE of `_take_over_lease`: the row as it was read.
unfoldable pub is_as_read : Event → Event → Bool
is_as_read existing e =
    str_eq e.internal_id existing.internal_id
    && e.attempt_count == existing.attempt_count
    && (is_pending e.processing_state && is_pending existing.processing_state
        || is_failed e.processing_state && is_failed existing.processing_state)
    && opt_str_eq e.lease_token existing.lease_token

unfoldable pub taken_over : ℕ → String → ℕ → Event → Event
taken_over attempt_no lease_token lease_expires_at e = record e {
  processing_state = pending;
  failure_kind = none;
  attempt_count = attempt_no;
  lease_token = some lease_token;
  lease_expires_at = some lease_expires_at;
  last_error = none;
}

-- The end of `_take_over_lease`, from the UPDATE on, with the run of a lost lease finished.
unfoldable pub renew_lease :
    Store → Store → Event → ℕ → String → Draw → Result StoreError ClaimResult × Store
renew_lease before s existing now provider_mode draw =
    if rowcount (is_as_read existing) s.events == 1
    then elim (insert_running_run
        (record s {
          events =
              update_where (is_as_read existing)
                (taken_over (existing.attempt_count + 1) draw.lease_token (now + s.lease_seconds))
                s.events;
        })
        draw.run_id existing.internal_id (existing.attempt_count + 1) provider_mode draw.utc_now) [
          | none ↦ (err integrity_error, before)
          | some s' ↦ (
            ok (
                owned existing.internal_id existing.project_event_seq draw.lease_token
                  (existing.attempt_count + 1) draw.run_id provider_mode),
            s',
          )
        ]
    else (ok (rejected "lease_lost"), before)

-- `_take_over_lease`
unfoldable pub take_over_lease :
    Library → Store → Event → ℕ → String → Draw → Result StoreError ClaimResult × Store
take_over_lease lib s existing now provider_mode draw =
    if is_pending existing.processing_state
    then elim (finish_run lib s existing.internal_id existing.attempt_count lost_lease none
        (some "lease_expired") none draw.utc_now) [
          | none ↦ (ok (rejected "lease_lost"), s)
          | some s' ↦ renew_lease s s' existing now provider_mode draw
        ]
    else renew_lease s s existing now provider_mode draw
