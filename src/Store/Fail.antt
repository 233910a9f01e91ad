-- ===== src/Store/Fail.antt =====
-- How src/recallpack/storage.py fails an attempt: `fail_retryable_event` and `fail_terminal_event`.
use recallpack.Base.{
  ℕ, String, Bool, true, false, not, ◌&&◌, ◌||◌, Option, none, some, List, [], ◌∷◌, length, leb,
  ◌==◌, all, str_eq, if◌then◌else◌,
}
use recallpack.Json.{obj, Fields}
use recallpack.Library.{Library}
use recallpack.Match.{codes}
use recallpack.Store.Rows.{failed, retryable, terminal, Event, failed_retryable, Store}
use recallpack.Store.Query.{update_where, rowcount, is_owned, pending_event_for_attempt}
use recallpack.Store.Runs.{finish_run}
use recallpack.Store.Complete.{Attempt, with_attempt, advance_cursor}

abbrev pub is_upper : ℕ → Bool
is_upper c = leb 65 c && leb c 90

abbrev pub is_lower : ℕ → Bool
is_lower c = leb 97 c && leb c 122

abbrev pub is_digit : ℕ → Bool
is_digit c = leb 48 c && leb c 57

abbrev pub starts_alpha : List ℕ → Bool
starts_alpha [] = false
starts_alpha (c ∷ cs) = is_lower c || is_upper c

-- `_valid_failure_code`; a text of ASCII equals its `lower()` if it has no letter from A to Z.
unfoldable pub valid_failure_code : String → Bool
valid_failure_code value =
    leb 1 (length (codes value))
    && leb (length (codes value)) 64
    && starts_alpha (codes value)
    && all (λ c. not (is_upper c)) (codes value)
    && all (λ c. is_lower c || is_upper c || is_digit c || c == 95) (codes value)

unfoldable pub failure_code_of : String → String
failure_code_of error = if valid_failure_code error then error else "provider_network_error"

-- `error_detail or (error if error != failure_code else None)`
unfoldable pub detail_of : String → Option String → Option String
detail_of error none = if str_eq error (failure_code_of error) then none else some error
detail_of error (some detail) =
    if str_eq detail ""
    then (if str_eq error (failure_code_of error) then none else some error)
    else some detail

unfoldable pub failed_row : String → Event → Event
failed_row failure_code e = record e {
  processing_state = failed;
  failure_kind = some retryable;
  lease_token = none;
  lease_expires_at = none;
  last_error = some failure_code;
}

unfoldable pub fail_attempt :
    Library
    → String
    → String
    → ℕ
    → String
    → Option Fields
    → Option String
    → String
    → Store
    → Bool × Store
fail_attempt lib event_internal_id lease_token attempt_no error run_evidence error_detail utc_now
      s =
    if rowcount (is_owned event_internal_id lease_token attempt_no) s.events == 1
    then elim (finish_run lib
        (record s {
          events =
              update_where (is_owned event_internal_id lease_token attempt_no)
                (failed_row (failure_code_of error)) s.events;
        })
        event_internal_id attempt_no failed_retryable run_evidence (some (failure_code_of error))
        (detail_of error error_detail) utc_now) [ none ↦ (false, s) | some s' ↦ (true, s') ]
    else (false, s)

unfoldable pub fail_retryable_event :
    Library → Attempt → String → Option Fields → Option String → String → Store → Bool × Store
fail_retryable_event lib attempt error run_evidence error_detail utc_now s =
    with_attempt attempt (false, s)
      (λ i l n. fail_attempt lib i l n error run_evidence error_detail utc_now s)

unfoldable pub terminal_row : String → Fields → Event → Event
terminal_row error final_result e = record e {
  processing_state = failed;
  failure_kind = some terminal;
  lease_token = none;
  lease_expires_at = none;
  last_error = some error;
  final_result_json = some (obj final_result);
}

-- The run of the attempt stays as it is.
unfoldable pub fail_terminal_attempt : String → String → ℕ → String → Fields → Store → Bool × Store
fail_terminal_attempt event_internal_id lease_token attempt_no error final_result s =
    elim (pending_event_for_attempt s event_internal_id lease_token attempt_no) [
      | none ↦ (false, s)
      | some event ↦
          if rowcount (is_owned event_internal_id lease_token attempt_no) s.events == 1
          then (
            true,
            record s {
              events =
                  update_where (is_owned event_internal_id lease_token attempt_no)
                    (terminal_row error final_result) s.events;
              cursors = advance_cursor event s.cursors;
            },
          )
          else (false, s)
    ]

unfoldable pub fail_terminal_event : Attempt → String → Fields → Store → Bool × Store
fail_terminal_event attempt error final_result s =
    with_attempt attempt (false, s) (λ i l n. fail_terminal_attempt i l n error final_result s)
