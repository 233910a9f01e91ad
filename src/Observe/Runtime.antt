-- ===== src/Observe/Runtime.antt =====
-- `observe` of src/recallpack/observe.py: the claim, the turn of the project, and the attempt that is owned.
-- The ticket waits and is released as in Turnstile; what others do meanwhile comes before the next call.
use recallpack.Base.{
  ℕ, String, Bool, false, not, ◌||◌, Option, none, some, ◌==◌, str_eq, if◌then◌else◌, Result, ok,
  err,
}
use recallpack.Memory.{ObserveRequest}
use recallpack.Turnstile.{project_turn, Registry, register}
use recallpack.Store.Answer.{
  StoreError, invalid_provider_mode, invalid_timestamp, integrity_error, invalid_document_embedding,
  ClaimResult,
}
use recallpack.Store.Claim.{claim_event}
use recallpack.Store.Complete.{owns_event_attempt}
use recallpack.Observe.Trace.{Raised, value_error, sqlite_error, other_error}
use recallpack.Observe.Evidence.{sqlite_error_code}
use recallpack.Observe.Flow.{
  ObserveRuntime, claiming, owning, Outside, Flow, returns, raise, then_run, store_call,
}
use recallpack.Observe.Attempt.{observe_owned}
use recallpack.Observe.Response.{ObserveResponse, response_for_claim, lease_lost}

-- A provider as `_provider_mode` looks at it: whether a trace of it is live, its own `is_live`, whether the
-- name of its class starts with "Qwen", and the provider that it wraps, if any.
pub record Look : Type 0 where
  pub has_live_trace : Bool
  pub is_live : Bool
  pub is_qwen : Bool

pub data Provider : Type 0 where
  plain : Look → Provider
  wraps : Look → Provider → Provider

abbrev pub looks_live : Look → Bool
looks_live l = l.has_live_trace || l.is_live || l.is_qwen

abbrev pub is_live_provider : Provider → Bool
is_live_provider (plain l) = looks_live l
is_live_provider (wraps l nested) = looks_live l || is_live_provider nested

-- `_provider_mode`
unfoldable pub provider_mode : Provider → Provider → String
provider_mode decider embedding_provider =
    if is_live_provider decider || is_live_provider embedding_provider then "live" else "fake"

-- An answer with a status and an error alone.
abbrev pub plain_response : ℕ → Option String → ObserveResponse
plain_response status_code error = record {
  status_code = status_code;
  error = error;
  final_result = none;
  event_internal_id = none;
  project_event_seq = none;
  attempt_no = none;
  replayed = false;
  run_id = none;
  provider_mode = none;
  repaired = false;
  request_id_present = false;
}

-- `ObserveService.observe`, over what the claim of its store answers.
unfoldable pub service_response : String → Result Raised ObserveResponse
service_response result =
    if str_eq result "pending"
    then ok (plain_response 202 none)
    else if str_eq result "idempotency_conflict"
    then ok (plain_response 409 (some "idempotency_conflict"))
    else if str_eq result "out_of_order"
    then ok (plain_response 409 (some "out_of_order"))
    else err other_error

-- The answer to a claim that is refused or answered from the row.
abbrev pub claim_response : ClaimResult → ObserveResponse
claim_response claim = record {
  status_code = claim.status_code;
  error = claim.error;
  final_result = claim.final_result;
  event_internal_id = claim.event_internal_id;
  project_event_seq = claim.project_event_seq;
  attempt_no = claim.attempt_no;
  replayed = claim.status_code == 200;
  run_id = claim.run_id;
  provider_mode = claim.provider_mode;
  repaired = claim.repaired;
  request_id_present = claim.request_id_present;
}

-- What the claim raises.
abbrev pub claim_raises : String → Result StoreError ClaimResult → Result Raised ClaimResult
claim_raises message (ok claim) = ok claim
claim_raises message (err integrity_error) = err (sqlite_error message)
claim_raises message (err invalid_provider_mode) = err (value_error "invalid_provider_mode")
claim_raises message (err invalid_timestamp) = err (value_error "invalid_timestamp")
claim_raises message (err invalid_document_embedding) =
    err (value_error "invalid_document_embedding")

-- `except sqlite3.Error`
abbrev pub answer_sqlite :
    (String → ObserveResponse) → Result Raised ObserveResponse → Result Raised ObserveResponse
answer_sqlite answer (err (sqlite_error message)) = ok (answer message)
answer_sqlite answer r = r

unfoldable pub catch_sqlite :
    (String → ObserveResponse) → Flow ObserveResponse → Flow ObserveResponse
catch_sqlite answer flow s = (answer_sqlite answer (flow s).0, (flow s).1)

abbrev pub or_zero : Option ℕ → ℕ
or_zero none = 0
or_zero (some n) = n

abbrev pub or_none_text : Option String → String
or_none_text none = "None"
or_none_text (some s) = s

module _ (runtime : ObserveRuntime) (outside : Outside) (request : ObserveRequest) where
  -- The block of the ticket.
  unfoldable pub observe_turn : ClaimResult → Flow ObserveResponse
  observe_turn claim =
      catch_sqlite
        (λ message. response_for_claim claim 503 (some (sqlite_error_code message)) none none none)
        (then_run
          (store_call outside owning (λ s. (
            ok (
                owns_event_attempt s (record {
                  event_internal_id = claim.event_internal_id;
                  lease_token = claim.lease_token;
                  attempt_no = claim.attempt_no;
                })),
            s,
          )))
          (λ owns.
            if owns
            then observe_owned runtime outside request claim
            else returns (lease_lost claim)))

  -- From the claim on, with the registry at the time of the registration. An error of the turn leaves
  -- `observe`; an owned claim has its number, its attempt and its token.
  unfoldable pub observe_claim : Registry → ClaimResult → Flow ObserveResponse
  observe_claim registry claim =
      if not (claim.status_code == 202)
      then returns (claim_response claim)
      else if not claim.owns_attempt
      then returns (response_for_claim claim 202 none none none none)
      else elim (project_turn request.project_id (or_zero claim.project_event_seq)
          (or_zero claim.attempt_no) (or_none_text claim.lease_token)) [
            | err e ↦ raise other_error
            | ok turn ↦ elim (register turn registry).0 [
              | err e ↦ raise other_error
              | ok ticket ↦ observe_turn claim
            ]
          ]

  -- What follows the call of `claim_event`.
  unfoldable pub answer_claim : Registry → Result Raised ClaimResult → Flow ObserveResponse
  answer_claim registry (ok claim) = observe_claim registry claim
  answer_claim registry (err (sqlite_error message)) =
      returns (plain_response 503 (some (sqlite_error_code message)))
  answer_claim registry (err e) = raise e

  -- `ObserveRuntime.observe`
  unfoldable pub observe : Provider → Provider → Registry → ℕ → Flow ObserveResponse
  observe decider embedding_provider registry now s =
      let claimed =
        store_call outside claiming
          (λ t.
            let c =
              claim_event runtime.library request now (provider_mode decider embedding_provider)
                outside.claim_draw t in
            (claim_raises outside.integrity_message c.0, c.1))
          s in
      answer_claim registry claimed.0 claimed.1
