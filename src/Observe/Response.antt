-- ===== src/Observe/Response.antt =====
-- The answers of src/recallpack/observe.py, and what `_observe_owned` knows of an attempt on its way.
use recallpack.Base.{ℕ, String, Bool, false, Option, none, some, List, ◌==◌, str_eq, if◌then◌else◌}
use recallpack.Json.{Json, str, arr, obj, texts, end, field}
use recallpack.Store.Answer.{ClaimResult}
use recallpack.Store.Complete.{Attempt}
use recallpack.Observe.Evidence.{Traces}

pub record ObserveResponse : Type 0 where
  pub status_code : ℕ
  pub error : Option String
  pub final_result : Option Json
  pub event_internal_id : Option String
  pub project_event_seq : Option ℕ
  pub attempt_no : Option ℕ
  pub replayed : Bool
  pub run_id : Option String
  pub provider_mode : Option String
  pub repaired : Bool
  pub request_id_present : Bool

abbrev pub given : Option Bool → Bool → Bool
given none fallback = fallback
given (some b) fallback = b

-- `_response_for_claim`
abbrev pub response_for_claim :
    ClaimResult → ℕ → Option String → Option Json → Option Bool → Option Bool → ObserveResponse
response_for_claim claim status_code error final_result repaired request_id_present = record {
  status_code = status_code;
  error = error;
  final_result = final_result;
  event_internal_id = claim.event_internal_id;
  project_event_seq = claim.project_event_seq;
  attempt_no = claim.attempt_no;
  replayed = false;
  run_id = claim.run_id;
  provider_mode = claim.provider_mode;
  repaired = given repaired claim.repaired;
  request_id_present = given request_id_present claim.request_id_present;
}

abbrev pub lease_lost : ClaimResult → ObserveResponse
lease_lost claim = response_for_claim claim 409 (some "lease_lost") none none none

abbrev pub attempt_of : ClaimResult → Attempt
attempt_of claim = record {
  event_internal_id = claim.event_internal_id;
  lease_token = claim.lease_token;
  attempt_no = claim.attempt_no;
}

abbrev pub stage : String → List String → Json
stage name errors = obj (field "stage" (str name) (field "errors" (arr (texts errors)) end))

abbrev pub unparseable : String
unparseable = "model_output_unparseable"

abbrev pub after_repair : String → String
after_repair code =
    if str_eq code unparseable then "model_output_unparseable_after_repair" else code

-- The number of the event for `_normalize_operation_with_errors`: that of the claim, if it has one that
-- is not 0.
abbrev pub seq_or : Option ℕ → ℕ → ℕ
seq_or none n = n
seq_or (some m) n = if m == 0 then n else m

-- What `_observe_owned` knows of its attempt after the first decision.
pub record Progress : Type 0 where
  pub operation : Option Json
  pub validation : List Json
  pub repaired : Bool
  pub traces : Traces
