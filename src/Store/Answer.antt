-- ===== src/Store/Answer.antt =====
-- What `claim_event` of src/recallpack/storage.py answers, and the hash that it compares.
use recallpack.Base.{ℕ, String, Bool, true, false, Option, none, some}
use recallpack.Json.{Json, str, int, pos, obj, end, field}
use recallpack.Memory.{ObserveRequest}
use recallpack.Library.{Library}

pub data StoreError : Type 0 where
  invalid_provider_mode invalid_timestamp integrity_error invalid_document_embedding : StoreError

pub record ClaimResult : Type 0 where
  pub status : String
  pub status_code : ℕ
  pub error : Option String
  pub event_internal_id : Option String
  pub project_event_seq : Option ℕ
  pub lease_token : Option String
  pub attempt_no : Option ℕ
  pub final_result : Option Json
  pub run_id : Option String
  pub provider_mode : Option String
  pub repaired : Bool
  pub request_id_present : Bool
  pub owns_attempt : Bool

-- The answers with status "rejected" and code 409.
abbrev pub rejected : String → ClaimResult
rejected error = record {
  status = "rejected";
  status_code = 409;
  error = some error;
  event_internal_id = none;
  project_event_seq = none;
  lease_token = none;
  attempt_no = none;
  final_result = none;
  run_id = none;
  provider_mode = none;
  repaired = false;
  request_id_present = false;
  owns_attempt = false;
}

-- An attempt that the caller owns.
abbrev pub owned : String → ℕ → String → ℕ → String → String → ClaimResult
owned event_internal_id project_event_seq lease_token attempt_no run_id provider_mode = record {
  status = "pending";
  status_code = 202;
  error = none;
  event_internal_id = some event_internal_id;
  project_event_seq = some project_event_seq;
  lease_token = some lease_token;
  attempt_no = some attempt_no;
  final_result = none;
  run_id = some run_id;
  provider_mode = some provider_mode;
  repaired = false;
  request_id_present = false;
  owns_attempt = true;
}

-- `_payload_hash`, of the canonical timestamp.
unfoldable pub payload_hash : Library → ObserveRequest → String → String
payload_hash lib request observed_at = lib.sha256_of_json (
    obj (
      field "actor" (str request.actor) (
        field "kind" (str request.kind) (
          field "observed_at" (str observed_at) (
            field "sequence_no" (int (pos request.sequence_no))
              (field "text" (str request.text) end))))))
