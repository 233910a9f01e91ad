-- ===== src/Server/Tests.antt =====
-- A request of src/recallpack/demo_server.py, to the row of its event.
use recallpack.Base.{String, true, some, ◌≡◌, refl, subst, ok, any, all, str_eq}
use recallpack.Json.{str, int, pos, Fields, field, end}
use recallpack.Library.{Library}
use recallpack.Memory.{ObserveRequest}
use recallpack.Store.Rows.{Draw}
use recallpack.Store.Query.{next_project_event_seq}
use recallpack.Store.Answer.{payload_hash}
use recallpack.Store.Claim.{new_event}
use recallpack.Store.Steps.{empty_store}
use recallpack.Store.RowChecks.{
  valid_sha256, valid_utc_timestamp, valid_internal_id, valid_v4_event_state,
}
use recallpack.Server.Request.{
  valid_texts, texts_of_payload, checked_request, observe_request_from_payload,
}
use recallpack.Server.Checked.{observe_request-valid_v4_event_state}

abbrev noon : String
noon = "2026-01-01T12:00:00Z"

abbrev digest : String
digest = "0123456789abcdef0123456789abcdef0123456789abcdef0123456789abcdef"

abbrev library : Library
library = record {
  sha256_of_json = λ j. digest;
  sha256_of_text = λ t. digest;
  canonical_utc_timestamp = λ t. some noon;
  duration_ms = λ a b. 0;
  re_sub = λ pattern replacement t. t;
  float_of_int = λ i. 0;
}

abbrev payload : Fields
payload = field "project_id" (str "p") (
    field "session_id" (str "s") (
      field "event_id" (str "x") (
        field "sequence_no" (int (pos 1)) (
          field "actor" (str "user") (
            field "kind" (str "message")
              (field "observed_at" (str noon) (field "text" (str "retry twice") end)))))))

abbrev request : ObserveRequest
request = record {
  project_id = "p";
  session_id = "s";
  event_id = "x";
  sequence_no = 1;
  actor = "user";
  kind = "message";
  observed_at = noon;
  text = "retry twice";
}

abbrev draw : Draw
draw = record {
  event_id = "evt_1";
  lease_token = "l1";
  run_id = "run_1";
  memory_id = "mem_1";
  utc_now = noon;
}

accepted : observe_request_from_payload library payload ≡ ok request
unfolding observe_request_from_payload texts_of_payload checked_request valid_texts str_eq
accepted = refl

digest-valid_sha256 : valid_sha256 digest ≡ true
unfolding valid_sha256 all
digest-valid_sha256 = refl

noon-valid_utc_timestamp : valid_utc_timestamp (λ t. true) noon ≡ true
unfolding valid_utc_timestamp any
noon-valid_utc_timestamp = refl

canonical-valid_utc_timestamp :
    (u : String) → some noon ≡ some u → valid_utc_timestamp (λ t. true) u ≡ true
canonical-valid_utc_timestamp u h =
    let same : noon ≡ u = cc in
    subst (λ x. valid_utc_timestamp (λ t. true) x ≡ true) same noon-valid_utc_timestamp

drawn-valid_internal_id : valid_internal_id "evt_1" "evt_" ≡ true
unfolding valid_internal_id
drawn-valid_internal_id = refl

observe_request-valid_v4_event_state_example :
    valid_v4_event_state library
      (λ t. true)
      (new_event request noon
        (payload_hash library request noon)
        (next_project_event_seq (empty_store 60) "p")
        160
        draw)
    ≡ true
unfolding str_eq
observe_request-valid_v4_event_state_example =
    observe_request-valid_v4_event_state library (λ t. true) payload request (empty_store 60) noon
      160 draw (λ j. digest-valid_sha256) (λ t u h. canonical-valid_utc_timestamp u h)
      drawn-valid_internal_id refl accepted refl
