-- ===== src/Server/Reply.antt =====
-- `_serialize_observe_response` of src/recallpack/demo_server.py: the JSON that answers an observation.
use Prim.Native.String.{◌++◌}
use recallpack.Base.{ℕ, String, Bool, true, false, Option, none, some, ◌==◌, str_eq, if◌then◌else◌}
use recallpack.Json.{Json, null, bool, int, pos, str, obj, Fields, end, field}
use recallpack.Match.{begins, codes}
use recallpack.Memory.{ObserveRequest}
use recallpack.Observe.Response.{ObserveResponse}

pub record Reply : Type 0 where
  pub status_code : ℕ
  pub body : Fields

abbrev pub number_or_null : Option ℕ → Json
number_or_null none = null
number_or_null (some n) = int (pos n)

abbrev pub json_or_null : Option Json → Json
json_or_null none = null
json_or_null (some j) = j

-- `value or default` of a text.
abbrev pub or_text : String → Option String → String
or_text fallback none = fallback
or_text fallback (some s) = if str_eq s "" then fallback else s

-- `response.attempt_no or 1`
abbrev pub attempt_or_one : Option ℕ → ℕ
attempt_or_one none = 1
attempt_or_one (some n) = if n == 0 then 1 else n

abbrev pub is_run_id : Option String → Bool
is_run_id none = false
is_run_id (some id) = begins (codes id) (codes "run_")

-- What the code takes from Python's texts: `removeprefix`, and an int in an f-string.
pub record Texts : Type 0 where
  pub removeprefix : String → String → String
  pub shown_int : ℕ → String

-- `_observe_run_id`
unfoldable pub observe_run_id : Texts → ObserveResponse → String
observe_run_id texts response =
    if is_run_id response.run_id
    then or_text "" response.run_id
    else let event_id = or_text "unknown" response.event_internal_id in
      "run_"
      ++ (texts.removeprefix event_id "evt_"
          ++ ("_" ++ texts.shown_int (attempt_or_one response.attempt_no)))

-- `_observe_error_response`
abbrev pub observe_error_response : ℕ → String → Reply
observe_error_response status_code error = record {
  status_code = status_code;
  body = field "status_code" (int (pos status_code)) (field "error" (str error) end);
}

abbrev pub event_json : ObserveRequest → ObserveResponse → Fields
event_json request response = field "project_id" (str request.project_id) (
    field "session_id" (str request.session_id) (
      field "event_id" (str request.event_id) (
        field "sequence_no" (int (pos request.sequence_no))
          (field "project_event_seq" (number_or_null response.project_event_seq) end))))

-- `_serialize_observe_response`
unfoldable pub serialize_observe_response : Texts → ObserveRequest → ObserveResponse → Reply
serialize_observe_response texts request response =
    let run_id = observe_run_id texts response in
    if response.status_code == 200
    then record {
      status_code = 200;
      body = field "status_code" (int (pos 200)) (
          field "state" (str "completed") (
            field "replayed" (bool response.replayed) (
              field "event" (obj (event_json request response)) (
                field "final_result" (json_or_null response.final_result) (
                  field "trace"
                    (obj (
                      field "run_id" (str run_id) (
                        field "attempt_no" (int (pos (attempt_or_one response.attempt_no))) (
                          field "provider_mode" (str (or_text "fake" response.provider_mode)) (
                            field "repaired" (bool response.repaired) (
                              field "request_id_present" (bool response.request_id_present)
                                end))))))
                    end)))));
    }
    else if response.status_code == 202
    then record {
      status_code = 202;
      body =
          field "status_code" (int (pos 202))
            (field "state" (str "pending") (field "event" (obj (event_json request response)) end));
    }
    else if response.status_code == 503
    then record {
      status_code = 503;
      body = field "status_code" (int (pos 503)) (
          field "error" (str (or_text "provider_network_error" response.error))
            (field "retryable" (bool true) (field "run_id" (str run_id) end)));
    }
    else observe_error_response response.status_code (or_text "invalid_request" response.error)
