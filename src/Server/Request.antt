-- ===== src/Server/Request.antt =====
-- `_observe_request_from_payload` of src/recallpack/demo_server.py, of a payload that is a dictionary. Its
-- `_canonical_utc_timestamp` is that of the library.
use recallpack.Base.{
  ℕ, String, Bool, not, ◌&&◌, none, some, List, [], ◌∷◌, length, leb, if◌then◌else◌, Result, ok,
  err, ◌>>=◌,
}
use recallpack.Json.{pos, str, int, Fields, get, keys_are, member}
use recallpack.Library.{Library}
use recallpack.Match.{codes}
use recallpack.Memory.{ObserveRequest}

abbrev pub request_keys : List String
request_keys =
    "project_id" ∷ "session_id" ∷ "event_id" ∷ "sequence_no" ∷ "actor" ∷ "kind" ∷ "observed_at"
    ∷ "text" ∷ []

abbrev pub text_at : String → Fields → Result String String
text_at key payload = elim (get key payload) [ str s ↦ ok s | _ ↦ err "invalid_request" ]

-- A length from 1 to the limit.
abbrev pub is_within : ℕ → String → Bool
is_within limit s = leb 1 (length (codes s)) && leb (length (codes s)) limit

-- An int from 1 on that is no bool.
abbrev pub positive_at : String → Fields → Result String ℕ
positive_at key payload = elim (get key payload) [
  | int (pos n) ↦ if leb 1 n then ok n else err "invalid_request"
  | _ ↦ err "invalid_request"
]

-- The tests on the texts of a request.
unfoldable pub valid_texts : ObserveRequest → Bool
valid_texts r =
    is_within 128 r.project_id
    && is_within 128 r.session_id
    && is_within 128 r.event_id
    && member r.actor ("user" ∷ "assistant" ∷ "tool" ∷ [])
    && member r.kind ("message" ∷ "test_result" ∷ "command_result" ∷ [])
    && is_within 20000 r.text

-- The request with the texts of the payload.
unfoldable pub texts_of_payload : Fields → Result String ObserveRequest
texts_of_payload payload = do
  project_id ← text_at "project_id" payload
  session_id ← text_at "session_id" payload
  event_id ← text_at "event_id" payload
  actor ← text_at "actor" payload
  kind ← text_at "kind" payload
  observed_at ← text_at "observed_at" payload
  text ← text_at "text" payload
  ok (record {
    project_id = project_id;
    session_id = session_id;
    event_id = event_id;
    sequence_no = 0;
    actor = actor;
    kind = kind;
    observed_at = observed_at;
    text = text;
  })

-- From the tests of the texts on.
unfoldable pub checked_request : Library → Fields → ObserveRequest → Result String ObserveRequest
checked_request lib payload r =
    if not (valid_texts r)
    then err "invalid_request"
    else elim (positive_at "sequence_no" payload) [
      | err e ↦ err e
      | ok sequence_no ↦ elim (lib.canonical_utc_timestamp r.observed_at) [
        | none ↦ err "invalid_timestamp"
        | some observed_at ↦ ok (record r { sequence_no = sequence_no; observed_at = observed_at })
      ]
    ]

-- `_observe_request_from_payload`
unfoldable pub observe_request_from_payload : Library → Fields → Result String ObserveRequest
observe_request_from_payload lib payload =
    if keys_are request_keys payload
    then texts_of_payload payload >>= checked_request lib payload
    else err "invalid_request"
