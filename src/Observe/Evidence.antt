-- ===== src/Observe/Evidence.antt =====
-- The evidence that src/recallpack/observe.py keeps of an attempt, and the codes of its errors.
use recallpack.Base.{
  String, Bool, ◌||◌, Option, some, List, [], ◌∷◌, ◌++◌, any, keep, str_eq, if◌then◌else◌, Result,
  ok, ◌>>=◌,
}
use recallpack.Json.{
  pos, Json, null, int, arr, obj, Items, nil, cons, Fields, end, field, get, items, is_text,
  set_field, member,
}
use recallpack.Match.{codes, lower, occurs}
use recallpack.Store.Runs.{has_request_id, has_repair}
use recallpack.Observe.Trace.{ProviderError, Raised, ProviderTrace, to_v4_record}

-- The traces of the decider and of the embedding provider behind the lengths of `_trace_offsets`.
pub record Traces : Type 0 where
  pub decider : List ProviderTrace
  pub embedding_provider : List ProviderTrace

abbrev pub v4_records : List ProviderTrace → Result Raised (List Fields)
v4_records [] = ok []
v4_records (t ∷ ts) = do r ← to_v4_record t; rest ← v4_records ts; ok (r ∷ rest)

abbrev pub objects : List Fields → Items
objects [] = nil
objects (r ∷ rs) = cons (obj r) (objects rs)

abbrev pub array : List Json → Items
array [] = nil
array (j ∷ js) = cons j (array js)

abbrev pub with_role : String → List Fields → Items
with_role role records = objects (keep (λ r. is_text (get "role" r) role) records)

abbrev pub dict_or_null : Option Json → Json
dict_or_null (some (obj fs)) = obj fs
dict_or_null _ = null

-- `_attempt_evidence`
unfoldable pub attempt_evidence : Traces → Option Json → List Json → Result Raised Fields
attempt_evidence traces tool_arguments validation = do
  records ← v4_records (traces.decider ++ traces.embedding_provider)
  ok (
      field "model_calls" (arr (with_role "memory_decision" records)) (
        field "embedding_calls" (arr (with_role "embedding" records)) (
          field "tool_arguments" (dict_or_null tool_arguments)
            (field "validation" (arr (array validation)) end))))

abbrev pub append_item : Json → Json → Json
append_item (arr js) j = arr (array (items js ++ j ∷ []))
append_item _ j = arr (cons j nil)

-- `_append_provider_error_evidence`
unfoldable pub append_provider_error_evidence :
    Fields → ProviderError → String → String → Result Raised Fields
append_provider_error_evidence evidence error role purpose =
    let is_live = str_eq error.provider_name "qwen-cloud" in
    let target = if str_eq role "embedding" then "embedding_calls" else "model_calls" in
    do
      trace ← to_v4_record (record {
        provider_name = error.provider_name;
        model_id = error.model_id;
        provider_role = role;
        request_purpose = purpose;
        input_item_count = pos 1;
        input_token_estimate = pos 0;
        output_item_count = pos 0;
        latency_ms = int (pos 0);
        is_live = is_live;
        deterministic_fallback_status = if is_live then "live_qwen" else "fake_provider_error";
        request_id = error.request_id;
        usage = error.usage;
      })
      ok (set_field target (append_item (get target evidence) (obj trace)) evidence)

abbrev pub calls_of : Json → List Json
calls_of (arr js) = items js
calls_of _ = []

-- `_evidence_has_request_id`
unfoldable pub evidence_has_request_id : Fields → Bool
evidence_has_request_id evidence =
    any has_request_id
      (calls_of (get "model_calls" evidence) ++ calls_of (get "embedding_calls" evidence))

-- `_evidence_was_repaired`
unfoldable pub evidence_was_repaired : Fields → Bool
evidence_was_repaired evidence = has_repair (get "validation" evidence)

abbrev pub allowed_codes : List String
allowed_codes =
    "provider_timeout" ∷ "provider_rate_limit" ∷ "provider_server_error" ∷ "provider_network_error"
    ∷ "provider_http_response_unparseable" ∷ "model_output_unparseable_after_repair"
    ∷ "provider_operator_action_required" ∷ []

-- `_provider_observe_error`
unfoldable pub provider_observe_error : ProviderError → String
provider_observe_error error =
    if member error.code allowed_codes
    then error.code
    else if error.retryable
    then "provider_network_error"
    else "provider_operator_action_required"

-- `_sqlite_error_code`
unfoldable pub sqlite_error_code : String → String
sqlite_error_code message =
    let text = lower (codes message) in
    if occurs (codes "locked") text || occurs (codes "busy") text
    then "sqlite_busy"
    else "sqlite_io_error"
