-- ===== src/Observe/Trace.antt =====
-- The traces and errors of src/recallpack/providers.py, and the record of a trace that runs keep.
use recallpack.Base.{
  ℕ, ◌+◌, String, Bool, true, false, not, ◌||◌, Option, is_some, if◌then◌else◌, Result, ok, err,
  ◌>>=◌,
}
use recallpack.Json.{ℤ, pos, Json, bool, int, str, obj, Fields, end, field, get, has_key, or_null}

pub record ProviderError : Type 0 where
  pub provider_name : String
  pub model_id : String
  pub message : String
  pub retryable : Bool
  pub request_id : Option String
  pub usage : Fields
  pub code : String

-- What a call of the runtime raises; `sqlite_error` has the message of a `sqlite3.Error`.
pub data Raised : Type 0 where
  value_error : String → Raised
  provider_error : ProviderError → Raised
  retryable_error : String → String → Raised
  terminal_error : String → String → Raised
  sqlite_error : String → Raised
  other_error : Raised

pub record ProviderTrace : Type 0 where
  pub provider_name : String
  pub model_id : String
  pub provider_role : String
  pub request_purpose : String
  pub input_item_count : ℤ
  pub input_token_estimate : ℤ
  pub output_item_count : ℤ
  pub latency_ms : Json
  pub is_live : Bool
  pub deterministic_fallback_status : String
  pub request_id : Option String
  pub usage : Fields

-- `_safe_latency_ms`
unfoldable pub safe_latency_ms : Json → Json
safe_latency_ms (int (pos n)) = int (pos n)
safe_latency_ms _ = int (pos 0)

-- `_nonnegative_token_count`
unfoldable pub nonnegative_token_count : Json → Result Raised ℕ
nonnegative_token_count (int (pos n)) = ok n
nonnegative_token_count _ = err (value_error "invalid_provider_token_usage")

-- `usage.get(key, default)`
abbrev pub get_or : String → Json → Fields → Json
get_or key fallback fs = if has_key key fs then get key fs else fallback

abbrev pub is_empty : Fields → Bool
is_empty end = true
is_empty (field k v fs) = false

abbrev pub token_usage : ℕ → ℕ → ℕ → Bool → Fields
token_usage input_tokens output_tokens total_tokens reported =
    field "input_tokens" (int (pos input_tokens)) (
      field "output_tokens" (int (pos output_tokens)) (
        field "total_tokens" (int (pos total_tokens))
          (field "reported_by_provider" (bool reported) end)))

-- `_normalized_token_usage`
unfoldable pub normalized_token_usage : Fields → Bool → Result Raised Fields
normalized_token_usage usage is_live =
    if not is_live || is_empty usage then ok (token_usage 0 0 0 false) else do
      input_tokens ←
          nonnegative_token_count
            (get_or "input_tokens" (get_or "prompt_tokens" (int (pos 0)) usage) usage)
      output_tokens ←
          nonnegative_token_count
            (get_or "output_tokens" (get_or "completion_tokens" (int (pos 0)) usage) usage)
      total_tokens ←
          nonnegative_token_count
            (get_or "total_tokens" (int (pos (input_tokens + output_tokens))) usage)
      ok (token_usage input_tokens output_tokens total_tokens true)

-- `to_sanitized_record`
unfoldable pub to_sanitized_record : ProviderTrace → Fields
to_sanitized_record t = field "provider_role" (str t.provider_role) (
    field "model_name" (str t.model_id) (
      field "request_purpose" (str t.request_purpose) (
        field "input_item_count" (int t.input_item_count) (
          field "input_token_estimate" (int t.input_token_estimate) (
            field "output_item_count" (int t.output_item_count) (
              field "latency_ms" (safe_latency_ms t.latency_ms) (
                field "is_live" (bool t.is_live) (
                  field "deterministic_fallback_status" (str t.deterministic_fallback_status) (
                    field "request_id_present" (bool (is_some t.request_id))
                      (field "request_id" (or_null t.request_id) end))))))))))

-- `to_v4_record`
unfoldable pub to_v4_record : ProviderTrace → Result Raised Fields
to_v4_record t = do
  usage ← normalized_token_usage t.usage t.is_live
  ok (
      field "role" (str t.provider_role) (
        field "provider_family" (str (if t.is_live then "qwen_cloud" else "deterministic_fake")) (
          field "model_name" (str t.model_id) (
            field "request_purpose" (str t.request_purpose) (
              field "input_item_count" (int t.input_item_count) (
                field "input_token_estimate" (int t.input_token_estimate) (
                  field "output_item_count" (int t.output_item_count) (
                    field "latency_ms" (safe_latency_ms t.latency_ms) (
                      field "live" (bool t.is_live) (
                        field "deterministic_fallback" (bool (not t.is_live)) (
                          field "request_id_present" (bool (is_some t.request_id))
                            (field "token_usage" (obj usage) end))))))))))))
