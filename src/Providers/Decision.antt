-- ===== src/Providers/Decision.antt =====
-- How an answer of the live provider of src/recallpack/providers.py reaches the runtime: the reading of the
-- message in `QwenMemoryDecisionProvider`, and `ProviderMemoryDecider`.
use recallpack.Base.{
  ℕ, String, Bool, true, false, ◌&&◌, ◌||◌, Option, List, [], ◌∷◌, length, leb, all, ◌==◌, str_eq,
  if◌then◌else◌, Result, ok, err,
}
use recallpack.Json.{Json, obj, Fields}
use recallpack.Match.{codes}
use recallpack.Store.Fail.{is_lower, is_digit}
use recallpack.Observe.Trace.{Raised, value_error, provider_error, retryable_error, terminal_error}
use recallpack.Providers.Arguments.{Texts, parse_memory_decision_message}

-- The error of an answer that is not readable: `ProviderError.retryable`.
abbrev pub unreadable : String → String → String → Option String → Fields → Raised
unreadable provider_name model_id message request_id usage = provider_error (record {
  provider_name = provider_name;
  model_id = model_id;
  message = message;
  retryable = true;
  request_id = request_id;
  usage = usage;
  code = "model_output_unparseable";
})

-- The two `except` clauses around the reading of the message.
abbrev pub wrap_unreadable :
    String → Option String → Fields → Result Raised Fields → Result Raised Fields
wrap_unreadable model_id request_id usage (err (provider_error e)) =
    err (unreadable e.provider_name model_id e.message request_id usage)
wrap_unreadable model_id request_id usage (err (value_error m)) = err (
    unreadable "qwen-cloud" model_id "Qwen memory decision arguments did not contain valid JSON."
      request_id usage)
wrap_unreadable model_id request_id usage r = r

-- The tool arguments of the message of an answer.
unfoldable pub read_decision :
    Texts → String → String → Option String → Fields → Fields → Result Raised Fields
read_decision texts tool_name model_id request_id usage message =
    wrap_unreadable model_id request_id usage
      (parse_memory_decision_message texts message tool_name model_id)

-- `[a-z][a-z0-9_]{0,63}`
unfoldable pub is_code : List ℕ → Bool
is_code [] = false
is_code (c ∷ cs) =
    is_lower c && all (λ d. is_lower d || is_digit d || d == 95) cs && leb (length cs) 63

-- The code that `RetryableObserveError` keeps.
unfoldable pub retryable_code : String → String → String
retryable_code message code =
    if str_eq code ""
    then (if is_code (codes message) then message else "provider_network_error")
    else code

-- `decide_memory_operation` and `repair_memory_operation` of `ProviderMemoryDecider`, of what the provider
-- returns or raises.
unfoldable pub decider_outcome : Result Raised Fields → Result Raised Json
decider_outcome (ok arguments) = ok (obj arguments)
decider_outcome (err (provider_error e)) =
    if e.retryable
    then err (retryable_error (retryable_code e.message e.code) e.message)
    else err (terminal_error "provider_operator_action_required" e.message)
decider_outcome (err e) = err e
