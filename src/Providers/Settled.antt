-- ===== src/Providers/Settled.antt =====
-- What src/recallpack/providers.py makes of any message of the model.
use recallpack.Base.{
  String, Bool, true, false, Option, ◌≡◌, ◌⊎◌, refl, inl, inr, arith, str_eq, Result, ok, err,
  ◌>>=◌, Option-cases,
}
use recallpack.Json.{Json, null, bool, int, float, str, arr, obj, Items, nil, cons, Fields, get}
use recallpack.Observe.Trace.{
  Raised, value_error, provider_error, retryable_error, terminal_error, sqlite_error, other_error,
  get_or,
}
use recallpack.Providers.Arguments.{
  Texts, terminal_failure, normalize_memory_argument, normalize_optional_index, normalize_items,
  normalize_index_list, normalize_memory_decision_arguments, parse_json_object, tool_arguments,
  arguments_from, parse_memory_decision_message,
}
use recallpack.Providers.Decision.{wrap_unreadable, read_decision, retryable_code, decider_outcome}

-- The errors that the provider catches.
abbrev is_caught : Raised → Bool
is_caught (provider_error e) = true
is_caught (value_error m) = true
is_caught _ = false

abbrev only_caught : {A : Type 0} → Result Raised A → Bool
only_caught (ok value) = true
only_caught (err e) = is_caught e

caught->>= :
    {A B : Type 0} (r : Result Raised A) (next : A → Result Raised B)
    → only_caught r ≡ true
    → ((value : A) → only_caught (next value) ≡ true)
    → only_caught (r >>= next) ≡ true
caught->>= (ok value) next h k = k value
caught->>= (err e) next h k = h

memory_argument-caught :
    (texts : Texts) (model_id : String) (j : Json)
    → only_caught (normalize_memory_argument texts model_id j) ≡ true
unfolding normalize_memory_argument
memory_argument-caught texts model_id (str value) = ground arith
memory_argument-caught texts model_id null = refl
memory_argument-caught texts model_id (bool b) = refl
memory_argument-caught texts model_id (int i) = refl
memory_argument-caught texts model_id (float b) = refl
memory_argument-caught texts model_id (arr js) = refl
memory_argument-caught texts model_id (obj fs) = refl

optional_index-caught :
    (texts : Texts) (j : Json) → only_caught (normalize_optional_index texts j) ≡ true
unfolding normalize_optional_index
optional_index-caught texts (str value) = ground arith
optional_index-caught texts null = refl
optional_index-caught texts (bool b) = refl
optional_index-caught texts (int i) = refl
optional_index-caught texts (float b) = refl
optional_index-caught texts (arr js) = refl
optional_index-caught texts (obj fs) = refl

items-caught : (texts : Texts) (js : Items) → only_caught (normalize_items texts js) ≡ true
items-caught texts nil = refl
items-caught texts (cons j js) =
    caught->>= (normalize_optional_index texts j) _ (optional_index-caught texts j)
      (λ index. caught->>= (normalize_items texts js) _ (items-caught texts js) (λ rest. refl))

index_list-caught : (texts : Texts) (j : Json) → only_caught (normalize_index_list texts j) ≡ true
unfolding normalize_index_list
index_list-caught texts (arr js) =
    caught->>= (normalize_items texts js) _ (items-caught texts js) (λ indexes. refl)
index_list-caught texts (str value) = refl
index_list-caught texts null = refl
index_list-caught texts (bool b) = refl
index_list-caught texts (int i) = refl
index_list-caught texts (float b) = refl
index_list-caught texts (obj fs) = refl

arguments-caught :
    (texts : Texts) (model_id : String) (arguments : Fields)
    → only_caught (normalize_memory_decision_arguments texts model_id arguments) ≡ true
unfolding normalize_memory_decision_arguments
arguments-caught texts model_id arguments =
    caught->>= (normalize_memory_argument texts model_id (get "memory" arguments)) _
      (memory_argument-caught texts model_id (get "memory" arguments))
      (λ memory.
        caught->>= (normalize_optional_index texts (get "duplicate_of_candidate_index" arguments)) _
          (optional_index-caught texts (get "duplicate_of_candidate_index" arguments))
          (λ index.
            caught->>=
              (normalize_index_list texts
                (get_or "supersedes_candidate_indexes" (arr nil) arguments))
              _
              (index_list-caught texts (get_or "supersedes_candidate_indexes" (arr nil) arguments))
              (λ indexes. refl)))

parse_json_object-caught :
    (texts : Texts) (content : String) → only_caught (parse_json_object texts content) ≡ true
unfolding parse_json_object
parse_json_object-caught texts content = ground arith

arguments_from-caught : (texts : Texts) (j : Json) → only_caught (arguments_from texts j) ≡ true
arguments_from-caught texts (obj fs) = refl
arguments_from-caught texts (str content) = parse_json_object-caught texts content
arguments_from-caught texts null = refl
arguments_from-caught texts (bool b) = refl
arguments_from-caught texts (int i) = refl
arguments_from-caught texts (float b) = refl
arguments_from-caught texts (arr js) = refl

message-caught :
    (texts : Texts) (message : Fields) (tool_name model_id : String)
    → only_caught (parse_memory_decision_message texts message tool_name model_id) ≡ true
unfolding parse_memory_decision_message
message-caught texts message tool_name model_id =
    elim (Option-cases (tool_arguments tool_name (get "tool_calls" message))) [
      | inr (arguments, there) ↦
          rw (there, parse_memory_decision_message)
            (caught->>= (arguments_from texts arguments) _ (arguments_from-caught texts arguments)
              (arguments-caught texts model_id))
      | inl absent ↦
          rw (absent, parse_memory_decision_message)
            (content-caught (get_or "content" (str "{}") message))
    ]
  where
    content-caught :
        (content : Json)
        → only_caught (elim content [
          | str text ↦
              parse_json_object texts text >>= normalize_memory_decision_arguments texts model_id
          | _ ↦ err (
              terminal_failure model_id
                "Qwen memory decision response did not include tool arguments or JSON content.")
        ])
          ≡ true
    content-caught (str text) =
        caught->>= (parse_json_object texts text) _ (parse_json_object-caught texts text)
          (arguments-caught texts model_id)
    content-caught null = refl
    content-caught (bool b) = refl
    content-caught (int i) = refl
    content-caught (float b) = refl
    content-caught (arr js) = refl
    content-caught (obj fs) = refl

wrapped_outcome :
    (model_id : String) (request_id : Option String) (usage : Fields) (r : Result Raised Fields)
    → only_caught r ≡ true
    → ((arguments : Fields) × (r ≡ ok arguments)
        × (decider_outcome (wrap_unreadable model_id request_id usage r) ≡ ok (obj arguments)))
      ⊎ ((message : String) × (decider_outcome (wrap_unreadable model_id request_id usage r)
            ≡ err (retryable_error "model_output_unparseable" message)))
unfolding decider_outcome retryable_code str_eq
wrapped_outcome model_id request_id usage (ok arguments) h = inl (arguments, refl, refl)
wrapped_outcome model_id request_id usage (err (provider_error e)) h = inr (e.message, refl)
wrapped_outcome model_id request_id usage (err (value_error m)) h =
    inr ("Qwen memory decision arguments did not contain valid JSON.", refl)
wrapped_outcome model_id request_id usage (err (retryable_error c m)) h = absurd (ground arith)
wrapped_outcome model_id request_id usage (err (terminal_error c m)) h = absurd (ground arith)
wrapped_outcome model_id request_id usage (err (sqlite_error m)) h = absurd (ground arith)
wrapped_outcome model_id request_id usage (err other_error) h = absurd (ground arith)

-- Whatever message the live model answers with, the decider gives the runtime the arguments that were read from
-- it, or raises the retryable error that the runtime repairs, and raises nothing else.
pub read_decision-outcome :
    (texts : Texts) (tool_name model_id : String) (request_id : Option String)
    (usage message : Fields)
    → ((arguments : Fields) × (parse_memory_decision_message texts message tool_name model_id
          ≡ ok arguments)
        × (decider_outcome (read_decision texts tool_name model_id request_id usage message)
            ≡ ok (obj arguments)))
      ⊎ ((text : String) × (decider_outcome
              (read_decision texts tool_name model_id request_id usage message)
            ≡ err (retryable_error "model_output_unparseable" text)))
unfolding read_decision
read_decision-outcome texts tool_name model_id request_id usage message =
    wrapped_outcome model_id request_id usage
      (parse_memory_decision_message texts message tool_name model_id)
      (message-caught texts message tool_name model_id)
