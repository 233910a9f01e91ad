-- ===== src/Normalize/Decide.antt =====
-- `_normalize_operation` of src/recallpack/observe.py and the errors that it reports. The
-- operation is any JSON value.
use recallpack.Normalize.Parts.{
  NormalizedOperation, final_result, terminal_no_op, valid_index_array, normalize_no_op,
  normalize_duplicate, duplicate_of,
}
use recallpack.Normalize.Validate.{PyError, normalize_memory}
use recallpack.Normalize.Supersede.{
  validate_supersession, equivalent_active_candidate, candidates_at,
}
use recallpack.Base.{
  Option, ℕ, String, Bool, true, false, not, ◌&&◌, ◌||◌, none, some, List, [], ◌∷◌, map,
  is_nonempty, str_eq, if◌then◌else◌, Result, ok, err, ◌>>=◌,
}
use recallpack.Json.{
  ℤ, Json, str, arr, obj, Fields, end, field, texts, get, set_field, has_key, keys_are, is_null,
  is_text, or_null,
}
use recallpack.Memory.{MemoryRecord, ObserveRequest, NormalMemory}

-- A memory as the dictionary that `_normalize_memory` builds.
abbrev pub memory_json : NormalMemory → Json
memory_json m = obj (
    field "type" (str m.type) (
      field "subject" (str m.subject) (
        field "text" (str m.text)
          (field "scope_level" (str m.scope_level) (field "component" (or_null m.component) end)))))

abbrev pub ids : List MemoryRecord → List String
ids priors = map (λ p. p.id) priors

-- The end of `_normalize_write`, with a memory that passed and the priors that it names.
unfoldable pub write_result :
    String
    → NormalMemory
    → List MemoryRecord
    → ObserveRequest
    → ℕ
    → List MemoryRecord
    → NormalizedOperation
write_result reason memory priors request seq candidates =
    elim (equivalent_active_candidate memory candidates) [
      | some candidate ↦ duplicate_of "equivalent_active_memory" candidate
      | none ↦
          elim (if is_nonempty priors
            then validate_supersession memory request seq priors
            else none) [
              | some e ↦ terminal_no_op e
              | none ↦ record {
                final_result =
                    set_field "superseded_memory_ids" (arr (texts (ids priors)))
                      (set_field "memory" (memory_json memory) (final_result "write" reason));
                memory = some memory;
                supersedes_memory_ids = ids priors;
              }
            ]
    ]

-- From `_normalize_memory` on.
unfoldable pub write_memory :
    Fields
    → String
    → List MemoryRecord
    → ObserveRequest
    → ℕ
    → List MemoryRecord
    → List String
    → Result PyError NormalizedOperation
write_memory memory reason priors request seq candidates components = do
  validation ← normalize_memory memory request components
  ok (elim validation [
    | err e ↦ terminal_no_op e
    | ok normal ↦ write_result reason normal priors request seq candidates
  ])

-- The values of memory, reason, the superseded indexes and the duplicate index.
unfoldable pub write_parts :
    Json
    → Json
    → Option (List ℤ)
    → Json
    → ObserveRequest
    → ℕ
    → List MemoryRecord
    → List String
    → Result PyError NormalizedOperation
write_parts (obj memory) (str reason) (some indexes) duplicate request seq candidates components =
    if not (is_null duplicate)
    then ok (terminal_no_op "invalid_tool_output")
    else elim (candidates_at indexes candidates) [
      | none ↦ ok (terminal_no_op "candidate_index_out_of_range")
      | some priors ↦ write_memory memory reason priors request seq candidates components
    ]
write_parts _ _ _ duplicate request seq candidates components =
    ok (terminal_no_op "invalid_tool_output")

-- `_normalize_write`
unfoldable pub normalize_write :
    Fields
    → ObserveRequest
    → ℕ
    → List MemoryRecord
    → List String
    → Result PyError NormalizedOperation
normalize_write operation request seq candidates components =
    write_parts (get "memory" operation) (get "reason" operation)
      (valid_index_array (get "supersedes_candidate_indexes" operation))
      (get "duplicate_of_candidate_index" operation) request seq candidates components

-- `_normalize_operation`
unfoldable pub normalize_operation :
    Json → ObserveRequest → ℕ → List MemoryRecord → List String → Result PyError NormalizedOperation
normalize_operation (obj operation) request seq candidates components =
    if has_key "memories" operation
    then ok (terminal_no_op "invalid_tool_output")
    else if is_text (get "operation" operation) "no_op"
    then ok (normalize_no_op operation)
    else if is_text (get "operation" operation) "duplicate"
    then ok (normalize_duplicate operation candidates)
    else if is_text (get "operation" operation) "write"
    then normalize_write operation request seq candidates components
    else ok (terminal_no_op "invalid_tool_output")
normalize_operation _ request seq candidates components = ok (terminal_no_op "invalid_tool_output")

abbrev pub operation_keys : List String
operation_keys =
    "operation" ∷ "memory" ∷ "duplicate_of_candidate_index" ∷ "supersedes_candidate_indexes"
    ∷ "reason" ∷ []

abbrev pub reason_of : Json → String
reason_of (str reason) = reason
reason_of _ = "invalid_tool_output"

-- `normalized.final_result.get("reason") == operation.get("reason")`: the left side is a text.
abbrev pub same_text : Json → Json → Bool
same_text (str a) (str b) = str_eq a b
same_text _ _ = false

-- Whether the operation that was asked for came out, as the chain of `if` and `elif` tests it.
unfoldable pub accepted : Fields → Fields → Bool
accepted operation result =
    let requested = get "operation" operation in
    let normalized = get "operation" result in
    if is_text requested "no_op" && is_text normalized "no_op"
    then same_text (get "reason" result) (get "reason" operation)
    else if is_text requested "duplicate" && is_text normalized "duplicate"
    then true
    else is_text requested "write" && (is_text normalized "write" || is_text normalized "duplicate")

-- The errors that `_normalize_operation_with_errors` returns beside the operation.
unfoldable pub operation_errors : Json → NormalizedOperation → List String
operation_errors (obj operation) normalized =
    if keys_are operation_keys operation
    then (if accepted operation normalized.final_result
        then []
        else reason_of (get "reason" normalized.final_result) ∷ [])
    else "invalid_tool_output" ∷ []
operation_errors _ normalized = "invalid_tool_output" ∷ []

-- `_normalize_operation_with_errors`
unfoldable pub normalize_operation_with_errors :
    Json
    → ObserveRequest
    → ℕ
    → List MemoryRecord
    → List String
    → Result PyError (NormalizedOperation × List String)
normalize_operation_with_errors operation request seq candidates components = do
  normalized ← normalize_operation operation request seq candidates components
  ok (normalized, operation_errors operation normalized)
