-- ===== src/Normalize/Tests.antt =====
-- Runs of the validation in src/recallpack/observe.py.
use recallpack.Base.{none, some, [], ◌∷◌, ◌≡◌, refl, ok, err, str_eq, any, all, find, keep}
use recallpack.Json.{pos, Json, null, str, int, arr, obj, nil, cons, Fields, field, end}
use recallpack.Memory.{MemoryRecord, ObserveRequest, NormalMemory}
use recallpack.Match.{
  is_word_code, lower_code, lower, split_words, join_words, normalize_text_for_match, has_all,
  same_retry_policy, dependency_restriction, meaning_equivalent,
}
use recallpack.Normalize.Parts.{
  NormalizedOperation, terminal_no_op, candidate_at, valid_index_array, normalize_no_op,
  normalize_duplicate,
}
use recallpack.Normalize.Validate.{
  expected_component, subject_component_mismatch, not_in, check_scope, check_memory, check_texts,
  normalize_memory,
}
use recallpack.Normalize.Supersede.{
  same_memory_key, supersession_error, first_supersession_error, validate_supersession,
  first_equivalent, equivalent_active_candidate, candidates_at,
}
use recallpack.Normalize.Decide.{
  write_result, write_memory, write_parts, normalize_write, normalize_operation, operation_errors,
  normalize_operation_with_errors,
}
use recallpack.Normalize.Authority.{IsAuthorized, normalize_memory-IsAuthorized}
use recallpack.Normalize.Written.{IsWrite, normalize_operation-IsWrite}
use recallpack.Normalize.Raises.{raises, raises_on, normalize_memory-raises}

program : Unit {0}
unfolding is_word_code lower_code lower split_words join_words normalize_text_for_match has_all
    same_retry_policy dependency_restriction meaning_equivalent terminal_no_op candidate_at
    valid_index_array normalize_no_op normalize_duplicate expected_component
    subject_component_mismatch not_in check_scope check_memory check_texts normalize_memory
    same_memory_key supersession_error first_supersession_error validate_supersession
    first_equivalent equivalent_active_candidate candidates_at write_result write_memory write_parts
    normalize_write normalize_operation operation_errors normalize_operation_with_errors str_eq any
    all find keep
program = tt

abbrev request : ObserveRequest
request = record {
  project_id = "p";
  session_id = "s";
  event_id = "x";
  sequence_no = 2;
  actor = "user";
  kind = "message";
  observed_at = "t0";
  text = "retry five times";
}

abbrev prior : MemoryRecord
prior = record {
  id = "m1";
  project_id = "p";
  type = "decision";
  subject = "retry_policy";
  text = "never retry";
  scope_level = "component";
  component = some "retry";
  source_actor = "user";
  source_ref = record { session_id = "s"; event_id = "w" };
  source_project_event_seq = 1;
  embedding = null;
  embedding_model = none;
  embedding_dimension = none;
  embedding_document_hash = none;
  record_schema_version = none;
  source_event_internal_id = none;
}

abbrev memory_fields : Json → Fields
memory_fields component = field "type" (str "decision") (
    field "subject" (str "retry_policy") (
      field "text" (str "retry five times")
        (field "scope_level" (str "component") (field "component" component end))))

abbrev policy : NormalMemory
policy = record {
  type = "decision";
  subject = "retry_policy";
  text = "retry five times";
  scope_level = "component";
  component = some "retry";
}

abbrev operation : Fields
operation = field "operation" (str "write") (
    field "memory" (obj (memory_fields (str "retry"))) (
      field "duplicate_of_candidate_index" null (
        field "supersedes_candidate_indexes" (arr (cons (int (pos 0)) nil))
          (field "reason" (str "a new rule") end))))

abbrev result : NormalizedOperation
result = elim (normalize_operation (obj operation) request 2 (prior ∷ []) ("retry" ∷ [])) [
  | ok n ↦ n
  | err e ↦ terminal_no_op ""
]

result_supersedes : result.supersedes_memory_ids ≡ "m1" ∷ []
unfolding program
result_supersedes = refl

normalize_operation-IsWrite_example : IsWrite request 2 (prior ∷ []) ("retry" ∷ []) result policy
unfolding program
normalize_operation-IsWrite_example =
    normalize_operation-IsWrite request 2 (prior ∷ []) ("retry" ∷ []) result policy refl
      (obj operation) refl

normalize_memory-IsAuthorized_example : IsAuthorized ("retry" ∷ []) "user" policy
unfolding program
normalize_memory-IsAuthorized_example =
    normalize_memory-IsAuthorized (memory_fields (str "retry")) request ("retry" ∷ []) policy refl

-- A list in place of the component.
normalize_memory-raises_example :
    raises (normalize_memory (memory_fields (arr nil)) request ("retry" ∷ []))
    ≡ raises_on (memory_fields (arr nil))
normalize_memory-raises_example =
    normalize_memory-raises (memory_fields (arr nil)) request ("retry" ∷ [])
