-- ===== src/Store/RowChecks.antt =====
-- The checks of single rows of src/recallpack/storage.py, with which a store is audited when it is opened.
use recallpack.Base.{
  ℕ, String, Bool, true, false, not, ◌&&◌, ◌||◌, Option, none, some, List, [], ◌∷◌, length, leb,
  ltb, any, all, keep, ◌==◌, str_eq, opt_str_eq, is_some,
}
use recallpack.Json.{Json, bool, int, pos, float, str, arr, obj, end, field, items, member}
use recallpack.Library.{Library, is_finite, is_nonzero, is_nonzero_int}
use recallpack.Match.{codes, begins}
use recallpack.Memory.{MemoryRecord}
use recallpack.Embedding.{embedding_model, embedding_dimension, document_for_memory, opt_eq}
use recallpack.Store.Rows.{
  pending, completed, failed, Event, running, succeeded, semantic_no_op, failed_retryable,
  lost_lease, Run, Relation, Store,
}
use recallpack.Store.Query.{is_retryable}
use recallpack.Store.Results.{valid_v4_final_result}
use recallpack.Store.Fail.{valid_failure_code}
use recallpack.Store.Audit.{audit_event_run_consistency}

abbrev pub is_nonempty_text : String → Bool
is_nonempty_text s = not (str_eq s "")

-- `_valid_internal_id`, with the prefix and its underscore.
unfoldable pub valid_internal_id : String → String → Bool
valid_internal_id value prefix =
    begins (codes value) (codes prefix) && ltb (length (codes prefix)) (length (codes value))

abbrev pub is_hex : ℕ → Bool
is_hex c = leb 48 c && leb c 57 || leb 97 c && leb c 102

-- `_valid_sha256`
unfoldable pub valid_sha256 : String → Bool
valid_sha256 value = length (codes value) == 64 && all is_hex (codes value)

abbrev pub ends_in_z : List ℕ → Bool
ends_in_z [] = false
ends_in_z (c ∷ []) = c == 90
ends_in_z (c ∷ d ∷ cs) = ends_in_z (d ∷ cs)

-- `_valid_utc_timestamp`; `reads_utc` says whether `datetime.fromisoformat` reads the text, its Z written as an
-- offset of zero, as a time with that offset.
unfoldable pub valid_utc_timestamp : (String → Bool) → String → Bool
valid_utc_timestamp reads_utc value =
    ends_in_z (codes value) && any (λ c. c == 84) (codes value) && reads_utc value

-- `_event_row_payload_hash`
unfoldable pub event_row_payload_hash : Library → Event → String
event_row_payload_hash lib e = lib.sha256_of_json (
    obj (
      field "actor" (str e.actor) (
        field "kind" (str e.kind) (
          field "observed_at" (str e.observed_at)
            (field "sequence_no" (int (pos e.sequence_no)) (field "text" (str e.text) end))))))

abbrev pub opt_nonempty : Option String → Bool
opt_nonempty none = false
opt_nonempty (some s) = is_nonempty_text s

-- The columns that go with the state of an event: the end of `_valid_v4_event_state`.
unfoldable pub valid_state_columns : Event → Bool
valid_state_columns e = elim e.processing_state [
  | pending ↦
      not (is_some e.failure_kind)
      && opt_nonempty e.lease_token
      && is_some e.lease_expires_at
      && not (is_some e.last_error)
      && not (is_some e.final_result_json)
  | completed ↦
      not (is_some e.failure_kind)
      && not (is_some e.lease_token)
      && not (is_some e.lease_expires_at)
      && not (is_some e.last_error)
      && valid_v4_final_result e.final_result_json
  | failed ↦
      is_retryable e.failure_kind
      && not (is_some e.lease_token)
      && not (is_some e.lease_expires_at)
      && opt_nonempty e.last_error
      && not (is_some e.final_result_json)
]

-- `_valid_v4_event_state`
unfoldable pub valid_v4_event_state : Library → (String → Bool) → Event → Bool
valid_v4_event_state lib reads_utc e =
    opt_eq e.result_schema_version 4
    && valid_internal_id e.internal_id "evt_"
    && is_nonempty_text e.project_id
    && is_nonempty_text e.session_id
    && is_nonempty_text e.external_event_id
    && member e.actor ("user" ∷ "assistant" ∷ "tool" ∷ [])
    && member e.kind ("message" ∷ "test_result" ∷ "command_result" ∷ [])
    && valid_utc_timestamp reads_utc e.observed_at
    && leb 1 (length (codes e.text))
    && leb (length (codes e.text)) 20000
    && valid_sha256 e.payload_hash
    && str_eq e.payload_hash (event_row_payload_hash lib e)
    && leb 1 e.sequence_no
    && leb 1 e.project_event_seq
    && leb 1 e.attempt_count
    && valid_state_columns e

abbrev pub is_collection : Json → Bool
is_collection (arr js) = true
is_collection (obj fs) = true
is_collection _ = false

abbrev pub opt_code : Option String → Bool
opt_code none = true
opt_code (some code) = valid_failure_code code

abbrev pub opt_short : Option String → Bool
opt_short none = true
opt_short (some detail) = leb (length (codes detail)) 1000

abbrev pub opt_utc : (String → Bool) → Option String → Bool
opt_utc reads_utc none = false
opt_utc reads_utc (some at) = valid_utc_timestamp reads_utc at

abbrev pub has_code : Option String → Bool
has_code none = false
has_code (some code) = valid_failure_code code

-- The columns of a run that has ended, with what its state asks for.
unfoldable pub valid_ended_columns : (String → Bool) → Run → Bool → Bool
valid_ended_columns reads_utc run asked =
    opt_utc reads_utc run.finished_at && is_some run.duration_ms && asked

-- The columns that go with the state of a run: the end of `_valid_v4_observe_run`.
unfoldable pub valid_run_columns : (String → Bool) → Run → Bool
valid_run_columns reads_utc run = elim run.state [
  | running ↦
      not (is_some run.finished_at)
      && not (is_some run.duration_ms)
      && not (is_some run.failure_code)
      && not (is_some run.error_detail)
  | lost_lease ↦
      valid_ended_columns reads_utc run (opt_str_eq run.failure_code (some "lease_expired"))
  | failed_retryable ↦ valid_ended_columns reads_utc run (has_code run.failure_code)
  | succeeded ↦
      valid_ended_columns reads_utc run
        (not (is_some run.failure_code) && not (is_some run.error_detail))
  | semantic_no_op ↦
      valid_ended_columns reads_utc run
        (not (is_some run.failure_code) && not (is_some run.error_detail))
]

-- `_valid_v4_observe_run`; the columns of JSON that are lists or dictionaries in the model pass their tests.
unfoldable pub valid_v4_observe_run : (String → Bool) → Run → Bool
valid_v4_observe_run reads_utc run =
    valid_internal_id run.id "run_"
    && valid_internal_id run.event_internal_id "evt_"
    && leb 1 run.attempt_no
    && member run.provider_mode ("fake" ∷ "live" ∷ [])
    && valid_utc_timestamp reads_utc run.started_at
    && is_collection run.validation
    && opt_code run.failure_code
    && opt_short run.error_detail
    && valid_run_columns reads_utc run

-- `isinstance(value, (int, float)) and math.isfinite(value)`: a bool is an int.
abbrev pub is_finite_number : Json → Bool
is_finite_number (int i) = true
is_finite_number (float bits) = is_finite bits
is_finite_number (bool b) = true
is_finite_number _ = false

abbrev pub is_nonzero_value : Json → Bool
is_nonzero_value (int i) = is_nonzero_int i
is_nonzero_value (float bits) = is_nonzero bits
is_nonzero_value (bool b) = b
is_nonzero_value _ = false

abbrev pub valid_stored_embedding : Json → Bool
valid_stored_embedding (arr js) =
    length (items js) == 1024 && all is_finite_number (items js) && any is_nonzero_value (items js)
valid_stored_embedding _ = false

abbrev pub valid_document_hash : Library → MemoryRecord → Option String → Bool
valid_document_hash lib m none = false
valid_document_hash lib m (some hash) =
    valid_sha256 hash && str_eq hash (lib.sha256_of_text (document_for_memory m))

-- `_valid_v4_memory_embedding`
unfoldable pub valid_v4_memory_embedding : Library → MemoryRecord → Bool
valid_v4_memory_embedding lib m =
    opt_eq m.record_schema_version 4
    && opt_str_eq m.embedding_model (some embedding_model)
    && opt_eq m.embedding_dimension embedding_dimension
    && valid_document_hash lib m m.embedding_document_hash
    && valid_stored_embedding m.embedding

-- The SELECT of relations by their prior memory: some memory is replaced twice.
abbrev pub has_duplicate_prior : List Relation → Bool
has_duplicate_prior [] = false
has_duplicate_prior (rel ∷ rels) =
    any (λ x. str_eq x.prior_memory_id rel.prior_memory_id) rels || has_duplicate_prior rels

-- `_audit_integrity`, behind the check of the foreign keys by the database.
unfoldable pub audit_integrity : Library → (String → Bool) → Bool → Store → Bool
audit_integrity lib reads_utc foreign_keys_hold s =
    let event_rows = keep (λ e. is_some e.result_schema_version) s.events in
    foreign_keys_hold
    && not (has_duplicate_prior s.relations)
    && all (valid_v4_event_state lib reads_utc) event_rows
    && all (valid_v4_observe_run reads_utc) s.runs
    && audit_event_run_consistency event_rows s.runs
    && all (valid_v4_memory_embedding lib) (keep (λ m. is_some m.record_schema_version) s.memories)
