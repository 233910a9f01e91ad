-- ===== src/Store/Complete.antt =====
-- How src/recallpack/storage.py completes an attempt: `complete_event` and
-- `complete_observe_operation`. An argument that is None is refused first.
use recallpack.Base.{
  ℕ, ◌+◌, String, Bool, true, false, not, Option, none, some, List, ◌∷◌, any, ◌==◌, str_eq, is_some,
  if◌then◌else◌, Result, ok, err,
}
use recallpack.Json.{arr, obj, Fields, get, is_text, set_field, texts}
use recallpack.Memory.{MemoryRecord, NormalMemory}
use recallpack.Library.{Library}
use recallpack.Embedding.{Embedding, valid_embedding_payload}
use recallpack.Store.Rows.{
  completed, Event, RunState, succeeded, semantic_no_op, Cursor, Store, Draw,
}
use recallpack.Store.Query.{
  update_where, rowcount, is_cursor_of, is_owned, pending_event_for_attempt,
  has_newer_active_lifecycle_memory,
}
use recallpack.Store.Results.{valid_v4_final_result, terminal_no_op_result, memory_summary}
use recallpack.Store.Runs.{finish_run}
use recallpack.Store.Answer.{StoreError, invalid_document_embedding}
use recallpack.Store.Supersede.{supersession_validation_error, insert_supersession_edges}

-- The attempt that the caller names: event, lease token and number, each of which may be None.
pub record Attempt : Type 0 where
  pub event_internal_id : Option String
  pub lease_token : Option String
  pub attempt_no : Option ℕ

unfoldable pub completed_row : Fields → Event → Event
completed_row final_result e = record e {
  processing_state = completed;
  final_result_json = some (obj final_result);
  lease_token = none;
  lease_expires_at = none;
  last_error = none;
  result_schema_version = some 4;
}

abbrev pub advance_to : ℕ → Cursor → Cursor
advance_to n c = record c { next_expected_sequence_no = n }

-- The UPDATE of session_cursors behind an event that is done with.
unfoldable pub advance_cursor : Event → List Cursor → List Cursor
advance_cursor event cursors =
    update_where (is_cursor_of event.project_id event.session_id)
      (advance_to (event.sequence_no + 1)) cursors

abbrev pub run_state_of : Fields → RunState
run_state_of final_result =
    if is_text (get "operation" final_result) "write" then succeeded else semantic_no_op

-- `_complete_pending_event`; none is its `return False`.
unfoldable pub complete_pending_event :
    Library → Store → Event → String → String → ℕ → Fields → Option Fields → String → Option Store
complete_pending_event lib s event event_internal_id lease_token attempt_no final_result
      run_evidence utc_now =
    if not (valid_v4_final_result (some (obj final_result)))
    then none
    else if rowcount (is_owned event_internal_id lease_token attempt_no) s.events == 1
    then elim (finish_run lib
        (record s {
          events =
              update_where (is_owned event_internal_id lease_token attempt_no)
                (completed_row final_result) s.events;
        })
        event_internal_id attempt_no (run_state_of final_result) run_evidence none none utc_now) [
          | none ↦ none
          | some s' ↦ some (record s' { cursors = advance_cursor event s'.cursors })
        ]
    else none

-- `complete_event` of an attempt that is named in full.
unfoldable pub complete_attempt :
    Library → String → String → ℕ → Fields → Option Fields → String → Store → Bool × Store
complete_attempt lib event_internal_id lease_token attempt_no final_result run_evidence utc_now s =
    if not (valid_v4_final_result (some (obj final_result)))
    then (false, s)
    else elim (pending_event_for_attempt s event_internal_id lease_token attempt_no) [
      | none ↦ (false, s)
      | some event ↦
          elim (complete_pending_event lib s event event_internal_id lease_token attempt_no
            final_result run_evidence utc_now) [ none ↦ (false, s) | some s' ↦ (true, s') ]
    ]

-- An operation on an attempt, where all three arguments are given; else its refusal.
unfoldable pub with_attempt {ℓ} : {A : Type ℓ} → Attempt → A → (String → String → ℕ → A) → A
with_attempt attempt refusal act = elim attempt.event_internal_id [
  | none ↦ refusal
  | some event_internal_id ↦ elim attempt.lease_token [
    | none ↦ refusal
    | some lease_token ↦ elim attempt.attempt_no [
      | none ↦ refusal
      | some attempt_no ↦ act event_internal_id lease_token attempt_no
    ]
  ]
]

unfoldable pub complete_event :
    Library → Attempt → Fields → Option Fields → String → Store → Bool × Store
complete_event lib attempt final_result run_evidence utc_now s =
    with_attempt attempt (false, s)
      (λ i l n. complete_attempt lib i l n final_result run_evidence utc_now s)

unfoldable pub owns_event_attempt : Store → Attempt → Bool
owns_event_attempt s attempt =
    with_attempt attempt false (λ i l n. is_some (pending_event_for_attempt s i l n))

-- The row of `_insert_memory`.
unfoldable pub memory_row : Event → NormalMemory → Embedding → String → MemoryRecord
memory_row event memory embedding memory_id = record {
  id = memory_id;
  project_id = event.project_id;
  type = memory.type;
  subject = memory.subject;
  text = memory.text;
  scope_level = memory.scope_level;
  component = memory.component;
  source_actor = event.actor;
  source_ref = record { session_id = event.session_id; event_id = event.external_event_id };
  source_project_event_seq = event.project_event_seq;
  embedding = embedding.vector;
  embedding_model = some embedding.model;
  embedding_dimension = some embedding.dimension;
  embedding_document_hash = some embedding.document_hash;
  record_schema_version = some embedding.record_schema_version;
  source_event_internal_id = some event.internal_id;
}

-- The primary key of memories; the foreign key names the event that was just read.
unfoldable pub insert_memory : Store → MemoryRecord → Option Store
insert_memory s m =
    if any (λ x. str_eq x.id m.id) s.memories
    then none
    else some (record s { memories = m ∷ s.memories })

-- A result without a memory, stored in place of the operation.
unfoldable pub complete_without_memory :
    Library
    → Store
    → Event
    → String
    → String
    → ℕ
    → String
    → Option Fields
    → String
    → Result StoreError (Option Fields) × Store
complete_without_memory lib s event event_internal_id lease_token attempt_no reason run_evidence
      utc_now =
    elim (complete_pending_event lib s event event_internal_id lease_token attempt_no
      (terminal_no_op_result reason) run_evidence utc_now) [
        | none ↦ (ok none, s)
        | some s' ↦ (ok (some (terminal_no_op_result reason)), s')
      ]

abbrev pub stored_result : Fields → String → NormalMemory → Event → List String → Fields
stored_result final_result memory_id memory event supersedes =
    set_field "superseded_memory_ids" (arr (texts supersedes)) (
      set_field "memory"
        (obj (memory_summary memory_id memory event.session_id event.external_event_id))
        final_result)

-- The `try` block of `complete_observe_operation`: memory, edges, result. An invalid embedding is a
-- ValueError, which leaves the block.
unfoldable pub commit_memory :
    Library
    → Store
    → Event
    → String
    → String
    → ℕ
    → Fields
    → NormalMemory
    → List String
    → Embedding
    → Option Fields
    → Draw
    → Result StoreError (Option Fields) × Store
commit_memory lib s event event_internal_id lease_token attempt_no final_result memory supersedes
      embedding run_evidence draw =
    let row = memory_row event memory embedding draw.memory_id in
    let result = stored_result final_result draw.memory_id memory event supersedes in
    if not (valid_embedding_payload lib memory embedding)
    then (err invalid_document_embedding, s)
    else elim (insert_memory s row) [
      | none ↦ (ok none, s)
      | some s₁ ↦ elim (insert_supersession_edges s₁ supersedes draw.memory_id event.internal_id) [
        | none ↦ (ok none, s)
        | some s₂ ↦
            elim (complete_pending_event lib s₂ event event_internal_id lease_token attempt_no
              result run_evidence draw.utc_now) [
                | none ↦ (ok none, s)
                | some s₃ ↦ (ok (some result), s₃)
              ]
      ]
    ]

-- `complete_observe_operation` of an owned event, from the check for newer memories on.
unfoldable pub complete_owned :
    Library
    → Store
    → Event
    → String
    → String
    → ℕ
    → Fields
    → NormalMemory
    → List String
    → Embedding
    → Option Fields
    → Draw
    → Result StoreError (Option Fields) × Store
complete_owned lib s event event_internal_id lease_token attempt_no final_result memory supersedes
      embedding run_evidence draw =
    if has_newer_active_lifecycle_memory s event.project_id event.project_event_seq memory
    then complete_without_memory lib s event event_internal_id lease_token attempt_no
        "stale_project_event" run_evidence draw.utc_now
    else elim (supersession_validation_error s event memory supersedes) [
      | some e ↦
          complete_without_memory lib s event event_internal_id lease_token attempt_no e
            run_evidence draw.utc_now
      | none ↦
          commit_memory lib s event event_internal_id lease_token attempt_no final_result memory
            supersedes embedding run_evidence draw
    ]

unfoldable pub complete_operation :
    Library
    → String
    → String
    → ℕ
    → Fields
    → NormalMemory
    → List String
    → Embedding
    → Option Fields
    → Draw
    → Store
    → Result StoreError (Option Fields) × Store
complete_operation lib event_internal_id lease_token attempt_no final_result memory supersedes
      embedding run_evidence draw s =
    elim (pending_event_for_attempt s event_internal_id lease_token attempt_no) [
      | none ↦ (ok none, s)
      | some event ↦
          complete_owned lib s event event_internal_id lease_token attempt_no final_result memory
            supersedes embedding run_evidence draw
    ]

unfoldable pub complete_observe_operation :
    Library
    → Attempt
    → Fields
    → NormalMemory
    → List String
    → Embedding
    → Option Fields
    → Draw
    → Store
    → Result StoreError (Option Fields) × Store
complete_observe_operation lib attempt final_result memory supersedes embedding run_evidence draw
      s =
    with_attempt attempt (ok none, s)
      (λ i l n.
        complete_operation lib i l n final_result memory supersedes embedding run_evidence draw s)
