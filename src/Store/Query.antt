-- ===== src/Store/Query.antt =====
-- The SELECT and UPDATE statements of src/recallpack/storage.py.
use Prim.Native.Nat.{Ordering}
use Prim.Native.String.{compare as compare_text}
use recallpack.Base.{
  ℕ, ◌+◌, String, Bool, true, false, not, ◌&&◌, ◌||◌, Option, none, some, List, [], ◌∷◌, find, any,
  keep, ltb, ◌==◌, max, str_eq, opt_str_eq, is_some, if◌then◌else◌,
}
use recallpack.Memory.{MemoryRecord, ObserveRequest, NormalMemory}
use recallpack.Store.Rows.{
  ProcessingState, pending, completed, failed, FailureKind, retryable, terminal, Event, Relation,
  RunState, running, Run, Cursor, Store,
}

abbrev pub is_pending : ProcessingState → Bool
is_pending pending = true
is_pending _ = false

abbrev pub is_completed : ProcessingState → Bool
is_completed completed = true
is_completed _ = false

abbrev pub is_failed : ProcessingState → Bool
is_failed failed = true
is_failed _ = false

abbrev pub is_retryable : Option FailureKind → Bool
is_retryable none = false
is_retryable (some retryable) = true
is_retryable (some terminal) = false

abbrev pub is_running : RunState → Bool
is_running running = true
is_running _ = false

-- An UPDATE writes every row that fits; `rowcount` counts them.
unfoldable pub update_where {ℓ} : {A : Type ℓ} → (A → Bool) → (A → A) → List A → List A
update_where fits change [] = []
update_where fits change (x ∷ xs) = (if fits x then change x else x) ∷ update_where fits change xs

unfoldable pub rowcount {ℓ} : {A : Type ℓ} → (A → Bool) → List A → ℕ
rowcount fits [] = 0
rowcount fits (x ∷ xs) = (if fits x then 1 else 0) + rowcount fits xs

abbrev pub in_session : String → String → Event → Bool
in_session project_id session_id e =
    str_eq e.project_id project_id && str_eq e.session_id session_id

abbrev pub has_event_key : String → String → String → Event → Bool
has_event_key project_id session_id event_id e =
    in_session project_id session_id e && str_eq e.external_event_id event_id

-- `_event_by_key`
unfoldable pub event_by_key : Store → ObserveRequest → Option Event
event_by_key s request =
    find (has_event_key request.project_id request.session_id request.event_id) s.events

abbrev pub is_cursor_of : String → String → Cursor → Bool
is_cursor_of project_id session_id c =
    str_eq c.project_id project_id && str_eq c.session_id session_id

abbrev pub expected_of : Option Cursor → ℕ
expected_of none = 1
expected_of (some c) = c.next_expected_sequence_no

-- `_cursor_for`: the cursors with one for the session, and the number that it expects.
unfoldable pub cursor_for : List Cursor → String → String → ℕ × List Cursor
cursor_for cursors project_id session_id =
    let found = find (is_cursor_of project_id session_id) cursors in
    (
      expected_of found,
      if is_some found
          then cursors
          else record {
            project_id = project_id;
            session_id = session_id;
            next_expected_sequence_no = 1;
          }
            ∷ cursors,
    )

-- A row that `_blocking_event` selects.
unfoldable pub is_blocking : Event → Bool
is_blocking e =
    (is_pending e.processing_state || is_failed e.processing_state)
    && (if is_some e.failure_kind then is_retryable e.failure_kind else true)

-- `_blocking_event(…) is not None`
unfoldable pub has_blocking_event : Store → String → String → Bool
has_blocking_event s project_id session_id =
    any (λ e. in_session project_id session_id e && is_blocking e) s.events

abbrev pub last_seq : String → List Event → ℕ
last_seq project_id [] = 0
last_seq project_id (e ∷ es) =
    if str_eq e.project_id project_id
    then max e.project_event_seq (last_seq project_id es)
    else last_seq project_id es

-- `_next_project_event_seq`
unfoldable pub next_project_event_seq : Store → String → ℕ
next_project_event_seq s project_id = last_seq project_id s.events + 1

-- The WHERE clause of every write to an event by the owner of an attempt.
unfoldable pub is_owned : String → String → ℕ → Event → Bool
is_owned event_internal_id lease_token attempt_no e =
    str_eq e.internal_id event_internal_id
    && is_pending e.processing_state
    && opt_str_eq e.lease_token (some lease_token)
    && e.attempt_count == attempt_no

-- `_pending_event_for_attempt`
unfoldable pub pending_event_for_attempt : Store → String → String → ℕ → Option Event
pending_event_for_attempt s event_internal_id lease_token attempt_no =
    find (is_owned event_internal_id lease_token attempt_no) s.events

unfoldable pub is_run_of : String → ℕ → Run → Bool
is_run_of event_internal_id attempt_no run =
    str_eq run.event_internal_id event_internal_id && run.attempt_no == attempt_no

-- `_run_for_attempt`
unfoldable pub run_for_attempt : Store → String → ℕ → Option Run
run_for_attempt s event_internal_id attempt_no =
    find (is_run_of event_internal_id attempt_no) s.runs

-- `memory_relations.prior_memory_id IS NULL` after the left join: no relation replaces the memory.
unfoldable pub is_replaced : List Relation → String → Bool
is_replaced relations memory_id = any (λ rel. str_eq rel.prior_memory_id memory_id) relations

abbrev pub is_active_memory : List Relation → MemoryRecord → Bool
is_active_memory relations m = not (is_replaced relations m.id)

-- The row fits `_newer_active_lifecycle_memory`.
unfoldable pub is_newer_lifecycle : List Relation → String → ℕ → NormalMemory → MemoryRecord → Bool
is_newer_lifecycle relations project_id project_event_seq memory m =
    str_eq m.project_id project_id
    && str_eq m.type memory.type
    && str_eq m.subject memory.subject
    && str_eq m.scope_level memory.scope_level
    && opt_str_eq m.component memory.component
    && ltb project_event_seq m.source_project_event_seq
    && is_active_memory relations m

-- `_newer_active_lifecycle_memory(…) is not None`
unfoldable pub has_newer_active_lifecycle_memory : Store → String → ℕ → NormalMemory → Bool
has_newer_active_lifecycle_memory s project_id project_event_seq memory =
    any (is_newer_lifecycle s.relations project_id project_event_seq memory) s.memories

abbrev pub text_lt : String → String → Bool
text_lt a b = elim (compare_text a b) [ Ordering.lt ↦ true | _ ↦ false ]

-- `ORDER BY source_project_event_seq DESC, id ASC`
unfoldable pub row_before : MemoryRecord → MemoryRecord → Bool
row_before a b =
    ltb b.source_project_event_seq a.source_project_event_seq
    || a.source_project_event_seq == b.source_project_event_seq && text_lt a.id b.id

unfoldable pub insert_row : MemoryRecord → List MemoryRecord → List MemoryRecord
insert_row m [] = m ∷ []
insert_row m (x ∷ xs) = if row_before x m then x ∷ insert_row m xs else m ∷ x ∷ xs

unfoldable pub order_rows : List MemoryRecord → List MemoryRecord
order_rows [] = []
order_rows (m ∷ ms) = insert_row m (order_rows ms)

-- `active_memories`
unfoldable pub active_memories : Store → String → List MemoryRecord
active_memories s project_id =
    order_rows
      (keep (λ m. str_eq m.project_id project_id && is_active_memory s.relations m) s.memories)

-- `attempt_count`; none is the KeyError.
unfoldable pub attempt_count : Store → String → String → String → Option ℕ
attempt_count s project_id session_id event_id =
    elim (find (has_event_key project_id session_id event_id) s.events) [
      | none ↦ none
      | some e ↦ some e.attempt_count
    ]

unfoldable pub has_event : Store → String → String → String → Bool
has_event s project_id session_id event_id =
    is_some (find (has_event_key project_id session_id event_id) s.events)

unfoldable pub memory_count : Store → String → ℕ
memory_count s project_id = rowcount (λ m. str_eq m.project_id project_id) s.memories

unfoldable pub supersession_successor_id : Store → String → Option String
supersession_successor_id s prior_memory_id =
    elim (find (λ rel. str_eq rel.prior_memory_id prior_memory_id) s.relations) [
      | none ↦ none
      | some rel ↦ some rel.successor_memory_id
    ]
