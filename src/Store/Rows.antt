-- ===== src/Store/Rows.antt =====
-- The tables of src/recallpack/storage.py, a list of rows for each, and what it takes from outside.
-- A column of JSON text holds the value of the text; one that is no JSON counts as a JSON string,
-- which every check of the code refuses alike.
use recallpack.Base.{ℕ, String, Option, List}
use recallpack.Json.{Json, Items, Fields}
use recallpack.Memory.{MemoryRecord}

pub data ProcessingState : Type 0 where
  pending completed failed : ProcessingState

pub data FailureKind : Type 0 where
  retryable terminal : FailureKind

-- `session_events`
pub record Event : Type 0 where
  pub internal_id : String
  pub project_id : String
  pub session_id : String
  pub external_event_id : String
  pub sequence_no : ℕ
  pub project_event_seq : ℕ
  pub actor : String
  pub kind : String
  pub observed_at : String
  pub text : String
  pub payload_hash : String
  pub processing_state : ProcessingState
  pub failure_kind : Option FailureKind
  pub attempt_count : ℕ
  pub lease_token : Option String
  pub lease_expires_at : Option ℕ
  pub last_error : Option String
  pub final_result_json : Option Json
  pub result_schema_version : Option ℕ

-- `memory_relations`
pub record Relation : Type 0 where
  pub prior_memory_id : String
  pub successor_memory_id : String
  pub relation_type : String
  pub source_event_internal_id : String

pub data RunState : Type 0 where
  running succeeded semantic_no_op failed_retryable lost_lease : RunState

-- `observe_runs`
pub record Run : Type 0 where
  pub id : String
  pub event_internal_id : String
  pub attempt_no : ℕ
  pub state : RunState
  pub provider_mode : String
  pub model_calls : Items
  pub embedding_calls : Items
  pub tool_arguments : Option Fields
  pub validation : Json
  pub failure_code : Option String
  pub error_detail : Option String
  pub started_at : String
  pub finished_at : Option String
  pub duration_ms : Option ℕ

-- `session_cursors`
pub record Cursor : Type 0 where
  pub project_id : String
  pub session_id : String
  pub next_expected_sequence_no : ℕ

-- The database of one `SqliteEventStore`, and its `lease_seconds`.
pub record Store : Type 0 where
  pub events : List Event
  pub memories : List MemoryRecord
  pub relations : List Relation
  pub runs : List Run
  pub cursors : List Cursor
  pub lease_seconds : ℕ

-- What one call draws: the identifiers of `uuid4`, with their prefixes, and `_utc_now`.
pub record Draw : Type 0 where
  pub event_id : String
  pub lease_token : String
  pub run_id : String
  pub memory_id : String
  pub utc_now : String
