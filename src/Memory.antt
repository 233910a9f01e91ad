-- ===== src/Memory.antt =====
-- src/recallpack/memory.py, and the request record of src/recallpack/observe.py.
use recallpack.Base.{ℕ, String, Option}
use recallpack.Json.{Json}

pub record SourceRef : Type 0 where
  pub session_id : String
  pub event_id : String

-- `embedding` is whatever value the stored JSON text has.
pub record MemoryRecord : Type 0 where
  pub id : String
  pub project_id : String
  pub type : String
  pub subject : String
  pub text : String
  pub scope_level : String
  pub component : Option String
  pub source_actor : String
  pub source_ref : SourceRef
  pub source_project_event_seq : ℕ
  pub embedding : Json
  pub embedding_model : Option String
  pub embedding_dimension : Option ℕ
  pub embedding_document_hash : Option String
  pub record_schema_version : Option ℕ
  pub source_event_internal_id : Option String

pub record ObserveRequest : Type 0 where
  pub project_id : String
  pub session_id : String
  pub event_id : String
  pub sequence_no : ℕ
  pub actor : String
  pub kind : String
  pub observed_at : String
  pub text : String

-- The memory that `_normalize_memory` returns.
pub record NormalMemory : Type 0 where
  pub type : String
  pub subject : String
  pub text : String
  pub scope_level : String
  pub component : Option String
