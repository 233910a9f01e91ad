-- ===== src/Embedding.antt =====
-- The embedding of a memory: the document of `_embedding_document` (src/recallpack/observe.py),
-- which write_candidates.py and storage.py build again, and the three checks of a vector.
use Prim.Native.String.{◌++◌}
use recallpack.Base.{
  ℕ, String, Bool, true, false, not, ◌&&◌, Option, none, some, length, any, all, ◌==◌, str_eq,
  opt_str_eq, if◌then◌else◌, Result, ok, err,
}
use recallpack.Json.{Json, int, float, arr, Items, nil, cons, items}
use recallpack.Library.{Library, is_finite, is_nonzero, is_nonzero_int}
use recallpack.Memory.{MemoryRecord, NormalMemory}

abbrev pub embedding_model : String
embedding_model = "text-embedding-v4"

abbrev pub embedding_dimension : ℕ
embedding_dimension = 1024

-- `f"{component}"`
abbrev pub shown : Option String → String
shown none = "None"
shown (some c) = c

unfoldable pub document : String → String → Option String → String → String → String
document type scope_level component subject text =
    let scope =
      if str_eq scope_level "project" then "project" else scope_level ++ (":" ++ shown component) in
    "type="
    ++ (type ++ ("\nscope=" ++ (scope ++ ("\nsubject=" ++ (subject ++ ("\nmemory=" ++ text))))))

-- `_embedding_document`
unfoldable pub embedding_document : NormalMemory → String
embedding_document m = document m.type m.scope_level m.component m.subject m.text

-- `_document_for_memory`
unfoldable pub document_for_memory : MemoryRecord → String
document_for_memory m = document m.type m.scope_level m.component m.subject m.text

-- An int or a finite float, and no bool. An int that has no float raises in the code.
abbrev pub is_number : Json → Bool
is_number (int i) = true
is_number (float bits) = is_finite bits
is_number _ = false

abbrev pub is_nonzero_number : Json → Bool
is_nonzero_number (int i) = is_nonzero_int i
is_nonzero_number (float bits) = is_nonzero bits
is_nonzero_number _ = false

-- The tests that the checks of a vector share.
unfoldable pub valid_vector : Json → Bool
valid_vector (arr js) =
    length (items js) == embedding_dimension
    && all is_number (items js)
    && any is_nonzero_number (items js)
valid_vector _ = false

abbrev pub to_float : Library → Json → Json
to_float lib (int i) = float (lib.float_of_int i)
to_float lib j = j

abbrev pub to_floats : Library → Items → Items
to_floats lib nil = nil
to_floats lib (cons j js) = cons (to_float lib j) (to_floats lib js)

-- `[float(value) for value in vector]`
abbrev pub floats_of : Library → Json → Json
floats_of lib (arr js) = arr (to_floats lib js)
floats_of lib j = j

pub data VectorError : Type 0 where
  invalid_embedding_vector invalid_document_embedding memory_embedding_backfill_required :
      VectorError

-- `validated_vector`, and `validated_query_vector`
unfoldable pub validated_vector : Library → Json → Result VectorError Json
validated_vector lib vector =
    if valid_vector vector then ok (floats_of lib vector) else err invalid_embedding_vector

abbrev pub opt_eq : Option ℕ → ℕ → Bool
opt_eq none n = false
opt_eq (some m) n = m == n

-- `validated_stored_vector`
unfoldable pub validated_stored_vector : Library → MemoryRecord → Result VectorError Json
validated_stored_vector lib m =
    if not (
      opt_eq m.record_schema_version 4
      && opt_str_eq m.embedding_model (some embedding_model)
      && opt_eq m.embedding_dimension embedding_dimension)
    then err memory_embedding_backfill_required
    else if not
        (opt_str_eq m.embedding_document_hash (some (lib.sha256_of_text (document_for_memory m))))
    then err memory_embedding_backfill_required
    else elim (validated_vector lib m.embedding) [
      | ok vector ↦ ok vector
      | err e ↦ err memory_embedding_backfill_required
    ]

-- The dictionary of `_embedding_metadata`, whose keys are these fields.
pub record Embedding : Type 0 where
  pub vector : Json
  pub model : String
  pub dimension : ℕ
  pub document_hash : String
  pub record_schema_version : ℕ

-- What a provider answers: `EmbeddingResult`, with the model of its trace.
pub record EmbeddingResult : Type 0 where
  pub embedding : Json
  pub text_type : String
  pub model_id : String

-- `_embedding_metadata`
unfoldable pub embedding_metadata :
    Library → EmbeddingResult → String → Result VectorError Embedding
embedding_metadata lib result text =
    if str_eq result.text_type "document"
      && str_eq result.model_id embedding_model
      && valid_vector result.embedding
    then ok (record {
      vector = floats_of lib result.embedding;
      model = embedding_model;
      dimension = embedding_dimension;
      document_hash = lib.sha256_of_text text;
      record_schema_version = 4;
    })
    else err invalid_document_embedding

-- `_valid_embedding_payload` of storage.py
unfoldable pub valid_embedding_payload : Library → NormalMemory → Embedding → Bool
valid_embedding_payload lib memory embedding =
    str_eq embedding.model embedding_model
    && embedding.dimension == embedding_dimension
    && embedding.record_schema_version == 4
    && str_eq embedding.document_hash (lib.sha256_of_text (embedding_document memory))
    && valid_vector embedding.vector
