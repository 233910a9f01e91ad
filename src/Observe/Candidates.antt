-- ===== src/Observe/Candidates.antt =====
-- src/recallpack/write_candidates.py: the memories that a decider is offered for an event. The arithmetic
-- of the similarity is that of Compile.
use recallpack.Base.{
  ℕ, suc, String, List, [], ◌∷◌, take, min, is_nonempty, if◌then◌else◌, Result, ok, err, ◌>>=◌,
}
use recallpack.Json.{pos, Json, int, float, str, obj, Fields, end, field, or_null}
use recallpack.Library.{Library}
use recallpack.Memory.{MemoryRecord, SourceRef}
use recallpack.Embedding.{
  VectorError, invalid_embedding_vector, invalid_document_embedding,
  memory_embedding_backfill_required, EmbeddingResult, validated_vector,
}
use recallpack.Compile.{Floats, Scored, rank_order, stored_vectors, scored_with}
use recallpack.Observe.Trace.{Raised, value_error}
use recallpack.Observe.Evidence.{Traces}

-- What a call of a provider comes to: its result, and the traces of both providers behind the offsets
-- once it is done, those of other threads included.
pub record Answer (A : Type 0) : Type 0 where
  pub outcome : Result Raised A
  pub traces : Traces

-- An embedding provider, with the embedding of the result of `embed_query`.
pub record Embedder : Type 0 where
  pub embed_query : String → Answer Json
  pub embed_document : String → Answer EmbeddingResult

-- `str` of the ValueError.
abbrev pub vector_message : VectorError → String
vector_message invalid_embedding_vector = "invalid_embedding_vector"
vector_message invalid_document_embedding = "invalid_document_embedding"
vector_message memory_embedding_backfill_required = "memory_embedding_backfill_required"

abbrev pub or_raise {ℓ} : {A : Type ℓ} → Result VectorError A → Result Raised A
or_raise (ok value) = ok value
or_raise (err e) = err (value_error (vector_message e))

-- From the answer to the query on.
unfoldable pub rank_candidates :
    Library → Floats → List (MemoryRecord × Json) → ℕ → Json → Result VectorError (List Scored)
rank_candidates lib f validated limit answer = do
  query ← validated_vector lib answer
  scored ← scored_with f query validated
  ok (take (min limit 8) (rank_order f scored))

-- `select_write_candidates`, with `store.active_memories(project_id)` read.
unfoldable pub select_write_candidates :
    Library → Floats → Embedder → List MemoryRecord → String → ℕ → Traces → Answer (List Scored)
select_write_candidates lib f embedder memories raw_event limit traces =
    if is_nonempty memories
    then elim (stored_vectors lib memories) [
      | err e ↦ record { outcome = err (value_error (vector_message e)); traces = traces }
      | ok validated ↦
          let answer = embedder.embed_query raw_event in
          record {
            outcome =
                answer.outcome
                >>= (λ vector. or_raise (rank_candidates lib f validated limit vector));
            traces = answer.traces;
          }
    ]
    else record { outcome = ok []; traces = traces }

abbrev pub source_ref_json : SourceRef → Json
source_ref_json ref =
    obj (field "session_id" (str ref.session_id) (field "event_id" (str ref.event_id) end))

abbrev pub candidate_payload : ℕ → Scored → Fields
candidate_payload index scored =
    let m = scored.memory in
    field "candidate_index" (int (pos index)) (
      field "memory_id" (str m.id) (
        field "type" (str m.type) (
          field "subject" (str m.subject) (
            field "text" (str m.text) (
              field "scope_level" (str m.scope_level) (
                field "component" (or_null m.component) (
                  field "source_actor" (str m.source_actor) (
                    field "source_ref" (source_ref_json m.source_ref) (
                      field "source_project_event_seq" (int (pos m.source_project_event_seq))
                        (field "similarity" (float scored.score) end))))))))))

abbrev pub payloads_from : ℕ → List Scored → List Fields
payloads_from index [] = []
payloads_from index (x ∷ xs) = candidate_payload index x ∷ payloads_from (suc index) xs

-- `build_candidate_payloads`
unfoldable pub build_candidate_payloads : List Scored → ℕ → List Fields
build_candidate_payloads scored limit = payloads_from 0 (take limit scored)
