-- ===== src/Observe/Attempt.antt =====
-- `_observe_owned` of src/recallpack/observe.py: an attempt that the runtime owns, to its end.
use recallpack.Base.{
  ℕ, String, Bool, true, false, Option, none, some, List, [], ◌∷◌, ◌++◌, map, is_nonempty, str_eq,
  if◌then◌else◌, Result, ok, err, ◌>>=◌,
}
use recallpack.Json.{Json, obj, Fields}
use recallpack.Memory.{MemoryRecord, ObserveRequest, NormalMemory}
use recallpack.Embedding.{Embedding, embedding_document, embedding_metadata}
use recallpack.Normalize.Parts.{NormalizedOperation, terminal_no_op}
use recallpack.Normalize.Decide.{normalize_operation_with_errors}
use recallpack.Compile.{Scored}
use recallpack.Store.Query.{active_memories, has_newer_active_lifecycle_memory}
use recallpack.Store.Answer.{StoreError, ClaimResult}
use recallpack.Store.Complete.{complete_event, complete_observe_operation}
use recallpack.Store.Fail.{fail_retryable_event}
use recallpack.Observe.Trace.{
  ProviderError, Raised, value_error, provider_error, retryable_error, terminal_error, sqlite_error,
  other_error,
}
use recallpack.Observe.Evidence.{
  Traces, attempt_evidence, append_provider_error_evidence, evidence_has_request_id,
  evidence_was_repaired, provider_observe_error,
}
use recallpack.Observe.Candidates.{Answer, select_write_candidates, build_candidate_payloads}
use recallpack.Observe.Flow.{
  ObserveRuntime, selecting, checking, ending, Outside, Flow, returns, raise, lift, then_run,
  store_call,
}
use recallpack.Observe.Response.{
  ObserveResponse, response_for_claim, lease_lost, attempt_of, stage, unparseable, after_repair,
  seq_or, Progress,
}

module _ (runtime : ObserveRuntime) (outside : Outside) (request : ObserveRequest)
    (claim : ClaimResult) where
  -- The answer after a failure.
  abbrev pub failed_response : String → ℕ → Fields → Bool → ObserveResponse
  failed_response error status_code run_evidence failed =
      if failed
      then response_for_claim claim status_code (some error) none
          (some (evidence_was_repaired run_evidence)) (some (evidence_has_request_id run_evidence))
      else lease_lost claim

  -- `_fail_owned_attempt`
  unfoldable pub fail_owned_attempt : String → ℕ → Option String → Fields → Flow ObserveResponse
  fail_owned_attempt error status_code detail run_evidence =
      then_run
        (store_call outside ending (λ s.
          let failed =
            fail_retryable_event runtime.library (attempt_of claim) error (some run_evidence) detail
              outside.end_draw.utc_now s in
          (ok failed.0, failed.1)))
        (λ failed. returns (failed_response error status_code run_evidence failed))

  -- A failure with the evidence so far.
  unfoldable pub fail_with : String → ℕ → Option String → Progress → Flow ObserveResponse
  fail_with error status_code detail p =
      then_run (lift (attempt_evidence p.traces p.operation p.validation))
        (fail_owned_attempt error status_code detail)

  -- A `ProviderError` of the embedding provider.
  unfoldable pub fail_provider : ProviderError → String → Progress → Flow ObserveResponse
  fail_provider error purpose p =
      then_run
        (lift (
          attempt_evidence p.traces p.operation p.validation
          >>= (λ evidence. append_provider_error_evidence evidence error "embedding" purpose)))
        (fail_owned_attempt (provider_observe_error error) 503 (some error.message))

  -- The answer after a completion with the operation's own result.
  abbrev pub completed_response : Fields → Bool → Fields → Bool → ObserveResponse
  completed_response final_result repaired run_evidence completed =
      if completed
      then response_for_claim claim 200 none (some (obj final_result)) (some repaired)
          (some (evidence_has_request_id run_evidence))
      else lease_lost claim

  -- `complete_event` and the answer.
  unfoldable pub complete_result : Fields → Bool → Fields → Flow ObserveResponse
  complete_result final_result repaired run_evidence =
      then_run
        (store_call outside ending (λ s.
          let completed =
            complete_event runtime.library (attempt_of claim) final_result (some run_evidence)
              outside.end_draw.utc_now s in
          (ok completed.0, completed.1)))
        (λ completed. returns (completed_response final_result repaired run_evidence completed))

  abbrev pub committed_response : Bool → Fields → Option Fields → ObserveResponse
  committed_response repaired run_evidence none = lease_lost claim
  committed_response repaired run_evidence (some final_result) =
      completed_response final_result repaired run_evidence true

  abbrev pub or_value_error : {A : Type 0} → Result StoreError A → Result Raised A
  or_value_error (ok value) = ok value
  or_value_error (err e) = err (value_error "invalid_document_embedding")

  -- `complete_observe_operation` and the answer.
  unfoldable pub commit_result :
      NormalizedOperation → NormalMemory → Embedding → Bool → Fields → Flow ObserveResponse
  commit_result normalized memory embedding repaired run_evidence =
      then_run
        (store_call outside ending (λ s.
          let committed =
            complete_observe_operation runtime.library (attempt_of claim) normalized.final_result
              memory normalized.supersedes_memory_ids embedding (some run_evidence) outside.end_draw
              s in
          (or_value_error committed.0, committed.1)))
        (λ result. returns (committed_response repaired run_evidence result))

  -- From `_embedding_document` on, with a memory that is not stale.
  unfoldable pub embed_and_commit :
      NormalizedOperation → NormalMemory → Progress → Flow ObserveResponse
  embed_and_commit normalized memory p =
      let document = embedding_document memory in
      let answer = runtime.embedding_provider.embed_document document in
      let q : Progress = record p { traces = answer.traces } in
      elim answer.outcome [
        | err (provider_error e) ↦ fail_provider e "embed_normalized_memory_document" q
        | err (value_error e) ↦ fail_with "provider_http_response_unparseable" 503 none q
        | err e ↦ raise e
        | ok result ↦ elim (embedding_metadata runtime.library result document) [
          | err e ↦ fail_with "provider_http_response_unparseable" 503 none q
          | ok embedding ↦
              then_run (lift (attempt_evidence q.traces q.operation q.validation))
                (commit_result normalized memory embedding q.repaired)
        ]
      ]

  -- The end of `_observe_owned`, with the operation that is kept.
  unfoldable pub finish_operation : NormalizedOperation → Progress → Flow ObserveResponse
  finish_operation normalized p =
      then_run (lift (attempt_evidence p.traces p.operation p.validation)) (λ run_evidence.
        elim normalized.memory [
          | none ↦ complete_result normalized.final_result p.repaired run_evidence
          | some memory ↦ elim claim.project_event_seq [
            | none ↦ raise other_error
            | some seq ↦
                then_run
                  (store_call outside checking (λ s.
                    (ok (has_newer_active_lifecycle_memory s request.project_id seq memory), s)))
                  (λ newer.
                    if newer
                    then complete_result (terminal_no_op "stale_project_event").final_result
                        p.repaired run_evidence
                    else embed_and_commit normalized memory p)
          ]
        ])

  abbrev pub normalized_with_errors :
      Json → List MemoryRecord → Result Raised (NormalizedOperation × List String)
  normalized_with_errors operation candidates =
      elim (normalize_operation_with_errors operation request
        (seq_or claim.project_event_seq request.sequence_no) candidates runtime.components) [
          | ok outcome ↦ ok outcome
          | err e ↦ err other_error
        ]

  -- The errors of `repair_memory_operation` that the runtime catches.
  unfoldable pub repair_failed : Raised → Progress → Flow ObserveResponse
  repair_failed (retryable_error code message) p =
      fail_with (after_repair code) 503 (some message)
        (record p { validation = p.validation ++ stage "repair" (code ∷ []) ∷ [] })
  repair_failed (terminal_error code message) p = fail_with code 503 (some message) p
  repair_failed e p = raise e

  -- The operation of a repair is normalised and kept, with or without errors.
  unfoldable pub keep_repaired : Json → List MemoryRecord → Progress → Flow ObserveResponse
  keep_repaired operation candidates p =
      then_run (lift (normalized_with_errors operation candidates)) (λ outcome.
        finish_operation outcome.0 (record p {
          operation = some operation;
          validation = p.validation ++ stage "repair" outcome.1 ∷ [];
        }))

  unfoldable pub ask_repair :
      (ObserveRequest → List Fields → List String → Answer Json)
      → List String
      → List Fields
      → List MemoryRecord
      → Progress
      → Flow ObserveResponse
  ask_repair repair errors payloads candidates p =
      let answer = repair request payloads errors in
      let q : Progress = record p { repaired = true; traces = answer.traces } in
      elim answer.outcome [
        | err e ↦ repair_failed e q
        | ok operation ↦ keep_repaired operation candidates q
      ]

  -- The first operation is normalised; with errors, it is repaired where the decider can.
  unfoldable pub judge_first :
      Json → List Fields → List MemoryRecord → Traces → Flow ObserveResponse
  judge_first operation payloads candidates traces =
      then_run (lift (normalized_with_errors operation candidates)) (λ outcome.
        let p : Progress = record {
          operation = some operation;
          validation = stage "initial" outcome.1 ∷ [];
          repaired = false;
          traces = traces;
        } in
        elim runtime.decider.repair_memory_operation [
          | none ↦ finish_operation outcome.0 p
          | some repair ↦
              if is_nonempty outcome.1
              then ask_repair repair outcome.1 payloads candidates p
              else finish_operation outcome.0 p
        ])

  abbrev pub undecided : Traces → Progress
  undecided traces = record { operation = none; validation = []; repaired = false; traces = traces }

  -- The `except` clauses of the first `try`; the payloads are none where the error came before them.
  unfoldable pub first_failed :
      Raised → Option (List Fields × List MemoryRecord) → Traces → Flow ObserveResponse
  first_failed (value_error message) offered traces =
      if str_eq message "memory_embedding_backfill_required"
      then fail_with message 409 none (undecided traces)
      else fail_with "provider_http_response_unparseable" 503 none (undecided traces)
  first_failed (provider_error e) offered traces =
      fail_provider e "retrieve_write_candidates" (undecided traces)
  first_failed (retryable_error code message) offered traces =
      elim runtime.decider.repair_memory_operation [
        | none ↦ fail_with code 503 (some message) (undecided traces)
        | some repair ↦
            if str_eq code unparseable
            then elim offered [
              | none ↦ raise other_error
              | some o ↦ ask_repair repair (unparseable ∷ []) o.0 o.1 (record (undecided traces) {
                validation = stage "initial" (unparseable ∷ []) ∷ [];
              })
            ]
            else fail_with code 503 (some message) (undecided traces)
      ]
  first_failed (terminal_error code message) offered traces =
      fail_with code 503 (some message) (undecided traces)
  first_failed (sqlite_error message) offered traces = raise (sqlite_error message)
  first_failed other_error offered traces = raise other_error

  -- The decision over the candidates.
  unfoldable pub decide_over : List Scored → Traces → Flow ObserveResponse
  decide_over scored traces =
      let candidates = map (λ x. x.memory) scored in
      let payloads = build_candidate_payloads scored 8 in
      let answer = runtime.decider.decide_memory_operation request payloads in
      elim answer.outcome [
        | ok operation ↦ judge_first operation payloads candidates answer.traces
        | err e ↦ first_failed e (some (payloads, candidates)) answer.traces
      ]

  -- `_observe_owned`
  unfoldable pub observe_owned : Flow ObserveResponse
  observe_owned =
      then_run (store_call outside selecting (λ s. (ok (active_memories s request.project_id), s)))
        (λ memories.
          let selected =
            select_write_candidates runtime.library runtime.floats runtime.embedding_provider
              memories request.text 8 (record { decider = []; embedding_provider = [] }) in
          elim selected.outcome [
            | ok scored ↦ decide_over scored selected.traces
            | err e ↦ first_failed e none selected.traces
          ])
