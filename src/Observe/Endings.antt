-- ===== src/Observe/Endings.antt =====
-- An owned attempt of src/recallpack/observe.py ends in one of four ways: in the failure, in one of the two
-- completions, or in a raise. What holds after each of them holds after `_observe_owned`.
use recallpack.Base.{
  ℕ, String, Bool, true, false, Option, none, some, List, [], ◌≡◌, ◌⊎◌, refl, inl, inr, is_nonempty,
  str_eq, str_eq_sound, if◌then◌else◌, Result, ok, err, Bool-cases, Option-cases, Result-cases,
}
use recallpack.Json.{Json, Fields}
use recallpack.Memory.{MemoryRecord, ObserveRequest, NormalMemory}
use recallpack.Embedding.{Embedding, embedding_document, embedding_metadata}
use recallpack.Normalize.Parts.{NormalizedOperation, terminal_no_op}
use recallpack.Store.Rows.{Store}
use recallpack.Store.Query.{active_memories, has_newer_active_lifecycle_memory}
use recallpack.Store.Answer.{ClaimResult}
use recallpack.Observe.Trace.{
  ProviderError, Raised, value_error, provider_error, retryable_error, terminal_error, sqlite_error,
  other_error,
}
use recallpack.Observe.Evidence.{Traces, attempt_evidence, provider_observe_error}
use recallpack.Observe.Candidates.{Answer, select_write_candidates, build_candidate_payloads}
use recallpack.Compile.{Scored}
use recallpack.Observe.Flow.{
  ObserveRuntime, Moment, Outside, Flow, lift, continue_with, then_run, store_call, checking,
  selecting,
}
use recallpack.Observe.Attempt.{
  fail_owned_attempt, fail_with, fail_provider, complete_result, commit_result, embed_and_commit,
  finish_operation, repair_failed, keep_repaired, ask_repair, judge_first, first_failed,
  decide_over, observe_owned,
}
use recallpack.Observe.Response.{ObserveResponse, Progress, unparseable}

-- A failure is answered with 503, but for memories that want a new embedding.
abbrev pub IsFailureStatus : String → ℕ → Type 0
IsFailureStatus error status_code =
    (status_code ≡ 503) ⊎ ((status_code ≡ 409) × (error ≡ "memory_embedding_backfill_required"))

-- A call that only reads leaves the store as the others left it.
pub store_call-read :
    {A : Type 0} (P : Store → Type 0) (outside : Outside) (m : Moment) (look : Store → A)
    (s : Store)
    → P (outside.others m s)
    → P (store_call outside m (λ t. (ok (look t), t)) s).1
unfolding store_call
store_call-read P outside m look s kept = elim (Option-cases (outside.raises m)) [
  | inl quiet ↦ rw (quiet, store_call) kept
  | inr (message, loud) ↦ rw (loud, store_call) kept
]

module _ (runtime : ObserveRuntime) (outside : Outside) (request : ObserveRequest)
    (claim : ClaimResult) (P : Store → Type 0) (Q : Result Raised ObserveResponse → Store → Type 0)
    (others : (m : Moment) (s : Store) → P s → P (outside.others m s))
    (raises : (e : Raised) (s : Store) → P s → Q (err e) s)
    (fails : (error : String) (status_code : ℕ) (detail : Option String) (evidence : Fields)
      → IsFailureStatus error status_code
      → (s : Store) → P s
      → Q
          (fail_owned_attempt runtime outside request claim error status_code detail evidence s).0
          (fail_owned_attempt runtime outside request claim error status_code detail evidence s).1)
    (completes : (result : Fields) (repaired : Bool) (evidence : Fields) (s : Store)
      → P s
      → Q
          (complete_result runtime outside request claim result repaired evidence s).0
          (complete_result runtime outside request claim result repaired evidence s).1)
    (commits : (normalized : NormalizedOperation) (memory : NormalMemory) (embedding : Embedding)
        (repaired : Bool) (evidence : Fields) (s : Store)
      → P s
      → Q
          (commit_result runtime outside request claim normalized memory embedding repaired evidence
            s).0
          (commit_result runtime outside request claim normalized memory embedding repaired evidence
            s).1) where
  abbrev Holds : Result Raised ObserveResponse × Store → Type 0
  Holds r = Q r.0 r.1

  continue-all :
      {A : Type 0} (r : Result Raised A) (next : A → Flow ObserveResponse) (s : Store)
      → P s
      → ((value : A) → Holds (next value s))
      → Holds (continue_with r next s)
  continue-all (ok value) next s p k = k value
  continue-all (err e) next s p k = raises e s p

  then_run-all :
      {A : Type 0} (first : Flow A) (next : A → Flow ObserveResponse) (s : Store)
      → P (first s).1
      → ((value : A) (t : Store) → P t → Holds (next value t))
      → Holds (then_run first next s)
  unfolding then_run
  then_run-all first next s p k =
      continue-all (first s).0 next (first s).1 p (λ value. k value (first s).1 p)

  fail_with-all :
      (error : String) (status_code : ℕ) (detail : Option String) (p : Progress)
      → IsFailureStatus error status_code
      → (s : Store) → P s
      → Holds (fail_with runtime outside request claim error status_code detail p s)
  unfolding fail_with
  fail_with-all error status_code detail p status s k =
      then_run-all (lift (attempt_evidence p.traces p.operation p.validation)) _ s k
        (λ evidence t m. fails error status_code detail evidence status t m)

  fail_provider-all :
      (error : ProviderError) (purpose : String) (p : Progress) (s : Store)
      → P s
      → Holds (fail_provider runtime outside request claim error purpose p s)
  unfolding fail_provider
  fail_provider-all error purpose p s k = then_run-all {A = Fields} _ _ s k (λ evidence t m.
      fails (provider_observe_error error) 503 (some error.message) evidence (inl refl) t m)

  embed-raised :
      (normalized : NormalizedOperation) (memory : NormalMemory) (p : Progress) (s : Store)
      (e : Raised)
      → (runtime.embedding_provider.embed_document (embedding_document memory)).outcome ≡ err e
      → P s
      → Holds (embed_and_commit runtime outside request claim normalized memory p s)
  unfolding embed_and_commit
  embed-raised normalized memory p s (provider_error e) h k =
      rw (h, embed_and_commit) (fail_provider-all e _ _ s k)
  embed-raised normalized memory p s (value_error e) h k =
      rw (h, embed_and_commit) (fail_with-all _ _ _ _ (inl refl) s k)
  embed-raised normalized memory p s (retryable_error c e) h k =
      rw (h, embed_and_commit) (raises _ s k)
  embed-raised normalized memory p s (terminal_error c e) h k =
      rw (h, embed_and_commit) (raises _ s k)
  embed-raised normalized memory p s (sqlite_error e) h k = rw (h, embed_and_commit) (raises _ s k)
  embed-raised normalized memory p s other_error h k = rw (h, embed_and_commit) (raises _ s k)

  embed_and_commit-all :
      (normalized : NormalizedOperation) (memory : NormalMemory) (p : Progress) (s : Store)
      → P s
      → Holds (embed_and_commit runtime outside request claim normalized memory p s)
  unfolding embed_and_commit
  embed_and_commit-all normalized memory p s k =
      let document = embedding_document memory in
      elim (Result-cases (runtime.embedding_provider.embed_document document).outcome) [
        | inr (e, h) ↦ embed-raised normalized memory p s e h k
        | inl (result, h) ↦
            elim (Result-cases (embedding_metadata runtime.library result document)) [
              | inr (e, bad) ↦ rw (h, bad, embed_and_commit) (fail_with-all _ _ _ _ (inl refl) s k)
              | inl (embedding, good) ↦
                  rw (h, good, embed_and_commit)
                    (then_run-all {A = Fields} _ _ s k
                      (λ evidence t m. commits normalized memory embedding _ evidence t m))
            ]
      ]

  finish_operation-all :
      (normalized : NormalizedOperation) (p : Progress) (s : Store)
      → P s
      → Holds (finish_operation runtime outside request claim normalized p s)
  unfolding finish_operation
  finish_operation-all normalized p s k = then_run-all {A = Fields} _ _ s k (λ evidence t m.
      elim (Option-cases normalized.memory) [
        | inl nothing ↦ rw nothing (completes normalized.final_result _ evidence t m)
        | inr (memory, some_memory) ↦ elim (Option-cases claim.project_event_seq) [
          | inl unnumbered ↦ rw (some_memory, unnumbered) (raises other_error t m)
          | inr (seq, numbered) ↦
              rw (some_memory, numbered)
                (then_run-all {A = Bool} _ _ t
                  (store_call-read P outside checking
                    (λ u. has_newer_active_lifecycle_memory u request.project_id seq memory) t
                    (others checking t m))
                  (λ newer u w.
                    elim newer
                      as (λ b. Holds (
                        (if b
                            then complete_result runtime outside request claim
                                (terminal_no_op "stale_project_event").final_result p.repaired
                                evidence
                            else embed_and_commit runtime outside request claim normalized memory p)
                          u)) [
                            | true ↦ completes _ _ evidence u w
                            | false ↦ embed_and_commit-all normalized memory p u w
                          ]))
        ]
      ])

  repair_failed-all :
      (e : Raised) (p : Progress) (s : Store)
      → P s
      → Holds (repair_failed runtime outside request claim e p s)
  unfolding repair_failed
  repair_failed-all (retryable_error code message) p s k = fail_with-all _ _ _ _ (inl refl) s k
  repair_failed-all (terminal_error code message) p s k = fail_with-all _ _ _ _ (inl refl) s k
  repair_failed-all (provider_error e) p s k = raises _ s k
  repair_failed-all (value_error e) p s k = raises _ s k
  repair_failed-all (sqlite_error e) p s k = raises _ s k
  repair_failed-all other_error p s k = raises _ s k

  keep_repaired-all :
      (operation : Json) (candidates : List MemoryRecord) (p : Progress) (s : Store)
      → P s
      → Holds (keep_repaired runtime outside request claim operation candidates p s)
  unfolding keep_repaired
  keep_repaired-all operation candidates p s k =
      then_run-all {A = NormalizedOperation × List String} _ _ s k
        (λ outcome t m. finish_operation-all outcome.0 _ t m)

  ask_repair-all :
      (repair : ObserveRequest → List Fields → List String → Answer Json) (errors : List String)
      (payloads : List Fields) (candidates : List MemoryRecord) (p : Progress) (s : Store)
      → P s
      → Holds (ask_repair runtime outside request claim repair errors payloads candidates p s)
  unfolding ask_repair
  ask_repair-all repair errors payloads candidates p s k =
      elim (Result-cases (repair request payloads errors).outcome) [
        | inr (e, h) ↦ rw (h, ask_repair) (repair_failed-all e _ s k)
        | inl (operation, h) ↦ rw (h, ask_repair) (keep_repaired-all operation candidates _ s k)
      ]

  judge_first-all :
      (operation : Json) (payloads : List Fields) (candidates : List MemoryRecord) (traces : Traces)
      (s : Store)
      → P s
      → Holds (judge_first runtime outside request claim operation payloads candidates traces s)
  unfolding judge_first
  judge_first-all operation payloads candidates traces s k =
      then_run-all {A = NormalizedOperation × List String} _ _ s k (λ outcome t m.
        elim (Option-cases runtime.decider.repair_memory_operation) [
          | inl absent ↦ rw absent (finish_operation-all outcome.0 _ t m)
          | inr (repair, there) ↦ elim (Bool-cases (is_nonempty outcome.1)) [
            | inl wrong ↦
                rw (there, wrong) (ask_repair-all repair outcome.1 payloads candidates _ t m)
            | inr right ↦ rw (there, right) (finish_operation-all outcome.0 _ t m)
          ]
        ])

  unparseable-all :
      (code message : String) (repair : ObserveRequest → List Fields → List String → Answer Json)
      (offered : Option (List Fields × List MemoryRecord)) (traces : Traces) (s : Store)
      → runtime.decider.repair_memory_operation ≡ some repair
      → str_eq code unparseable ≡ true
      → P s
      → Holds (
          first_failed runtime outside request claim
            (retryable_error code message)
            offered
            traces
            s)
  unfolding first_failed
  unparseable-all code message repair none traces s there same k =
      rw (there, same, first_failed) (raises other_error s k)
  unparseable-all code message repair (some o) traces s there same k =
      rw (there, same, first_failed) (ask_repair-all repair _ o.0 o.1 _ s k)

  first_failed-all :
      (e : Raised) (offered : Option (List Fields × List MemoryRecord)) (traces : Traces)
      (s : Store)
      → P s
      → Holds (first_failed runtime outside request claim e offered traces s)
  unfolding first_failed
  first_failed-all (value_error message) offered traces s k =
      elim (Bool-cases (str_eq message "memory_embedding_backfill_required")) [
        | inl backfill ↦
            rw (backfill, first_failed)
              (fail_with-all _ _ _ _
                (inr (refl, str_eq_sound message "memory_embedding_backfill_required" backfill)) s
                k)
        | inr other ↦ rw (other, first_failed) (fail_with-all _ _ _ _ (inl refl) s k)
      ]
  first_failed-all (provider_error e) offered traces s k = fail_provider-all e _ _ s k
  first_failed-all (retryable_error code message) offered traces s k =
      elim (Option-cases runtime.decider.repair_memory_operation) [
        | inl absent ↦ rw (absent, first_failed) (fail_with-all _ _ _ _ (inl refl) s k)
        | inr (repair, there) ↦ elim (Bool-cases (str_eq code unparseable)) [
          | inl same ↦ unparseable-all code message repair offered traces s there same k
          | inr other ↦ rw (there, other, first_failed) (fail_with-all _ _ _ _ (inl refl) s k)
        ]
      ]
  first_failed-all (terminal_error code message) offered traces s k =
      fail_with-all _ _ _ _ (inl refl) s k
  first_failed-all (sqlite_error message) offered traces s k = raises _ s k
  first_failed-all other_error offered traces s k = raises _ s k

  decide_over-all :
      (scored : List Scored) (traces : Traces) (s : Store)
      → P s
      → Holds (decide_over runtime outside request claim scored traces s)
  unfolding decide_over
  decide_over-all scored traces s k =
      elim (Result-cases
        (runtime.decider.decide_memory_operation request
          (build_candidate_payloads scored 8)).outcome) [
            | inl (operation, h) ↦ rw (h, decide_over) (judge_first-all operation _ _ _ s k)
            | inr (e, h) ↦ rw (h, decide_over) (first_failed-all e _ _ s k)
          ]

  pub observe_owned-all : (s : Store) → P s → Holds (observe_owned runtime outside request claim s)
  unfolding observe_owned
  observe_owned-all s k =
      then_run-all {A = List MemoryRecord} _ _ s
        (store_call-read P outside selecting (λ u. active_memories u request.project_id) s
          (others selecting s k))
        (λ memories t m.
          elim (Result-cases
            (select_write_candidates runtime.library runtime.floats runtime.embedding_provider
              memories request.text 8 (record { decider = []; embedding_provider = [] })).outcome) [
                | inl (scored, h) ↦ rw h (decide_over-all scored _ t m)
                | inr (e, h) ↦ rw h (first_failed-all e none _ t m)
              ])
