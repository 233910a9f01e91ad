-- ===== src/Store/Tests.antt =====
-- Runs of src/recallpack/storage.py on a small store.
use recallpack.Base.{
  ℕ, zero, suc, String, false, none, some, [], ◌∷◌, ◌⊎◌, ◌≡◌, ◌≢◌, refl, ok, err, Result, Option,
  str_eq, find, any, all, keep,
}
use recallpack.Json.{
  pos, Json, obj, int, arr, Items, nil, cons, Fields, field, end, get, nonempty_text, str,
}
use recallpack.Library.{Library, is_finite, is_nonzero}
use recallpack.Memory.{MemoryRecord, ObserveRequest, NormalMemory}
use recallpack.Embedding.{
  Embedding, document, embedding_document, valid_vector, valid_embedding_payload, embedding_model,
  embedding_dimension,
}
use recallpack.Normalize.Parts.{final_result, normalize_no_op, terminal_no_op}
use recallpack.Normalize.Decide.{normalize_operation}
use recallpack.Store.Rows.{Event, Store}
use recallpack.Store.Query.{
  update_where, rowcount, event_by_key, cursor_for, has_blocking_event, is_blocking,
  next_project_event_seq, is_owned, pending_event_for_attempt, is_run_of, run_for_attempt,
  has_newer_active_lifecycle_memory, is_replaced, is_newer_lifecycle, active_memories, order_rows,
  insert_row, row_before,
}
use recallpack.Store.Results.{
  valid_v4_final_result, valid_memory_summary, valid_source_ref, valid_superseded,
}
use recallpack.Store.Runs.{
  normalized_run_evidence, insert_running_run, is_running_run, finished_run, finish_run,
  claim_run_summary,
}
use recallpack.Store.Claim.{
  replay_completed, report_pending, claim_existing, new_event, clashes, insert_event, claim_new,
  admit_new, claim_event,
}
use recallpack.Store.Lease.{is_as_read, taken_over, renew_lease, take_over_lease}
use recallpack.Store.Answer.{
  ClaimResult, rejected, StoreError, owned, payload_hash, invalid_document_embedding,
}
use recallpack.Store.Complete.{
  completed_row, advance_cursor, complete_pending_event, complete_attempt, memory_row,
  insert_memory, complete_without_memory, commit_memory, complete_owned, complete_operation,
}
use recallpack.Store.Supersede.{
  named_active, prior_error, first_prior_error, supersession_validation_error,
  insert_supersession_edges,
}
use recallpack.Store.Fail.{fail_attempt, failed_row, valid_failure_code, failure_code_of, detail_of}
use recallpack.Store.Replay.{by_operation, complete-replay}
use recallpack.Store.Fence.{IsFenced, take_over-fences}
use recallpack.Store.Admit.{IsAdmitted, claim_event-IsAdmitted}
use recallpack.Store.Commit.{IsCommitted, IsTurnedDown, complete_operation-outcome}
use recallpack.Store.Rollback.{complete_operation-unchanged}
use recallpack.Store.Accept.{no_memory-reason}
use recallpack.Store.Samples.{library, request, draw, draw_again}
use recallpack.Store.Refused.{IsUntouched, claim_event-unowned}

unfoldable pub program : Unit {0}
unfolding is_finite is_nonzero document embedding_document valid_vector valid_embedding_payload
    normalize_no_op terminal_no_op normalize_operation update_where rowcount event_by_key cursor_for
    has_blocking_event is_blocking next_project_event_seq is_owned pending_event_for_attempt
    is_run_of run_for_attempt has_newer_active_lifecycle_memory is_replaced is_newer_lifecycle
    valid_v4_final_result valid_memory_summary valid_source_ref valid_superseded
    normalized_run_evidence insert_running_run is_running_run finished_run finish_run
    claim_run_summary payload_hash is_as_read taken_over renew_lease take_over_lease
    replay_completed report_pending claim_existing new_event clashes insert_event claim_new
    admit_new claim_event completed_row advance_cursor complete_pending_event complete_attempt
    memory_row named_active prior_error first_prior_error supersession_validation_error
    insert_supersession_edges insert_memory complete_without_memory commit_memory complete_owned
    complete_operation fail_attempt failed_row valid_failure_code failure_code_of detail_of str_eq
    find any all keep active_memories order_rows insert_row row_before
program = tt

abbrev pub fresh_store : Store
fresh_store = record {
  events = [];
  memories = [];
  relations = [];
  runs = [];
  cursors = [];
  lease_seconds = 60;
}

-- The store in which the request's first attempt runs, and its row.
abbrev pub claimed_store : Store
claimed_store = (claim_event library request 100 "fake" draw fresh_store).1

abbrev pub claimed : Event
claimed = new_event request "t0" "hash" 1 160 draw

claimed_row : claimed_store.events ≡ claimed ∷ []
unfolding program
claimed_row = refl

abbrev first_claim : ClaimResult
first_claim = owned "e1" 1 "l1" 1 "r1" "fake"

claim_event-IsAdmitted_example : IsAdmitted fresh_store claimed_store request first_claim
unfolding program
claim_event-IsAdmitted_example =
    claim_event-IsAdmitted library request 100 "fake" draw fresh_store claimed_store first_claim
      refl refl refl

abbrev pub nothing_said : Fields
nothing_said = final_result "no_op" "nothing to keep"

abbrev second_claim : ClaimResult
second_claim = owned "e1" 1 "l2" 2 "r2" "fake"

abbrev taken_store : Store
taken_store = (take_over_lease library claimed_store claimed 900 "fake" draw_again).1

take_over-fences_example : IsFenced library "e1" "l1" 1 taken_store
unfolding program
take_over-fences_example =
    take_over-fences library claimed_store taken_store claimed 900 "fake" draw_again second_claim
      "e1" "l1" 1 refl refl refl

abbrev zeros : ℕ → Items
zeros zero = nil
zeros (suc n) = cons (int (pos 0)) (zeros n)

abbrev pub policy : NormalMemory
policy = record {
  type = "decision";
  subject = "retry_policy";
  text = "retry twice";
  scope_level = "component";
  component = some "retry";
}

abbrev pub embedded : Embedding
embedded = record {
  vector = arr (cons (int (pos 1)) (zeros 1023));
  model = embedding_model;
  dimension = embedding_dimension;
  document_hash = embedding_document policy;
  record_schema_version = 4;
}

abbrev pub written : Fields
written = final_result "write" "a rule"

-- A rule from before the event, which the new one replaces.
abbrev earlier : MemoryRecord
earlier = record (memory_row claimed policy embedded "m0") { source_project_event_seq = 0 }

abbrev pub ruled_store : Store
ruled_store = record claimed_store { memories = earlier ∷ [] }

abbrev stored_store : Store
stored_store =
    (complete_operation library "e1" "l1" 1 written policy ("m0" ∷ []) embedded none draw
      ruled_store).1

abbrev stored : Fields
stored = field "operation" (str "write") (
    field "memory"
      (obj (
        field "id" (str "m1") (
          field "type" (str "decision") (
            field "subject" (str "retry_policy") (
              field "text" (str "retry twice") (
                field "scope_level" (str "component") (
                  field "component" (str "retry") (
                    field "source_ref"
                      (obj (field "session_id" (str "s") (field "event_id" (str "x") end)))
                      end))))))))
      (field "reason" (str "a rule")
        (field "superseded_memory_ids" (arr (cons (str "m0") nil)) end)))

complete_operation-outcome_example :
    (event : Event) × (pending_event_for_attempt ruled_store "e1" "l1" 1 ≡ some event)
    × (IsCommitted library ruled_store stored_store event "e1" "l1" 1 written policy
          ("m0" ∷ [])
          embedded
          none
          draw
          stored
        ⊎ IsTurnedDown library ruled_store stored_store event "e1" "l1" 1 policy
            ("m0" ∷ [])
            none
            draw
            stored)
unfolding program
complete_operation-outcome_example =
    complete_operation-outcome library ruled_store stored_store "e1" "l1" 1 written policy
      ("m0" ∷ []) embedded none draw stored refl

complete-replay_example :
    (c : ClaimResult) × (claim_event library request 900 "live" draw_again stored_store
      ≡ (ok c, stored_store))
    × (c.status_code ≡ 200)
    × (c.final_result ≡ some (obj stored))
    × (c.owns_attempt ≡ false)
unfolding program
complete-replay_example =
    complete-replay library request "e1" "l1" 1 stored ruled_store stored_store claimed
      (by_operation written policy ("m0" ∷ []) embedded none draw stored_store refl) refl refl "t0"
      refl refl 900 "live" draw_again refl

-- An embedding of the wrong dimension is refused.
abbrev too_short : Embedding
too_short = record embedded { dimension = 3 }

raised_no_value :
    (result : Fields)
    → ◌≢◌ {A = Result StoreError (Option Fields)}
        (err invalid_document_embedding)
        (ok (some result))
raised_no_value result = cc

complete_operation-unchanged_example :
    (complete_operation library "e1" "l1" 1 written policy [] too_short none draw claimed_store).1
    ≡ claimed_store
unfolding program
complete_operation-unchanged_example =
    complete_operation-unchanged library claimed_store
      (complete_operation library "e1" "l1" 1 written policy [] too_short none draw claimed_store).1
      "e1" "l1" 1 written policy [] too_short none draw (err invalid_document_embedding) refl
      raised_no_value

abbrev silent : Fields
silent = field "operation" (str "no_op") (
    field "memory" Json.null (
      field "duplicate_of_candidate_index" Json.null
        (field "supersedes_candidate_indexes" (arr nil) (field "reason" (str "") end))))

no_memory-reason_example :
    (valid_v4_final_result (some (obj (final_result "no_op" "")))
      ≡ nonempty_text (get "reason" (final_result "no_op" "")))
    × (nonempty_text (get "reason" (final_result "no_op" "")) ≡ false
        → (lib : Library) (s : Store) (i l : String) (k : ℕ) (evidence : Option Fields)
          (at : String)
        → complete_attempt lib i l k (final_result "no_op" "") evidence at s ≡ (false, s))
unfolding program
no_memory-reason_example =
    no_memory-reason request 1 [] [] (obj silent) (terminal_no_op "") tt refl refl

-- The next event of the session, while the first one is open.
abbrev early_request : ObserveRequest
early_request = record request { event_id = "y"; sequence_no = 2 }

early_is_rejected :
    (claim_event library early_request 110 "fake" draw_again claimed_store).0
    ≡ ok (rejected "prior_event_incomplete")
unfolding program
early_is_rejected = refl

claim_event-unowned_example :
    IsUntouched claimed_store
      (claim_event library early_request 110 "fake" draw_again claimed_store).1
unfolding program
claim_event-unowned_example =
    claim_event-unowned library early_request 110 "fake" draw_again claimed_store refl
