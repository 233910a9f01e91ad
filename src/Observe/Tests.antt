-- ===== src/Observe/Tests.antt =====
-- Runs of src/recallpack/observe.py on a small store, with a decider that answers the same each time.
use recallpack.Base.{ltb, arith, true, false, none, [], ◌∷◌, ◌≡◌, refl, Result, ok, err}
use recallpack.Json.{Json, obj, null, str, arr, nil, field, end}
use recallpack.Store.Rows.{Store}
use recallpack.Memory.{MemoryRecord}
use recallpack.Store.Answer.{ClaimResult, owned}
use recallpack.Store.Claim.{claim_event}
use recallpack.Store.Steps.{empty_store, empty_store-InStep}
use recallpack.Store.Audit.{audit_event_run_consistency}
use recallpack.Store.Samples.{library, request, draw, draw_again}
use recallpack.Turnstile.{Registry}
use recallpack.Store.Query.{active_memories, order_rows, insert_row, row_before, is_replaced}
use recallpack.Library.{is_finite, is_nonzero}
use recallpack.Embedding.{
  document, document_for_memory, valid_vector, validated_vector, validated_stored_vector,
}
use recallpack.Base.{str_eq, any, all, find, keep}
use recallpack.Compile.{
  Floats, Scored, stored_vectors, scored_with, rank_order, insert_ranked, ranks_before,
  cosine_similarity,
}
use recallpack.Compile.Samples.{floats, vector, rule, one_memory}
use recallpack.Observe.Candidates.{Embedder, rank_candidates, select_write_candidates}
use recallpack.Compile.Ordered.{IsInOrder}
use recallpack.Observe.Selected.{
  IsSelection, select_write_candidates-IsSelection, select_write_candidates-IsInOrder,
}
use recallpack.Observe.Trace.{Raised, retryable_error}
use recallpack.Observe.Evidence.{Traces}
use recallpack.Observe.Flow.{ObserveRuntime, Outside}
use recallpack.Observe.Attempt.{observe_owned}
use recallpack.Observe.Runtime.{observe, plain, Provider}
use recallpack.Observe.Kept.{observe-audit}
use recallpack.Observe.Answered.{EndsAs, observe_owned-EndsAs}

abbrev no_traces : Traces
no_traces = record { decider = []; embedding_provider = [] }

abbrev nothing_to_keep : Json
nothing_to_keep = obj (
    field "operation" (str "no_op") (
      field "memory" null (
        field "duplicate_of_candidate_index" null (
          field "supersedes_candidate_indexes" (arr nil)
            (field "reason" (str "nothing to keep") end)))))

abbrev runtime : Result Raised Json → ObserveRuntime
runtime decision = record {
  library = library;
  floats = floats;
  decider = record {
    decide_memory_operation = λ r payloads. record { outcome = decision; traces = no_traces };
    repair_memory_operation = none;
  };
  embedding_provider = record {
    embed_query = λ t. record { outcome = ok null; traces = no_traces };
    embed_document = λ t. record {
      outcome = ok (record { embedding = null; text_type = "document"; model_id = "m" });
      traces = no_traces;
    };
  };
  components = "retry" ∷ [];
}

abbrev alone : Outside
alone = record {
  others = λ m s. s;
  raises = λ m. none;
  integrity_message = "UNIQUE constraint failed";
  claim_draw = draw;
  end_draw = draw_again;
}

abbrev claim : ClaimResult
claim = owned "e1" 1 "l1" 1 "r1" "fake"

abbrev claimed_store : Store
claimed_store = (claim_event library request 100 "fake" draw (empty_store 60)).1

observe_owned-EndsAs_example :
    EndsAs claim
      (observe_owned (runtime (ok nothing_to_keep)) alone request claim claimed_store).0
      (observe_owned (runtime (ok nothing_to_keep)) alone request claim claimed_store).1
observe_owned-EndsAs_example =
    observe_owned-EndsAs (runtime (ok nothing_to_keep)) alone request claim claimed_store

abbrev registry : Registry
registry = record { count = 0; tickets = λ t. none; pending = λ p. none; active_of = λ p. none }

abbrev fake_provider : Provider
fake_provider = plain (record { has_live_trace = false; is_live = false; is_qwen = false })

abbrev timed_out : Result Raised Json
timed_out = err (retryable_error "provider_timeout" "timed out")

observe-audit_example :
    audit_event_run_consistency
      (observe
        (runtime timed_out)
        alone
        request
        fake_provider
        fake_provider
        registry
        100
        (empty_store 60)).1.events
      (observe
        (runtime timed_out)
        alone
        request
        fake_provider
        fake_provider
        registry
        100
        (empty_store 60)).1.runs
    ≡ true
observe-audit_example =
    observe-audit (runtime timed_out) alone request (λ m s k. k) fake_provider fake_provider
      registry 100 (empty_store 60) (empty_store-InStep 60)

abbrev embedder : Embedder
embedder = record {
  embed_query = λ t. record { outcome = ok vector; traces = no_traces };
  embed_document = λ t. record {
    outcome = ok (record { embedding = vector; text_type = "document"; model_id = "m" });
    traces = no_traces;
  };
}

abbrev rule_offered : Scored
rule_offered = record { score = 0; memory = rule }

select_write_candidates-IsSelection_example :
    IsSelection library floats embedder one_memory "p" "retry twice" 5 (rule_offered ∷ [])
unfolding is_finite is_nonzero document document_for_memory valid_vector validated_vector
    validated_stored_vector active_memories order_rows insert_row row_before is_replaced
    stored_vectors scored_with rank_order insert_ranked ranks_before cosine_similarity
    rank_candidates select_write_candidates str_eq any all find keep
select_write_candidates-IsSelection_example =
    select_write_candidates-IsSelection library floats embedder one_memory "p" "retry twice" 5
      no_traces (rule_offered ∷ []) refl

-- A newer memory like the rule, which ranks before it as their similarities are the same.
abbrev newer_rule : MemoryRecord
newer_rule = record rule { id = "m2"; source_project_event_seq = 2 }

abbrev newer_offered : Scored
newer_offered = record { score = 0; memory = newer_rule }

abbrev ordered_floats : Floats
ordered_floats = record floats { less = ltb }

select_write_candidates-IsInOrder_example :
    IsInOrder ordered_floats (newer_offered ∷ rule_offered ∷ [])
unfolding is_finite is_nonzero document document_for_memory valid_vector validated_vector
    validated_stored_vector row_before stored_vectors scored_with rank_order insert_ranked
    ranks_before cosine_similarity rank_candidates select_write_candidates str_eq any all find keep
select_write_candidates-IsInOrder_example =
    select_write_candidates-IsInOrder library ordered_floats embedder (rule ∷ newer_rule ∷ [])
      "retry twice" 5 no_traces (newer_offered ∷ rule_offered ∷ []) (λ a b h. ground arith) refl
