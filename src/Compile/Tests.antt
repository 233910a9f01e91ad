-- ===== src/Compile/Tests.antt =====
-- Runs of src/recallpack/compile.py on a store with one memory, and on one with none.
use Prim.Native.String.{String}
use recallpack.Base.{
  Option, none, some, List, [], ◌∷◌, ◌≡◌, refl, str_eq, any, all, find, keep, is_nonempty,
  if◌then◌else◌,
}
use recallpack.Json.{pos, Json, float}
use recallpack.Library.{is_finite, is_nonzero}
use recallpack.Embedding.{
  document, document_for_memory, valid_vector, validated_vector, validated_stored_vector,
}
use recallpack.Budget.{Tokenizer, count, canonical_pack, fits, select_from, select}
use recallpack.Store.Query.{active_memories, order_rows, insert_row, row_before, is_replaced}
use recallpack.Compile.{
  CompileRequest, Ranker, scope_overlaps, load_candidates, stored_vectors, scored_with, split_top,
  top_n, retrieve, ask_ranker, rerank, valid_contract, valid_permutation, same_texts, select_pack,
  to_pack_item, omissions_of, compile_pack, compile, failed_with, expected_order, rank_order,
  insert_ranked, ranks_before, cosine_similarity,
}
use recallpack.Compile.Packed.{IsPacked, compile-IsPacked}
use recallpack.Compile.Stale.{compile-stale_scores}
use recallpack.Store.Samples.{library}
use recallpack.Compile.Samples.{floats, no_memories, one, vector, rule, one_memory}

program : Unit {0}
unfolding is_finite is_nonzero document document_for_memory valid_vector validated_vector
    validated_stored_vector count canonical_pack fits select_from select active_memories order_rows
    insert_row row_before is_replaced scope_overlaps load_candidates stored_vectors scored_with
    split_top top_n retrieve ask_ranker rerank valid_contract valid_permutation same_texts
    select_pack to_pack_item omissions_of compile_pack compile expected_order rank_order
    insert_ranked ranks_before cosine_similarity str_eq any all find keep
program = tt

abbrev tokenizer : Tokenizer
tokenizer = record { dumps = λ j. "pack"; encode = λ text. some (1 ∷ []) }

abbrev no_vector : String → Option Json
no_vector goal = none

abbrev ranker : List (String × Json) → Ranker
ranker scores = record { rank = λ goal candidates. none; last_scores = scores }

abbrev request : CompileRequest
request = record {
  project_id = "p";
  goal = "fix the retry";
  component = "retry";
  budget_tokens = pos 8;
}

abbrev score_all : Ranker
score_all = record {
  rank = λ goal candidates.
      some (record { ranked = candidates; scores = ("m1", float one) ∷ []; roles = "rerank" ∷ [] });
  last_scores = [];
}

one_packed :
    (compile library floats tokenizer
      (λ goal. some vector)
      score_all
      ("retry" ∷ [])
      one_memory
      request).pack
    ≡ to_pack_item rule ∷ []
unfolding program
one_packed = refl

compile-IsPacked_example : IsPacked library floats tokenizer score_all one_memory request (
    compile library floats tokenizer
      (λ goal. some vector)
      score_all
      ("retry" ∷ [])
      one_memory
      request)
unfolding program
compile-IsPacked_example =
    compile-IsPacked library floats tokenizer (λ goal. some vector) score_all ("retry" ∷ [])
      one_memory request refl

-- The ranker holds a score from a call before this one.
compile-stale_scores_example :
    compile library floats tokenizer no_vector
      (ranker (("m1", float 0) ∷ []))
      ("retry" ∷ [])
      no_memories
      request
    ≡ (if is_nonempty {A = String × Json} (("m1", float 0) ∷ [])
        then failed_with (record { error = "rerank_failure"; status_code = 503 })
        else record { status_code = 200; pack = []; error = none; omissions = [] })
unfolding program
compile-stale_scores_example =
    compile-stale_scores library floats tokenizer no_vector (ranker (("m1", float 0) ∷ []))
      ("retry" ∷ []) no_memories request 8 refl refl refl refl refl
