-- ===== src/Compile/Serve.antt =====
-- `CompileService.compile` of src/recallpack/compile.py, with the check of the ranking. A store that
-- fails and a trace that cannot be built raise in the code; neither is modelled.
use Prim.Native.String.{◌++◌ as join_texts}
use recallpack.Base.{
  ℕ, String, Bool, true, false, not, ◌&&◌, Option, none, some, List, [], ◌∷◌, ◌++◌, map, keep, any,
  all, length, leb, ◌==◌, is_nonempty, str_eq, if◌then◌else◌, Result, ok, err, ◌>>=◌,
}
use recallpack.Json.{
  ℤ, pos, negsuc, Json, null, int, float, str, Fields, field, end, get, is_text, member,
}
use recallpack.Library.{Library}
use recallpack.Memory.{MemoryRecord}
use recallpack.Embedding.{is_number, shown}
use recallpack.Budget.{Tokenizer, budget_too_small, select}
use recallpack.Store.Rows.{Store}
use recallpack.Store.Query.{active_memories, text_lt}
use recallpack.Compile.Rank.{Floats, rank_order}
use recallpack.Compile.Retrieve.{CompileRequest, CompileFailure, load_candidates, retrieve}

-- What a ranker answers: `rank`, with the scores and the roles of the new traces that it leaves behind.
pub record Ranking : Type 0 where
  pub ranked : List MemoryRecord
  pub scores : List (String × Json)
  pub roles : List String

-- A ranker that answers or raises, and the scores that it holds from its last call.
pub record Ranker : Type 0 where
  pub rank : String → List MemoryRecord → Option Ranking
  pub last_scores : List (String × Json)

abbrev pub ids_of : List MemoryRecord → List String
ids_of ms = map (λ m. m.id) ms

abbrev pub insert_text : String → List String → List String
insert_text s [] = s ∷ []
insert_text s (t ∷ ts) = if text_lt t s then t ∷ insert_text s ts else s ∷ t ∷ ts

-- `sorted` of texts.
abbrev pub sorted_texts : List String → List String
sorted_texts [] = []
sorted_texts (s ∷ ss) = insert_text s (sorted_texts ss)

unfoldable pub same_texts : List String → List String → Bool
same_texts [] [] = true
same_texts (s ∷ ss) (t ∷ ts) = str_eq s t && same_texts ss ts
same_texts [] (t ∷ ts) = false
same_texts (s ∷ ss) [] = false

-- `_validate_ranked_permutation`
unfoldable pub valid_permutation : List MemoryRecord → List MemoryRecord → Bool
valid_permutation ranked candidates =
    length ranked == length candidates
    && same_texts (sorted_texts (ids_of ranked)) (sorted_texts (ids_of candidates))

abbrev pub score_of : List (String × Json) → String → Json
score_of [] id = null
score_of (s ∷ ss) id = if str_eq s.0 id then s.1 else score_of ss id

-- `float(score)` of a number.
abbrev pub float_of : Library → Json → ℕ
float_of lib (int i) = lib.float_of_int i
float_of lib (float bits) = bits
float_of lib _ = 0

unfoldable pub expected_order :
    Library → Floats → List (String × Json) → List MemoryRecord → List MemoryRecord
expected_order lib f scores candidates =
    map (λ x. x.memory)
      (rank_order f
        (map (λ m. record { score = float_of lib (score_of scores m.id); memory = m }) candidates))

abbrev pub is_rerank_alone : List String → Bool
is_rerank_alone (role ∷ []) = str_eq role "rerank"
is_rerank_alone _ = false

-- `_validate_rerank_contract`
unfoldable pub valid_contract : Library → Floats → Ranking → List MemoryRecord → Bool
valid_contract lib f r candidates =
    if is_nonempty candidates
    then all (λ s. member s.0 (ids_of candidates)) r.scores
      && all (λ m. member m.id (map (λ s. s.0) r.scores)) candidates
      && all (λ s. is_number s.1) r.scores
      && is_rerank_alone r.roles
      && same_texts (ids_of r.ranked) (ids_of (expected_order lib f r.scores candidates))
    else not (is_nonempty r.scores) && not (is_nonempty r.roles)

-- The ranker is asked only where there is something to rank.
unfoldable pub ask_ranker : Ranker → String → List MemoryRecord → Option Ranking
ask_ranker ranker goal candidates =
    if is_nonempty candidates
    then ranker.rank goal candidates
    else some (record { ranked = []; scores = ranker.last_scores; roles = [] })

-- `_rerank`
unfoldable pub rerank :
    Library
    → Floats
    → Ranker
    → String
    → List MemoryRecord
    → Result CompileFailure (List MemoryRecord)
rerank lib f ranker goal candidates = elim (ask_ranker ranker goal candidates) [
  | none ↦ err (record { error = "rerank_failure"; status_code = 503 })
  | some r ↦
      if valid_permutation r.ranked candidates && valid_contract lib f r candidates
      then ok r.ranked
      else err (record { error = "rerank_failure"; status_code = 503 })
]

-- `_scope`
abbrev pub scope : MemoryRecord → String
scope m =
    if str_eq m.scope_level "project"
    then "project"
    else join_texts "component:" (shown m.component)

unfoldable pub to_pack_item : MemoryRecord → Fields
to_pack_item m = field "id" (str m.id) (
    field "type" (str m.type) (
      field "subject" (str m.subject) (
        field "text" (str m.text) (
          field "scope" (str (scope m)) (
            field "source_ref"
              (str (join_texts m.source_ref.session_id (join_texts ":" m.source_ref.event_id)))
              end)))))

-- `_select_pack`
unfoldable pub select_pack : Tokenizer → ℕ → List MemoryRecord → Result CompileFailure (List Fields)
select_pack t budget ranked = elim (select t budget (map to_pack_item ranked)) [
  | ok pack ↦ ok pack
  | err budget_too_small ↦ err (record { error = "budget_too_small"; status_code = 422 })
  | err _ ↦ err (record { error = "tokenizer_unavailable"; status_code = 503 })
]

pub record Omission : Type 0 where
  pub memory_id : String
  pub stage : String
  pub reason : String

unfoldable pub omissions_of : List MemoryRecord → List MemoryRecord → List Fields → List Omission
omissions_of omitted ranked pack =
    map (λ m. record { memory_id = m.id; stage = "embedding"; reason = "outside_top_20" }) omitted
    ++ map (λ m. record { memory_id = m.id; stage = "budget"; reason = "budget_overflow" })
        (keep (λ m. not (any (λ item. is_text (get "id" item) m.id) pack)) ranked)

pub record CompileResult : Type 0 where
  pub status_code : ℕ
  pub pack : List Fields
  pub error : Option String
  pub omissions : List Omission

-- `_error_result`
abbrev pub failed_with : CompileFailure → CompileResult
failed_with e = record {
  status_code = e.status_code;
  pack = [];
  error = some e.error;
  omissions = [];
}

-- A budget from 1 to 512.
abbrev pub budget_of : ℤ → Option ℕ
budget_of (pos n) = if leb 1 n && leb n 512 then some n else none
budget_of (negsuc n) = none

-- The `try` block of `compile` and what follows it.
unfoldable pub compile_pack :
    Library
    → Floats
    → Tokenizer
    → (String → Option Json)
    → Ranker
    → Store
    → CompileRequest
    → ℕ
    → Result CompileFailure CompileResult
compile_pack lib f t embed ranker s request budget = do
  retrieval ←
      retrieve lib f embed request.goal
        (load_candidates request (active_memories s request.project_id))
  ranked ← rerank lib f ranker request.goal retrieval.candidates
  pack ← select_pack t budget ranked
  ok (record {
    status_code = 200;
    pack = pack;
    error = none;
    omissions = omissions_of retrieval.omitted ranked pack;
  })

unfoldable pub compile :
    Library
    → Floats
    → Tokenizer
    → (String → Option Json)
    → Ranker
    → List String
    → Store
    → CompileRequest
    → CompileResult
compile lib f t embed ranker components s request =
    if member request.component components
    then elim (budget_of request.budget_tokens) [
      | none ↦ failed_with (record { error = "invalid_budget"; status_code = 400 })
      | some budget ↦ elim (compile_pack lib f t embed ranker s request budget) [
        | ok result ↦ result
        | err e ↦ failed_with e
      ]
    ]
    else failed_with (record { error = "invalid_component"; status_code = 422 })
