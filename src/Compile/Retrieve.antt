-- ===== src/Compile/Retrieve.antt =====
-- The candidates of a compilation in src/recallpack/compile.py: `_load_candidates` and `_retrieve`.
use recallpack.Base.{
  ℕ, String, Bool, ◌||◌, Option, none, some, List, [], ◌∷◌, map, keep, take, drop, is_nonempty,
  str_eq, opt_str_eq, if◌then◌else◌, Result, ok, err, ◌>>=◌,
}
use recallpack.Json.{ℤ, Json}
use recallpack.Library.{Library}
use recallpack.Memory.{MemoryRecord}
use recallpack.Embedding.{VectorError, validated_vector, validated_stored_vector}
use recallpack.Compile.Rank.{Floats, cosine_similarity, Scored, rank_order}

pub record CompileRequest : Type 0 where
  pub project_id : String
  pub goal : String
  pub component : String
  pub budget_tokens : ℤ

-- `_CompileFailure`: its error and its status code.
pub record CompileFailure : Type 0 where
  pub error : String
  pub status_code : ℕ

abbrev pub embedding_top_n : ℕ
embedding_top_n = 20

unfoldable pub scope_overlaps : String → MemoryRecord → Bool
scope_overlaps component m =
    str_eq m.scope_level "project" || opt_str_eq m.component (some component)

unfoldable pub load_candidates : CompileRequest → List MemoryRecord → List MemoryRecord
load_candidates request active = keep (scope_overlaps request.component) active

-- `_RetrievalResult`
pub record Retrieval : Type 0 where
  pub candidates : List MemoryRecord
  pub omitted : List MemoryRecord

-- Each candidate with the vector that is stored for it, if all are valid.
unfoldable pub stored_vectors :
    Library → List MemoryRecord → Result VectorError (List (MemoryRecord × Json))
stored_vectors lib [] = ok []
stored_vectors lib (m ∷ ms) = do
  vector ← validated_stored_vector lib m
  rest ← stored_vectors lib ms
  ok ((m, vector) ∷ rest)

unfoldable pub scored_with :
    Floats → Json → List (MemoryRecord × Json) → Result VectorError (List Scored)
scored_with f query [] = ok []
scored_with f query (c ∷ cs) = do
  score ← cosine_similarity f query c.1
  rest ← scored_with f query cs
  ok (record { score = score; memory = c.0 } ∷ rest)

-- `scored[:20]` and `scored[20:]`
unfoldable pub split_top : List Scored → Retrieval
split_top scored = record {
  candidates = map (λ x. x.memory) (take embedding_top_n scored);
  omitted = map (λ x. x.memory) (drop embedding_top_n scored);
}

-- `_embedding_top_n`; `embed` answers a query with a vector, or raises, also where its trace cannot be
-- shown.
unfoldable pub top_n :
    Library
    → Floats
    → (String → Option Json)
    → String
    → List (MemoryRecord × Json)
    → Result VectorError Retrieval
top_n lib f embed goal candidates =
    if is_nonempty candidates
    then elim (embed goal) [
      | none ↦ err VectorError.invalid_embedding_vector
      | some answer ↦ do
        query ← validated_vector lib answer
        scored ← scored_with f query candidates
        ok (split_top (rank_order f scored))
    ]
    else ok (record { candidates = []; omitted = [] })

-- `_retrieve`
unfoldable pub retrieve :
    Library
    → Floats
    → (String → Option Json)
    → String
    → List MemoryRecord
    → Result CompileFailure Retrieval
retrieve lib f embed goal candidates = elim (stored_vectors lib candidates) [
  | err e ↦ err (record { error = "memory_embedding_backfill_required"; status_code = 409 })
  | ok validated ↦ elim (top_n lib f embed goal validated) [
    | err e ↦ err (record { error = "embedding_failure"; status_code = 503 })
    | ok retrieval ↦ ok retrieval
  ]
]
