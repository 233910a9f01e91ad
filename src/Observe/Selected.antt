-- ===== src/Observe/Selected.antt =====
-- What src/recallpack/write_candidates.py guarantees of the memories that a decider is offered.
use recallpack.Base.{
  ℕ, ◌≤◌, String, true, false, ◌&&◌, List, [], ◌≡◌, ◌⊎◌, ap, subst, ◌∙◌, inl, inr, arith, take, min,
  length, length-take-le, is_nonempty, str_eq, str_eq_sound, All, All-take, All-imp, Bool-cases,
  Result-cases, ok, ◌>>=◌, >>=-eq-ok,
}
use recallpack.Json.{Json}
use recallpack.Library.{Library}
use recallpack.Memory.{MemoryRecord}
use recallpack.Embedding.{validated_vector, validated_stored_vector}
use recallpack.Store.Rows.{Store}
use recallpack.Store.Query.{active_memories, is_active_memory}
use recallpack.Compile.{Floats, Scored, cosine_similarity, rank_order, stored_vectors, scored_with}
use recallpack.Compile.Retrieved.{stored_vectors-All, scored_with-All, IsScore, rank_order-All}
use recallpack.Compile.Ordered.{IsInOrder, taken-IsInOrder}
use recallpack.Compile.Packed.{active_memories-All}
use recallpack.Observe.Evidence.{Traces}
use recallpack.Observe.Candidates.{Embedder, or_raise, rank_candidates, select_write_candidates}

-- A selection that ranked the memories, with the stored vectors and the answer to the query.
record HasRanked (lib : Library) (f : Floats) (embedder : Embedder) (memories : List MemoryRecord)
    (raw_event : String) (limit : ℕ) (xs : List Scored) : Type 0 where
  vectors : List (MemoryRecord × Json)
  stored : stored_vectors lib memories ≡ ok vectors
  answer : Json
  answered : (embedder.embed_query raw_event).outcome ≡ ok answer
  ranked : rank_candidates lib f vectors limit answer ≡ ok xs

select_write_candidates-cases :
    (lib : Library) (f : Floats) (embedder : Embedder) (memories : List MemoryRecord)
    (raw_event : String) (limit : ℕ) (traces : Traces) (xs : List Scored)
    → (select_write_candidates lib f embedder memories raw_event limit traces).outcome ≡ ok xs
    → ([] ≡ xs) ⊎ HasRanked lib f embedder memories raw_event limit xs
unfolding select_write_candidates
select_write_candidates-cases lib f embedder memories raw_event limit traces xs e =
    elim (Bool-cases (is_nonempty memories)) [
      | inr empty ↦ inl (ground arith)
      | inl some_left ↦ elim (Result-cases (stored_vectors lib memories)) [
        | inr (bad, failed) ↦ absurd (ground arith)
        | inl (vs, valid) ↦
            let e₀ : ((embedder.embed_query raw_event).outcome >>= λ vector.
            or_raise (rank_candidates lib f vs limit vector))
                ≡ ok xs =
              ground arith in
            let (answer, answered, e₁) =
              >>=-eq-ok ((embedder.embed_query raw_event).outcome)
                (λ vector. or_raise (rank_candidates lib f vs limit vector)) e₀ in
            elim (Result-cases (rank_candidates lib f vs limit answer)) [
              | inr (bad, failed) ↦ absurd (ground arith)
              | inl (ys, done) ↦
                  let same : ys ≡ xs = ground arith in
                  inr (record {
                    vectors = vs;
                    stored = valid;
                    answer = answer;
                    answered = answered;
                    ranked = done ∙ ap ok same;
                  })
            ]
      ]
    ]

rank_candidates-IsInOrder :
    (lib : Library) (f : Floats) (vs : List (MemoryRecord × Json)) (limit : ℕ) (answer : Json)
    (xs : List Scored)
    → ((a b : ℕ) → f.less a b ≡ true → f.less b a ≡ false)
    → rank_candidates lib f vs limit answer ≡ ok xs
    → IsInOrder f xs
unfolding rank_candidates
rank_candidates-IsInOrder lib f vs limit answer xs asym e =
    let (query, valid, e₁) =
      >>=-eq-ok (validated_vector lib answer)
        (λ query.
          scored_with f query vs >>= λ scored. ok (take (min limit 8) (rank_order f scored)))
        e in
    let (scored, scores, e₂) =
      >>=-eq-ok (scored_with f query vs) (λ scored. ok (take (min limit 8) (rank_order f scored)))
        e₁ in
    let same : take (min limit 8) (rank_order f scored) ≡ xs = ground arith in
    subst (IsInOrder f) same (taken-IsInOrder f asym (min limit 8) scored)

-- Where no two floats are each less than the other, the memories that the selection of candidates
-- offers stand in order: none goes before the one just ahead of it by the similarity, then by the
-- newer event, then by the identifier.
pub select_write_candidates-IsInOrder :
    (lib : Library) (f : Floats) (embedder : Embedder) (memories : List MemoryRecord)
    (raw_event : String) (limit : ℕ) (traces : Traces) (xs : List Scored)
    → ((a b : ℕ) → f.less a b ≡ true → f.less b a ≡ false)
    → (select_write_candidates lib f embedder memories raw_event limit traces).outcome ≡ ok xs
    → IsInOrder f xs
select_write_candidates-IsInOrder lib f embedder memories raw_event limit traces xs asym e =
    elim (select_write_candidates-cases lib f embedder memories raw_event limit traces xs e) [
      | inl empty ↦ subst (IsInOrder f) empty tt
      | inr h ↦ rank_candidates-IsInOrder lib f h.vectors limit h.answer xs asym h.ranked
    ]

module _ (lib : Library) (f : Floats) (embedder : Embedder) (s : Store) (project_id : String)
    (raw_event : String) where
  -- A memory that is offered, and the vectors that its similarity comes from.
  pub record IsOffered (x : Scored) : Type 0 where
    project : x.memory.project_id ≡ project_id
    active : is_active_memory s.relations x.memory ≡ true
    answer : Json
    answered : (embedder.embed_query raw_event).outcome ≡ ok answer
    query : Json
    query_valid : validated_vector lib answer ≡ ok query
    vector : Json
    vector_stored : validated_stored_vector lib x.memory ≡ ok vector
    similarity : cosine_similarity f query vector ≡ ok x.score

  -- The candidates of one call.
  pub record IsSelection (limit : ℕ) (xs : List Scored) : Type 0 where
    offered : All IsOffered xs
    at_most_eight : length xs ≤ 8
    at_most_limit : length xs ≤ limit

  abbrev IsOurs : MemoryRecord → Type 0
  IsOurs m = (str_eq m.project_id project_id && is_active_memory s.relations m) ≡ true

  abbrev IsStored : MemoryRecord × Json → Type 0
  IsStored v = IsOurs v.0 × (validated_stored_vector lib v.0 ≡ ok v.1)

  is_offered :
      (answer query : Json)
      → (embedder.embed_query raw_event).outcome ≡ ok answer
      → validated_vector lib answer ≡ ok query
      → (x : Scored) → IsScore IsStored f query x
      → IsOffered x
  is_offered answer query answered valid x (vector, (ours, stored), similar) = record {
    project = str_eq_sound x.memory.project_id project_id (ground arith);
    active = ground arith;
    answer = answer;
    answered = answered;
    query = query;
    query_valid = valid;
    vector = vector;
    vector_stored = stored;
    similarity = similar;
  }

  taken-IsSelection :
      (limit : ℕ) (xs : List Scored) → All IsOffered xs → IsSelection limit (take (min limit 8) xs)
  taken-IsSelection limit xs hs = record {
    offered = All-take IsOffered (min limit 8) xs hs;
    at_most_eight = omega (arith, length-take-le (min limit 8) xs);
    at_most_limit = omega (arith, length-take-le (min limit 8) xs);
  }

  rank_candidates-IsSelection :
      (answer : Json) (vs : List (MemoryRecord × Json)) (limit : ℕ) (xs : List Scored)
      → (embedder.embed_query raw_event).outcome ≡ ok answer
      → All IsStored vs
      → rank_candidates lib f vs limit answer ≡ ok xs
      → IsSelection limit xs
  unfolding rank_candidates
  rank_candidates-IsSelection answer vs limit xs answered hs e =
      let (query, valid, e₁) =
        >>=-eq-ok (validated_vector lib answer)
          (λ query.
            scored_with f query vs >>= λ scored. ok (take (min limit 8) (rank_order f scored)))
          e in
      let (scored, scores, e₂) =
        >>=-eq-ok (scored_with f query vs) (λ scored. ok (take (min limit 8) (rank_order f scored)))
          e₁ in
      let same : take (min limit 8) (rank_order f scored) ≡ xs = ground arith in
      let each : All IsOffered scored =
        All-imp scored (is_offered answer query answered valid)
          (scored_with-All IsStored f query vs scored hs scores) in
      subst (IsSelection limit) same
        (taken-IsSelection limit (rank_order f scored) (rank_order-All IsOffered f scored each))

  none-IsSelection : (limit : ℕ) → IsSelection limit []
  none-IsSelection limit = record {
    offered = tt;
    at_most_eight = omega arith;
    at_most_limit = omega arith;
  }

  -- Where the selection of candidates for an event of the project does not raise, it offers at most
  -- eight memories and no more than the limit. Each is an active memory of the project, with the cosine
  -- similarity of the vector stored for it and the vector that the event was embedded to, both valid.
  pub select_write_candidates-IsSelection :
      (limit : ℕ) (traces : Traces) (xs : List Scored)
      → (select_write_candidates lib f embedder
          (active_memories s project_id)
          raw_event
          limit
          traces).outcome
        ≡ ok xs
      → IsSelection limit xs
  select_write_candidates-IsSelection limit traces xs e =
      let memories = active_memories s project_id in
      elim (select_write_candidates-cases lib f embedder memories raw_event limit traces xs e) [
        | inl empty ↦ subst (IsSelection limit) empty (none-IsSelection limit)
        | inr h ↦
            rank_candidates-IsSelection h.answer h.vectors limit xs h.answered
              (stored_vectors-All IsOurs lib memories h.vectors (active_memories-All s project_id)
                h.stored)
              h.ranked
      ]
