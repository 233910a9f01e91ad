-- ===== src/Compile/Retrieved.antt =====
-- What src/recallpack/compile.py retrieves: at most twenty of the candidates, of which every property
-- of a candidate still holds.
use recallpack.Base.{
  suc, ◌≤◌, String, Option, List, [], ◌∷◌, ◌≡◌, refl, ap, subst, ◌∙◌, inl, inr, arith, map, take,
  length, length-take-le, is_nonempty, All, All-take, All-imp, Bool-cases, Option-cases,
  Result-cases, ok, ◌>>=◌, >>=-eq-ok,
}
use recallpack.Json.{Json}
use recallpack.Library.{Library}
use recallpack.Memory.{MemoryRecord}
use recallpack.Embedding.{validated_vector, validated_stored_vector}
use recallpack.Store.Query.{order_rows, insert_row, row_before}
use recallpack.Compile.Rank.{
  Floats, Scored, cosine_similarity, ranks_before, insert_ranked, rank_order,
}
use recallpack.Compile.Retrieve.{Retrieval, stored_vectors, scored_with, split_top, top_n, retrieve}

-- A sort keeps what holds of all rows.
insert_row-All :
    (P : MemoryRecord → Type 0) (m : MemoryRecord) (ms : List MemoryRecord)
    → P m
    → All P ms
    → All P (insert_row m ms)
unfolding insert_row
insert_row-All P m [] h hs = (h, tt)
insert_row-All P m (x ∷ xs) h hs = elim (Bool-cases (row_before x m)) [
  | inl later ↦ rw later (hs.0, insert_row-All P m xs h hs.1)
  | inr here ↦ rw here (h, hs)
]

pub order_rows-All :
    (P : MemoryRecord → Type 0) (ms : List MemoryRecord) → All P ms → All P (order_rows ms)
unfolding order_rows
order_rows-All P [] hs = tt
order_rows-All P (m ∷ ms) hs = insert_row-All P m (order_rows ms) hs.0 (order_rows-All P ms hs.1)

insert_ranked-All :
    (P : Scored → Type 0) (f : Floats) (x : Scored) (ys : List Scored)
    → P x
    → All P ys
    → All P (insert_ranked f x ys)
unfolding insert_ranked
insert_ranked-All P f x [] h hs = (h, tt)
insert_ranked-All P f x (y ∷ ys) h hs = elim (Bool-cases (ranks_before f y x)) [
  | inl later ↦ rw later (hs.0, insert_ranked-All P f x ys h hs.1)
  | inr here ↦ rw here (h, hs)
]

pub rank_order-All :
    (P : Scored → Type 0) (f : Floats) (xs : List Scored) → All P xs → All P (rank_order f xs)
unfolding rank_order
rank_order-All P f [] hs = tt
rank_order-All P f (x ∷ xs) hs =
    insert_ranked-All P f x (rank_order f xs) hs.0 (rank_order-All P f xs hs.1)

memories-All :
    (P : MemoryRecord → Type 0) (xs : List Scored)
    → All (λ x. P x.memory) xs
    → All P (map (λ x. x.memory) xs)
memories-All P [] hs = tt
memories-All P (x ∷ xs) hs = (hs.0, memories-All P xs hs.1)

length-memories : (xs : List Scored) → length (map (λ x. x.memory) xs) ≡ length xs
length-memories [] = refl
length-memories (x ∷ xs) = ap suc (length-memories xs)

-- The vectors that are ranked are valid ones that are stored for the memories.
pub stored_vectors-All :
    (P : MemoryRecord → Type 0) (lib : Library) (ms : List MemoryRecord)
    (vs : List (MemoryRecord × Json))
    → All P ms
    → stored_vectors lib ms ≡ ok vs
    → All (λ v. P v.0 × (validated_stored_vector lib v.0 ≡ ok v.1)) vs
unfolding stored_vectors
stored_vectors-All P lib [] vs hs e =
    let same : [] ≡ vs = ground arith in
    subst (All (λ v. P v.0 × (validated_stored_vector lib v.0 ≡ ok v.1))) same tt
stored_vectors-All P lib (m ∷ ms) vs hs e =
    let (vector, valid, e₁) =
      >>=-eq-ok (validated_stored_vector lib m)
        (λ vector. stored_vectors lib ms >>= λ rest. ok ((m, vector) ∷ rest)) e in
    let (rest, valids, e₂) =
      >>=-eq-ok (stored_vectors lib ms) (λ rest. ok ((m, vector) ∷ rest)) e₁ in
    let same : (m, vector) ∷ rest ≡ vs = ground arith in
    subst (All (λ v. P v.0 × (validated_stored_vector lib v.0 ≡ ok v.1))) same
      ((hs.0, valid), stored_vectors-All P lib ms rest hs.1 valids)

-- A score that was computed from a memory and the vector stored for it.
abbrev pub IsScore : (MemoryRecord × Json → Type 0) → Floats → Json → Scored → Type 0
IsScore Q f query x =
    (vector : Json) × Q (x.memory, vector) × (cosine_similarity f query vector ≡ ok x.score)

pub scored_with-All :
    (Q : MemoryRecord × Json → Type 0) (f : Floats) (query : Json) (vs : List (MemoryRecord × Json))
    (xs : List Scored)
    → All Q vs
    → scored_with f query vs ≡ ok xs
    → All (IsScore Q f query) xs
unfolding scored_with
scored_with-All Q f query [] xs hs e =
    let same : [] ≡ xs = ground arith in subst (All (IsScore Q f query)) same tt
scored_with-All Q f query (v ∷ vs) xs hs e =
    let (score, valid, e₁) =
      >>=-eq-ok (cosine_similarity f query v.1)
        (λ score.
          scored_with f query vs >>= λ rest. ok (record { score = score; memory = v.0 } ∷ rest))
        e in
    let (rest, valids, e₂) =
      >>=-eq-ok (scored_with f query vs)
        (λ rest. ok (record { score = score; memory = v.0 } ∷ rest)) e₁ in
    let first : Scored = record { score = score; memory = v.0 } in
    let same : first ∷ rest ≡ xs = ground arith in
    subst (All (IsScore Q f query)) same
      ((v.1, hs.0, valid), scored_with-All Q f query vs rest hs.1 valids)

module _ (P : MemoryRecord → Type 0) (lib : Library) (f : Floats) where
  score_memory : (query : Json) (x : Scored) → IsScore (λ v. P v.0) f query x → P x.memory
  score_memory query x h = h.1

  -- What is retrieved: at most twenty of the candidates.
  abbrev pub IsRetrieved : Retrieval → Type 0
  IsRetrieved r = All P r.candidates × (length r.candidates ≤ 20)

  split_top-IsRetrieved : (xs : List Scored) → All (λ x. P x.memory) xs → IsRetrieved (split_top xs)
  unfolding split_top
  split_top-IsRetrieved xs hs = (
    memories-All P (take 20 xs) (All-take (λ x. P x.memory) 20 xs hs),
    omega (arith, length-memories (take 20 xs), length-take-le 20 xs),
  )

  top_n-IsRetrieved :
      (embed : String → Option Json) (goal : String) (vs : List (MemoryRecord × Json))
      (r : Retrieval)
      → All (λ v. P v.0) vs
      → top_n lib f embed goal vs ≡ ok r
      → IsRetrieved r
  unfolding top_n
  top_n-IsRetrieved embed goal vs r hs e = elim (Bool-cases (is_nonempty vs)) [
    | inr empty ↦
        let same : record { candidates = []; omitted = [] } ≡ r = ground arith in
        subst IsRetrieved same (tt, omega arith)
    | inl some_left ↦ elim (Option-cases (embed goal)) [
      | inl failed ↦ absurd (ground arith)
      | inr (answer, answered) ↦
          let e₀ : (validated_vector lib answer >>= λ query.
          scored_with f query vs >>= λ scored. ok (split_top (rank_order f scored)))
              ≡ ok r =
            ground arith in
          let (query, valid, e₁) =
            >>=-eq-ok (validated_vector lib answer)
              (λ query. scored_with f query vs >>= λ scored. ok (split_top (rank_order f scored)))
              e₀ in
          let (scored, scores, e₂) =
            >>=-eq-ok (scored_with f query vs) (λ scored. ok (split_top (rank_order f scored)))
              e₁ in
          let same : split_top (rank_order f scored) ≡ r = ground arith in
          subst IsRetrieved same (
            split_top-IsRetrieved (rank_order f scored) (
              rank_order-All (λ x. P x.memory) f scored
                (All-imp scored (score_memory query)
                  (scored_with-All (λ v. P v.0) f query vs scored hs scores))))
    ]
  ]

  pub retrieve-IsRetrieved :
      (embed : String → Option Json) (goal : String) (ms : List MemoryRecord) (r : Retrieval)
      → All P ms
      → retrieve lib f embed goal ms ≡ ok r
      → IsRetrieved r
  unfolding retrieve
  retrieve-IsRetrieved embed goal ms r hs e = elim (Result-cases (stored_vectors lib ms)) [
    | inr (bad, failed) ↦ absurd (ground arith)
    | inl (vs, valid) ↦ elim (Result-cases (top_n lib f embed goal vs)) [
      | inr (bad, failed) ↦ absurd (ground arith)
      | inl (r', done) ↦
          let same : r' ≡ r = ground arith in
          top_n-IsRetrieved embed goal vs r
            (All-imp vs (λ v h. h.0) (stored_vectors-All P lib ms vs hs valid)) (done ∙ ap ok same)
    ]
  ]
