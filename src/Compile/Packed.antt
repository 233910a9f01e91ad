-- ===== src/Compile/Packed.antt =====
-- What src/recallpack/compile.py guarantees of the pack that it returns.
use recallpack.Base.{
  ℕ, ◌≤◌, String, true, ◌&&◌, Option, none, some, List, [], ◌∷◌, ◌≡◌, ◌⊎◌, sym, ap, subst, ◌∙◌, inl,
  inr, arith, map, keep, length, is_nonempty, str_eq, All, All-keep, keep-All, All-imp, Bool-cases,
  Option-cases, Result-cases, str_eq_sound, opt_str_eq_sound, ok, ◌>>=◌, >>=-eq-ok,
}
use recallpack.Json.{Json, Fields, member}
use recallpack.Library.{Library}
use recallpack.Memory.{MemoryRecord}
use recallpack.Budget.{Tokenizer, fits, select}
use recallpack.Budget.Greedy.{IsSublist, select-within}
use recallpack.Store.Rows.{Store}
use recallpack.Store.Query.{active_memories, is_active_memory}
use recallpack.Compile.Rank.{Floats}
use recallpack.Compile.Retrieve.{CompileRequest, scope_overlaps, load_candidates, retrieve}
use recallpack.Compile.Serve.{
  Ranking, Ranker, ids_of, same_texts, valid_permutation, valid_contract, expected_order,
  ask_ranker, rerank, to_pack_item, select_pack, omissions_of, CompileResult, budget_of,
  compile_pack, compile,
}
use recallpack.Compile.Retrieved.{order_rows-All, retrieve-IsRetrieved}

-- A memory that a compilation may use.
pub record IsEligible (s : Store) (request : CompileRequest) (m : MemoryRecord) : Type 0 where
  project : m.project_id ≡ request.project_id
  active : is_active_memory s.relations m ≡ true
  scoped : (m.scope_level ≡ "project") ⊎ (m.component ≡ some request.component)

-- A pack, with what it was chosen from.
pub record IsPacked (lib : Library) (f : Floats) (t : Tokenizer) (ranker : Ranker) (s : Store)
    (request : CompileRequest) (result : CompileResult) : Type 0 where
  pub status : result.status_code ≡ 200
  pub budget : ℕ
  pub budget_is : budget_of request.budget_tokens ≡ some budget
  pub within : fits t budget result.pack ≡ ok true
  pub candidates : List MemoryRecord
  pub eligible : All (IsEligible s request) candidates
  pub few : length candidates ≤ 20
  pub ranking : Ranking
  pub asked : ask_ranker ranker request.goal candidates ≡ some ranking
  pub permuted : valid_permutation ranking.ranked candidates ≡ true
  pub in_order :
      is_nonempty candidates ≡ true
      → same_texts (ids_of ranking.ranked) (ids_of (expected_order lib f ranking.scores candidates))
        ≡ true
  pub chosen : IsSublist result.pack (map to_pack_item ranking.ranked)

pub active_memories-All :
    (s : Store) (project_id : String)
    → All
        (λ m. (str_eq m.project_id project_id && is_active_memory s.relations m) ≡ true)
        (active_memories s project_id)
unfolding active_memories
active_memories-All s project_id =
    order_rows-All (λ m. (str_eq m.project_id project_id && is_active_memory s.relations m) ≡ true)
      (keep (λ m. str_eq m.project_id project_id && is_active_memory s.relations m) s.memories)
      (keep-All (λ m. str_eq m.project_id project_id && is_active_memory s.relations m) s.memories)

both-All :
    (P Q : MemoryRecord → Type 0) (ms : List MemoryRecord)
    → All P ms
    → All Q ms
    → All (λ m. P m × Q m) ms
both-All P Q [] ps qs = tt
both-All P Q (m ∷ ms) ps qs = ((ps.0, qs.0), both-All P Q ms ps.1 qs.1)

module _ (s : Store) (request : CompileRequest) where
  abbrev IsOurs : MemoryRecord → Type 0
  IsOurs m = (str_eq m.project_id request.project_id && is_active_memory s.relations m) ≡ true

  in_scope :
      (m : MemoryRecord)
      → scope_overlaps request.component m ≡ true
      → (m.scope_level ≡ "project") ⊎ (m.component ≡ some request.component)
  unfolding scope_overlaps
  in_scope m h = elim (Bool-cases (str_eq m.scope_level "project")) [
    | inl everywhere ↦ inl (str_eq_sound m.scope_level "project" everywhere)
    | inr elsewhere ↦ inr (opt_str_eq_sound m.component (some request.component) (ground arith))
  ]

  is_eligible :
      (m : MemoryRecord)
      → IsOurs m × (scope_overlaps request.component m ≡ true)
      → IsEligible s request m
  is_eligible m h = record {
    project = str_eq_sound m.project_id request.project_id (ground arith);
    active = ground arith;
    scoped = in_scope m h.1;
  }

  load_candidates-IsEligible :
      All (IsEligible s request) (load_candidates request (active_memories s request.project_id))
  unfolding load_candidates
  load_candidates-IsEligible =
      let active = active_memories s request.project_id in
      let ours =
        All-keep IsOurs (scope_overlaps request.component) active
          (active_memories-All s request.project_id) in
      let scoped = keep-All (scope_overlaps request.component) active in
      All-imp (keep (scope_overlaps request.component) active) is_eligible (
        both-All IsOurs (λ m. scope_overlaps request.component m ≡ true)
          (keep (scope_overlaps request.component) active) ours scoped)

module _ (lib : Library) (f : Floats) (t : Tokenizer) (ranker : Ranker) where
  -- The ranking that `_rerank` let through.
  record IsRanked (goal : String) (candidates ranked : List MemoryRecord) : Type 0 where
    ranking : Ranking
    asked : ask_ranker ranker goal candidates ≡ some ranking
    permuted : valid_permutation ranking.ranked candidates ≡ true
    contract : valid_contract lib f ranking candidates ≡ true
    ranked_is : ranking.ranked ≡ ranked

  rerank-IsRanked :
      (goal : String) (candidates ranked : List MemoryRecord)
      → rerank lib f ranker goal candidates ≡ ok ranked
      → IsRanked goal candidates ranked
  unfolding rerank
  rerank-IsRanked goal candidates ranked e =
      elim (Option-cases (ask_ranker ranker goal candidates)) [
        | inl failed ↦ absurd (ground arith)
        | inr (r, asked) ↦
            elim (Bool-cases
              (valid_permutation r.ranked candidates && valid_contract lib f r candidates)) [
                | inr bad ↦ absurd (ground arith)
                | inl good ↦ record {
                  ranking = r;
                  asked = asked;
                  permuted = ground arith;
                  contract = ground arith;
                  ranked_is = ground arith;
                }
              ]
      ]

  contract-order :
      (r : Ranking) (candidates : List MemoryRecord)
      → valid_contract lib f r candidates ≡ true
      → is_nonempty candidates ≡ true
      → same_texts (ids_of r.ranked) (ids_of (expected_order lib f r.scores candidates)) ≡ true
  unfolding valid_contract
  contract-order r candidates h some_left = ground arith

  select_pack-within :
      (budget : ℕ) (ranked : List MemoryRecord) (pack : List Fields)
      → select_pack t budget ranked ≡ ok pack
      → IsSublist pack (map to_pack_item ranked) × (fits t budget pack ≡ ok true)
  unfolding select_pack
  select_pack-within budget ranked pack e =
      elim (Result-cases (select t budget (map to_pack_item ranked))) [
        | inr (bad, failed) ↦ absurd (ground arith)
        | inl (p, chosen) ↦
            let same : p ≡ pack = ground arith in
            select-within t budget (map to_pack_item ranked) pack (chosen ∙ ap ok same)
      ]

  compile_pack-IsPacked :
      (embed : String → Option Json) (s : Store) (request : CompileRequest) (budget : ℕ)
      (result : CompileResult)
      → budget_of request.budget_tokens ≡ some budget
      → compile_pack lib f t embed ranker s request budget ≡ ok result
      → IsPacked lib f t ranker s request result
  unfolding compile_pack
  compile_pack-IsPacked embed s request budget result allowed e =
      let candidates = load_candidates request (active_memories s request.project_id) in
      let (r, retrieved, e₁) =
        >>=-eq-ok (retrieve lib f embed request.goal candidates)
          (λ r. rerank lib f ranker request.goal r.candidates >>= λ ranked.
            select_pack t budget ranked >>= λ pack. ok (record {
              status_code = 200;
              pack = pack;
              error = none;
              omissions = omissions_of r.omitted ranked pack;
            }))
          e in
      let (ranked, in_rank, e₂) =
        >>=-eq-ok (rerank lib f ranker request.goal r.candidates)
          (λ ranked. select_pack t budget ranked >>= λ pack. ok (record {
            status_code = 200;
            pack = pack;
            error = none;
            omissions = omissions_of r.omitted ranked pack;
          }))
          e₁ in
      let (pack, selected, e₃) =
        >>=-eq-ok (select_pack t budget ranked)
          (λ pack. ok (record {
            status_code = 200;
            pack = pack;
            error = none;
            omissions = omissions_of r.omitted ranked pack;
          }))
          e₂ in
      let x = rerank-IsRanked request.goal r.candidates ranked in_rank in
      let found =
        retrieve-IsRetrieved (IsEligible s request) lib f embed request.goal candidates r
          (load_candidates-IsEligible s request) retrieved in
      let within = select_pack-within budget ranked pack selected in
      let pack_is : pack ≡ result.pack = ground arith in
      record {
        status = ground arith;
        budget = budget;
        budget_is = allowed;
        within = subst (λ p. fits t budget p ≡ ok true) pack_is within.1;
        candidates = r.candidates;
        eligible = found.0;
        few = found.1;
        ranking = x.ranking;
        asked = x.asked;
        permuted = x.permuted;
        in_order = contract-order x.ranking r.candidates x.contract;
        chosen =
            subst (λ p. IsSublist p (map to_pack_item x.ranking.ranked)) pack_is
              (subst (λ l. IsSublist pack (map to_pack_item l)) (sym x.ranked_is) within.0);
      }

-- A compilation without an error has status 200, and its pack is within the requested budget. The pack
-- is chosen in order from a ranking of at most twenty memories that are active, of the project, and of
-- the whole project or the requested component; the identifiers in the ranking are theirs, in the order
-- of the scores, then of the newer event, then of the identifier.
pub compile-IsPacked :
    (lib : Library) (f : Floats) (t : Tokenizer) (embed : String → Option Json) (ranker : Ranker)
    (components : List String) (s : Store) (request : CompileRequest)
    → (compile lib f t embed ranker components s request).error ≡ none
    → IsPacked lib f t ranker s request (compile lib f t embed ranker components s request)
unfolding compile
compile-IsPacked lib f t embed ranker components s request h =
    elim (Bool-cases (member request.component components)) [
      | inr unknown ↦ absurd (ground arith)
      | inl known ↦ elim (Option-cases (budget_of request.budget_tokens)) [
        | inl refused ↦ absurd (ground arith)
        | inr (budget, allowed) ↦
            elim (Result-cases (compile_pack lib f t embed ranker s request budget)) [
              | inr (e, failed) ↦ absurd (ground arith)
              | inl (result, done) ↦
                  rw (known, allowed, done)
                    (compile_pack-IsPacked lib f t ranker embed s request budget result allowed
                      done)
            ]
      ]
    ]
