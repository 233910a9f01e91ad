-- ===== src/Compile/Stale.antt =====
-- `CompileService.compile` of src/recallpack/compile.py where no memory is left to rank.
use recallpack.Base.{
  ℕ, String, true, false, Option, none, some, List, [], ◌≡◌, refl, inl, inr, arith, keep,
  is_nonempty, ltb, if◌then◌else◌, Bool-cases, ok, err,
}
use recallpack.Json.{Json, member}
use recallpack.Library.{Library}
use recallpack.Budget.{Tokenizer, fits, select, select_from}
use recallpack.Store.Rows.{Store}
use recallpack.Store.Query.{active_memories}
use recallpack.Compile.Rank.{Floats}
use recallpack.Compile.Retrieve.{CompileRequest, load_candidates, stored_vectors, top_n, retrieve}
use recallpack.Compile.Serve.{
  Ranker, same_texts, valid_permutation, valid_contract, ask_ranker, rerank, select_pack,
  omissions_of, failed_with, budget_of, compile_pack, compile,
}

-- A memory that a compilation may use.

retrieve-none :
    (lib : Library) (f : Floats) (embed : String → Option Json) (goal : String)
    → retrieve lib f embed goal [] ≡ ok (record { candidates = []; omitted = [] })
unfolding retrieve stored_vectors top_n
retrieve-none lib f embed goal = refl

rerank-none :
    (lib : Library) (f : Floats) (ranker : Ranker) (goal : String)
    → rerank lib f ranker goal [] ≡ (
        if is_nonempty ranker.last_scores
        then err (record { error = "rerank_failure"; status_code = 503 })
        else ok [])
unfolding rerank ask_ranker valid_contract valid_permutation same_texts
rerank-none lib f ranker goal = ground arith

select-none :
    (t : Tokenizer) (budget : ℕ)
    → ltb budget 1 ≡ false
    → fits t budget [] ≡ ok true
    → select t budget [] ≡ ok []
unfolding select select_from
select-none t budget positive room = rw (positive, room) refl

select_pack-none :
    (t : Tokenizer) (budget : ℕ)
    → ltb budget 1 ≡ false
    → fits t budget [] ≡ ok true
    → select_pack t budget [] ≡ ok []
unfolding select_pack
select_pack-none t budget positive room = rw (select-none t budget positive room, select_pack) refl

-- With a known component, a valid budget with room for the empty pack, and no memory that the
-- compilation may use, the answer depends on the scores that the ranker holds from its last call: an
-- empty pack if it holds none, and a failure of the ranking if it holds any.
pub compile-stale_scores :
    (lib : Library) (f : Floats) (t : Tokenizer) (embed : String → Option Json) (ranker : Ranker)
    (components : List String) (s : Store) (request : CompileRequest) (budget : ℕ)
    → member request.component components ≡ true
    → budget_of request.budget_tokens ≡ some budget
    → ltb budget 1 ≡ false
    → fits t budget [] ≡ ok true
    → load_candidates request (active_memories s request.project_id) ≡ []
    → compile lib f t embed ranker components s request ≡ (
        if is_nonempty ranker.last_scores
        then failed_with (record { error = "rerank_failure"; status_code = 503 })
        else record { status_code = 200; pack = []; error = none; omissions = [] })
unfolding compile compile_pack omissions_of keep
compile-stale_scores lib f t embed ranker components s request budget known allowed positive room
      none_left =
    elim (Bool-cases (is_nonempty ranker.last_scores)) [
      | inl stale ↦
          rw
            (
              known,
              allowed,
              none_left,
              retrieve-none lib f embed request.goal,
              rerank-none lib f ranker request.goal,
              stale,
            )
            refl
      | inr clean ↦
          rw
            (
              known,
              allowed,
              none_left,
              retrieve-none lib f embed request.goal,
              rerank-none lib f ranker request.goal,
              clean,
              select_pack-none t budget positive room,
            )
            refl
    ]
