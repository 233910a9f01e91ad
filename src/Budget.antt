-- ===== src/Budget.antt =====
-- src/recallpack/budget.py, and `ExactTokenizer.count` of src/recallpack/tokenization.py: the choice
-- of the memories that fit a budget of tokens.
pub mod Greedy
mod Tests
use recallpack.Base.{
  ℕ, String, Bool, Option, none, some, List, [], ◌∷◌, ◌++◌, length, ltb, leb, if◌then◌else◌, Result,
  ok, err, ◌>>=◌,
}
use recallpack.Json.{Json, arr, obj, Items, nil, cons, Fields, end, field}

-- What is taken from outside: `json.dumps` with sorted keys, and the encoding of `tiktoken`, which
-- has no tokens for a text that it cannot encode.
pub record Tokenizer : Type 0 where
  pub dumps : Json → String
  pub encode : String → Option (List ℕ)

pub data BudgetError : Type 0 where
  max_tokens_not_positive budget_too_small tokenizer_unavailable : BudgetError

-- `ExactTokenizer.count`
unfoldable pub count : Tokenizer → String → Result BudgetError ℕ
count t text = elim (t.encode text) [
  | none ↦ err tokenizer_unavailable
  | some tokens ↦ ok (length tokens)
]

abbrev pub as_items : List Fields → Items
as_items [] = nil
as_items (m ∷ ms) = cons (obj m) (as_items ms)

-- `canonical_json({"memories": …})`
unfoldable pub canonical_pack : Tokenizer → List Fields → String
canonical_pack t memories = t.dumps (obj (field "memories" (arr (as_items memories)) end))

-- The test of a pack against the budget.
unfoldable pub fits : Tokenizer → ℕ → List Fields → Result BudgetError Bool
fits t max_tokens memories = do
  tokens ← count t (canonical_pack t memories)
  ok (leb tokens max_tokens)

-- The loop of `select`.
unfoldable pub select_from :
    Tokenizer → ℕ → List Fields → List Fields → Result BudgetError (List Fields)
select_from t max_tokens selected [] = ok selected
select_from t max_tokens selected (candidate ∷ candidates) = do
  fit ← fits t max_tokens (selected ++ (candidate ∷ []))
  select_from t max_tokens (if fit then selected ++ (candidate ∷ []) else selected) candidates

-- `BudgetSelector(max_tokens).select`
unfoldable pub select : Tokenizer → ℕ → List Fields → Result BudgetError (List Fields)
select t max_tokens candidates = if ltb max_tokens 1 then err max_tokens_not_positive else do
  empty_fits ← fits t max_tokens []
  if empty_fits then select_from t max_tokens [] candidates else err budget_too_small
