-- ===== src/Budget/Tests.antt =====
-- Runs of src/recallpack/budget.py with a token for the pack and one for each of its memories.
use recallpack.Base.{
  ℕ, String, some, List, [], ◌∷◌, ◌⊎◌, ◌≡◌, ◌≢◌, refl, ok, err, str_eq, if◌then◌else◌, true, false,
}
use recallpack.Json.{Json, str, arr, obj, Items, nil, cons, Fields, field, end}
use recallpack.Budget.{
  Tokenizer, budget_too_small, count, canonical_pack, fits, select_from, select,
}
use recallpack.Budget.Greedy.{IsSublist, Extends, select-within, select-append, select-total}

program : Unit {0}
unfolding count canonical_pack fits select_from select str_eq
program = tt

-- A text for each number of memories.
abbrev letters : Items → String
letters nil = "none"
letters (cons j nil) = "one"
letters (cons j (cons k js)) = "more"

abbrev dump : Json → String
dump (obj (field k (arr js) end)) = letters js
dump _ = "?"

abbrev tokens : String → List ℕ
tokens text =
    if str_eq text "none" then 1 ∷ [] else if str_eq text "one" then 1 ∷ 1 ∷ [] else 1 ∷ 1 ∷ 1 ∷ []

abbrev tokenizer : Tokenizer
tokenizer = record { dumps = dump; encode = λ text. some (tokens text) }

abbrev first_memory : Fields
first_memory = field "id" (str "a") end

abbrev second_memory : Fields
second_memory = field "id" (str "b") end

no_room : select tokenizer 0 [] ≢ ok []
unfolding program
no_room = cc

too_small :
    select (record tokenizer { encode = λ text. some (1 ∷ 1 ∷ 1 ∷ []) }) 2 [] ≡ err budget_too_small
unfolding program
too_small = refl

select-within_example :
    IsSublist (first_memory ∷ []) (first_memory ∷ second_memory ∷ [])
    × (fits tokenizer 2 (first_memory ∷ []) ≡ ok true)
unfolding program
select-within_example =
    select-within tokenizer 2 (first_memory ∷ second_memory ∷ []) (first_memory ∷ []) refl

select-append_example :
    (first : List Fields) × (select tokenizer 2 (first_memory ∷ []) ≡ ok first)
    × Extends tokenizer 2 first (second_memory ∷ []) (first_memory ∷ [])
unfolding program
select-append_example =
    select-append tokenizer 2 (first_memory ∷ []) (second_memory ∷ []) (first_memory ∷ []) refl

select-total_example :
    ((fits tokenizer 2 [] ≡ ok true)
      × (pack : List Fields) × (select tokenizer 2 (second_memory ∷ []) ≡ ok pack))
    ⊎ ((fits tokenizer 2 [] ≡ ok false)
        × (select tokenizer 2 (second_memory ∷ []) ≡ err budget_too_small))
unfolding program
select-total_example =
    select-total tokenizer 2 (λ text. (tokens text, refl)) refl (second_memory ∷ [])
