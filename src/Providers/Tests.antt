-- ===== src/Providers/Tests.antt =====
-- Answers of the model that src/recallpack/providers.py reads.
use recallpack.Base.{
  true, ◌↔◌, ℕ, Bool, false, none, some, List, [], ◌∷◌, ◌≡◌, ◌⊎◌, ok, err, String, ◌==◌,
}
use recallpack.Json.{Json, Items, pos, str, null, arr, obj, nil, cons, Fields, field, end}
use recallpack.Observe.Trace.{retryable_error}
use recallpack.Providers.Arguments.{Texts, normalize_index_list, parse_memory_decision_message}
use recallpack.Normalize.Parts.{distinct_indexes, valid_index_array}
use recallpack.Providers.Decision.{read_decision, decider_outcome}
use recallpack.Providers.Settled.{read_decision-outcome}
use recallpack.Providers.Indexes.{StandForAll, normalize_index_list-valid}

abbrev is_digits : List ℕ → Bool
is_digits [] = false
is_digits (c ∷ cs) = c == 55

abbrev texts : Texts
texts = record {
  strip = λ t. t;
  isdigit = is_digits;
  int_of = λ t. some (pos 7);
  loads = λ t. none;
}

-- The content is cut off.
abbrev message : Fields
message = field "content" (str "{\"operation\": ") end

read_decision-outcome_example :
    ((arguments : Fields) × (parse_memory_decision_message texts message "decide_memory_operation"
          "qwen"
        ≡ ok arguments)
      × (decider_outcome (read_decision texts "decide_memory_operation" "qwen" none end message)
          ≡ ok (obj arguments)))
    ⊎ ((text : String) × (decider_outcome
            (read_decision texts "decide_memory_operation" "qwen" none end message)
          ≡ err (retryable_error "model_output_unparseable" text)))
read_decision-outcome_example =
    read_decision-outcome texts "decide_memory_operation" "qwen" none end message

-- A number in digits, and nothing.
abbrev given : Items
given = cons (str "7") (cons null nil)

normalize_index_list-valid_example :
    ((k : Json) × (normalize_index_list texts (arr given) ≡ ok k)
      × (valid_index_array k ≡ some (pos 7 ∷ [])))
    ↔ (StandForAll texts given (pos 7 ∷ []) × (distinct_indexes (pos 7 ∷ []) ≡ true))
normalize_index_list-valid_example = normalize_index_list-valid texts given (pos 7 ∷ [])
