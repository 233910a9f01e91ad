-- ===== src/Providers/Arguments.antt =====
-- How src/recallpack/providers.py reads the arguments of a memory decision from an answer of the model.
use recallpack.Base.{
  ℕ, String, Bool, true, false, ◌&&◌, ◌||◌, Option, none, some, List, [], ◌∷◌, drop, ◌==◌, str_eq,
  if◌then◌else◌, Result, ok, err, ◌>>=◌,
}
use recallpack.Json.{
  ℤ, Json, null, int, str, arr, obj, Items, nil, cons, Fields, end, get, set_field, is_null,
  is_text,
}
use recallpack.Match.{codes, lower, codes_eq, begins}
use recallpack.Observe.Trace.{Raised, value_error, provider_error, get_or}

-- What the code takes from Python's texts, a text as its code points: `strip`, `isdigit`, `int`, where none is
-- the ValueError, and `json.loads`, where none is the JSONDecodeError.
pub record Texts : Type 0 where
  pub strip : List ℕ → List ℕ
  pub isdigit : List ℕ → Bool
  pub int_of : List ℕ → Option ℤ
  pub loads : List ℕ → Option Json

-- `ProviderError.terminal` of the live provider.
abbrev pub terminal_failure : String → String → Raised
terminal_failure model_id message = provider_error (record {
  provider_name = "qwen-cloud";
  model_id = model_id;
  message = message;
  retryable = false;
  request_id = none;
  usage = end;
  code = "provider_terminal_failure";
})

abbrev pub is_empty_text : List ℕ → Bool
is_empty_text [] = true
is_empty_text (c ∷ cs) = false

-- `_normalize_memory_argument`
unfoldable pub normalize_memory_argument : Texts → String → Json → Result Raised Json
normalize_memory_argument texts model_id (str value) =
    let stripped = texts.strip (codes value) in
    if is_empty_text stripped || codes_eq (lower stripped) (codes "null")
    then ok null
    else elim (texts.loads stripped) [
      | none ↦ err (
          terminal_failure model_id
            "Qwen memory decision returned string memory that was not valid JSON.")
      | some parsed ↦ ok parsed
    ]
normalize_memory_argument texts model_id value = ok value

-- `_normalize_optional_index`
unfoldable pub normalize_optional_index : Texts → Json → Result Raised Json
normalize_optional_index texts (str value) =
    if str_eq value ""
    then ok null
    else if texts.isdigit (texts.strip (codes value))
    then elim (texts.int_of (texts.strip (codes value))) [
      | none ↦ err (value_error "invalid literal for int()")
      | some n ↦ ok (int n)
    ]
    else ok (str value)
normalize_optional_index texts value = ok value

abbrev pub prepend : Json → Items → Items
prepend index rest = if is_null index then rest else cons index rest

abbrev pub normalize_items : Texts → Items → Result Raised Items
normalize_items texts nil = ok nil
normalize_items texts (cons j js) = do
  index ← normalize_optional_index texts j
  rest ← normalize_items texts js
  ok (prepend index rest)

-- `_normalize_index_list`
unfoldable pub normalize_index_list : Texts → Json → Result Raised Json
normalize_index_list texts null = ok (arr nil)
normalize_index_list texts (str value) = ok (if str_eq value "" then arr nil else str value)
normalize_index_list texts (arr js) = do indexes ← normalize_items texts js; ok (arr indexes)
normalize_index_list texts value = ok value

-- `_normalize_memory_decision_arguments`
unfoldable pub normalize_memory_decision_arguments : Texts → String → Fields → Result Raised Fields
normalize_memory_decision_arguments texts model_id arguments = do
  memory ← normalize_memory_argument texts model_id (get "memory" arguments)
  index ← normalize_optional_index texts (get "duplicate_of_candidate_index" arguments)
  indexes ← normalize_index_list texts (get_or "supersedes_candidate_indexes" (arr nil) arguments)
  ok (
      set_field "supersedes_candidate_indexes" indexes
        (set_field "duplicate_of_candidate_index" index (set_field "memory" memory arguments)))

abbrev pub drop_ticks : List ℕ → List ℕ
drop_ticks [] = []
drop_ticks (c ∷ cs) = if c == 96 then drop_ticks cs else c ∷ cs

abbrev pub drop_last_ticks : List ℕ → List ℕ
drop_last_ticks [] = []
drop_last_ticks (c ∷ cs) =
    let rest = drop_last_ticks cs in if is_empty_text rest && c == 96 then [] else c ∷ rest

-- The text from the first "{" on.
abbrev pub from_brace : List ℕ → List ℕ
from_brace [] = []
from_brace (c ∷ cs) = if c == 123 then c ∷ cs else from_brace cs

-- The text to the last "}"; empty where there is none.
abbrev pub to_brace : List ℕ → List ℕ
to_brace [] = []
to_brace (c ∷ cs) =
    let rest = to_brace cs in
    if is_empty_text rest then (if c == 125 then c ∷ [] else []) else c ∷ rest

abbrev pub without_language : Texts → List ℕ → List ℕ
without_language texts inner =
    if begins inner (codes "json") then texts.strip (drop 4 inner) else inner

-- The fence of a block of Markdown is taken off.
unfoldable pub without_fence : Texts → List ℕ → List ℕ
without_fence texts stripped =
    if begins stripped (codes "```")
    then without_language texts (drop_last_ticks (drop_ticks stripped))
    else stripped

-- `_parse_json_object`; the JSONDecodeError is a ValueError.
unfoldable pub parse_json_object : Texts → String → Result Raised Fields
parse_json_object texts content =
    let text = to_brace (from_brace (without_fence texts (texts.strip (codes content)))) in
    if is_empty_text text
    then err (
        terminal_failure "qwen-text" "Qwen memory decision response did not contain a JSON object.")
    else elim (texts.loads text) [
      | none ↦ err (value_error "json")
      | some (obj parsed) ↦ ok parsed
      | some _ ↦
          err (terminal_failure "qwen-text" "Qwen memory decision response JSON was not an object.")
    ]

-- The arguments of a tool call of the expected name; none where the loop goes on.
abbrev pub arguments_of : String → Json → Option Json
arguments_of expected_tool_name (obj tool_call) = elim (get "function" tool_call) [
  | obj function ↦
      if is_text (get "name" function) expected_tool_name
      then elim (get "arguments" function) [
        | obj arguments ↦ some (obj arguments)
        | str arguments ↦ some (str arguments)
        | _ ↦ none
      ]
      else none
  | _ ↦ none
]
arguments_of expected_tool_name _ = none

abbrev pub first_arguments : String → Items → Option Json
first_arguments expected_tool_name nil = none
first_arguments expected_tool_name (cons j js) =
    let later = first_arguments expected_tool_name js in
    elim (arguments_of expected_tool_name j) [ some arguments ↦ some arguments | none ↦ later ]

abbrev pub tool_arguments : String → Json → Option Json
tool_arguments expected_tool_name (arr tool_calls) = first_arguments expected_tool_name tool_calls
tool_arguments expected_tool_name _ = none

-- A dictionary, or the text of one.
abbrev pub arguments_from : Texts → Json → Result Raised Fields
arguments_from texts (obj arguments) = ok arguments
arguments_from texts (str content) = parse_json_object texts content
arguments_from texts _ = err (
    terminal_failure "qwen-text"
      "Qwen memory decision response did not include tool arguments or JSON content.")

-- `_parse_memory_decision_message`
unfoldable pub parse_memory_decision_message :
    Texts → Fields → String → String → Result Raised Fields
parse_memory_decision_message texts message expected_tool_name model_id =
    elim (tool_arguments expected_tool_name (get "tool_calls" message)) [
      | some arguments ↦
          arguments_from texts arguments >>= normalize_memory_decision_arguments texts model_id
      | none ↦ elim (get_or "content" (str "{}") message) [
        | str content ↦
            parse_json_object texts content >>= normalize_memory_decision_arguments texts model_id
        | _ ↦ err (
            terminal_failure model_id
              "Qwen memory decision response did not include tool arguments or JSON content.")
      ]
    ]
