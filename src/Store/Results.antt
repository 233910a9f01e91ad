-- ===== src/Store/Results.antt =====
-- The results that src/recallpack/storage.py stores for an event: their checks and their summaries.
use recallpack.Base.{
  String, Bool, true, false, ◌&&◌, Option, none, some, List, [], ◌∷◌, str_eq, if◌then◌else◌,
}
use recallpack.Json.{
  Json, null, str, arr, obj, Items, nil, cons, Fields, end, field, get, keys_are, is_null, is_text,
  nonempty_text, member, or_null, distinct_texts,
}
use recallpack.Memory.{NormalMemory}

-- `_terminal_no_op_result`
abbrev pub terminal_no_op_result : String → Fields
terminal_no_op_result reason =
    field "operation" (str "no_op") (field "memory" null (field "reason" (str reason) end))

-- `_memory_summary`
abbrev pub memory_summary : String → NormalMemory → String → String → Fields
memory_summary memory_id memory session_id event_id = field "id" (str memory_id) (
    field "type" (str memory.type) (
      field "subject" (str memory.subject) (
        field "text" (str memory.text) (
          field "scope_level" (str memory.scope_level) (
            field "component" (or_null memory.component) (
              field "source_ref"
                (obj (field "session_id" (str session_id) (field "event_id" (str event_id) end)))
                end))))))

abbrev pub is_one_of : Json → List String → Bool
is_one_of (str s) names = member s names
is_one_of _ names = false

unfoldable pub valid_source_ref : Json → Bool
valid_source_ref (obj ref) =
    keys_are ("session_id" ∷ "event_id" ∷ []) ref
    && nonempty_text (get "session_id" ref)
    && nonempty_text (get "event_id" ref)
valid_source_ref _ = false

abbrev pub summary_keys : List String
summary_keys = "id" ∷ "type" ∷ "subject" ∷ "text" ∷ "scope_level" ∷ "component" ∷ "source_ref" ∷ []

-- `_valid_memory_summary`. The code looks `type` and `scope_level` up in a set: a list or a
-- dictionary there raises, which counts as a refusal here.
unfoldable pub valid_memory_summary : Json → Bool
valid_memory_summary (obj value) =
    keys_are summary_keys value
    && nonempty_text (get "id" value)
    && nonempty_text (get "subject" value)
    && nonempty_text (get "text" value)
    && is_one_of (get "type" value) ("decision" ∷ "preference" ∷ "lesson" ∷ [])
    && (if is_text (get "scope_level" value) "project"
        then is_null (get "component" value)
        else true)
    && (if is_text (get "scope_level" value) "component"
        then nonempty_text (get "component" value)
        else true)
    && is_one_of (get "scope_level" value) ("project" ∷ "component" ∷ [])
    && valid_source_ref (get "source_ref" value)
valid_memory_summary _ = false

-- Every item is a text that is not empty, and none comes twice.
abbrev pub id_list : Items → Option (List String)
id_list nil = some []
id_list (cons j js) = elim j [
  | str s ↦
      if str_eq s "" then none else elim (id_list js) [ none ↦ none | some ss ↦ some (s ∷ ss) ]
  | _ ↦ none
]

unfoldable pub valid_superseded : Json → Bool
valid_superseded (arr js) = elim (id_list js) [ none ↦ false | some ss ↦ distinct_texts ss ]
valid_superseded _ = false

-- `_valid_v4_final_result`, of the value of the stored text.
unfoldable pub valid_v4_final_result : Option Json → Bool
valid_v4_final_result (some (obj result)) =
    if is_text (get "operation" result) "no_op"
    then keys_are ("operation" ∷ "reason" ∷ "memory" ∷ []) result
      && nonempty_text (get "reason" result)
      && is_null (get "memory" result)
    else if is_text (get "operation" result) "duplicate"
    then keys_are ("operation" ∷ "reason" ∷ "memory" ∷ "duplicate_of_memory_id" ∷ []) result
      && nonempty_text (get "reason" result)
      && is_null (get "memory" result)
      && nonempty_text (get "duplicate_of_memory_id" result)
    else if is_text (get "operation" result) "write"
    then keys_are ("operation" ∷ "reason" ∷ "memory" ∷ "superseded_memory_ids" ∷ []) result
      && nonempty_text (get "reason" result)
      && valid_memory_summary (get "memory" result)
      && valid_superseded (get "superseded_memory_ids" result)
    else false
valid_v4_final_result _ = false
