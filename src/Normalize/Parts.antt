-- ===== src/Normalize/Parts.antt =====
-- src/recallpack/observe.py: results without a memory, and the indexes that an operation names.
use mathlib.Core.Option
use recallpack.Base.{
  String, Bool, true, false, not, ◌&&◌, ◌||◌, Option, none, some, List, [], ◌∷◌, length, get_elem?,
  ltb, leb, min, if◌then◌else◌,
}
use recallpack.Json.{
  ℤ, pos, negsuc, Json, null, int, str, arr, Items, nil, cons, Fields, end, field, get, set_field,
  is_null, is_empty_list,
}
use recallpack.Memory.{MemoryRecord, NormalMemory}

pub record NormalizedOperation : Type 0 where
  pub final_result : Fields
  pub memory : Option NormalMemory
  pub supersedes_memory_ids : List String

-- `_final_result`
abbrev pub final_result : String → String → Fields
final_result operation reason =
    field "operation" (str operation) (field "memory" null (field "reason" (str reason) end))

-- `_terminal_no_op`
unfoldable pub terminal_no_op : String → NormalizedOperation
terminal_no_op reason = record {
  final_result = final_result "no_op" reason;
  memory = none;
  supersedes_memory_ids = [];
}

-- `_is_candidate_index`: an int that is no bool.
abbrev pub as_index : Json → Option ℤ
as_index (int i) = some i
as_index _ = none

-- `_candidate_exists`: the index as a place in the list, where it is one.
unfoldable pub candidate_at : ℤ → List MemoryRecord → Option MemoryRecord
candidate_at (pos n) candidates =
    if ltb n (min (length candidates) 8) then get_elem? candidates n else none
candidate_at (negsuc n) candidates = none

abbrev pub same_index : ℤ → ℤ → Bool
same_index (pos a) (pos b) = leb a b && leb b a
same_index (negsuc a) (negsuc b) = leb a b && leb b a
same_index (pos a) (negsuc b) = false
same_index (negsuc a) (pos b) = false

abbrev pub index_member : ℤ → List ℤ → Bool
index_member i [] = false
index_member i (j ∷ js) = same_index j i || index_member i js

abbrev pub distinct_indexes : List ℤ → Bool
distinct_indexes [] = true
distinct_indexes (i ∷ is) = not (index_member i is) && distinct_indexes is

abbrev pub indexes : Items → Option (List ℤ)
indexes nil = some []
indexes (cons j js) = elim (as_index j) [
  | none ↦ none
  | some i ↦ Option.map (λ is. i ∷ is) (indexes js)
]

-- `_valid_index_array`: a list of distinct indexes.
unfoldable pub valid_index_array : Json → Option (List ℤ)
valid_index_array (arr js) = elim (indexes js) [
  | none ↦ none
  | some is ↦ if distinct_indexes is then some is else none
]
valid_index_array _ = none

-- `_normalize_no_op`
unfoldable pub normalize_no_op : Fields → NormalizedOperation
normalize_no_op operation = elim (get "reason" operation) [
  | str reason ↦
      if is_null (get "memory" operation)
        && is_null (get "duplicate_of_candidate_index" operation)
        && is_empty_list (get "supersedes_candidate_indexes" operation)
      then record {
        final_result = final_result "no_op" reason;
        memory = none;
        supersedes_memory_ids = [];
      }
      else terminal_no_op "invalid_tool_output"
  | _ ↦ terminal_no_op "invalid_tool_output"
]

-- A result of kind `duplicate`.
abbrev pub duplicate_of : String → MemoryRecord → NormalizedOperation
duplicate_of reason candidate = record {
  final_result =
      set_field "duplicate_of_memory_id" (str candidate.id) (final_result "duplicate" reason);
  memory = none;
  supersedes_memory_ids = [];
}

-- `_normalize_duplicate`
unfoldable pub normalize_duplicate : Fields → List MemoryRecord → NormalizedOperation
normalize_duplicate operation candidates = elim (get "reason" operation) [
  | str reason ↦ elim (as_index (get "duplicate_of_candidate_index" operation)) [
    | none ↦ terminal_no_op "invalid_tool_output"
    | some index ↦
        if is_null (get "memory" operation)
          && is_empty_list (get "supersedes_candidate_indexes" operation)
        then elim (candidate_at index candidates) [
          | none ↦ terminal_no_op "candidate_index_out_of_range"
          | some candidate ↦ duplicate_of reason candidate
        ]
        else terminal_no_op "invalid_tool_output"
  ]
  | _ ↦ terminal_no_op "invalid_tool_output"
]
