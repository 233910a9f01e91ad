-- ===== src/Store/Accept.antt =====
-- The results that src/recallpack/observe.py hands to src/recallpack/storage.py: which of those without
-- a memory the store takes.
use recallpack.Base.{
  ℕ, zero, suc, String, false, ◌&&◌, Option, none, some, List, [], ◌∷◌, ◌≡◌, ◌⊎◌, refl, subst, ◌∙◌,
  inl, inr, arith, str_eq, get_elem?, take, All, All-take, if◌then◌else◌, Bool-cases, Option-cases,
  ok, err, Result-cases, is_nonempty,
}
use recallpack.Json.{
  ℤ, pos, negsuc, Json, str, obj, Fields, get, is_text, nonempty_text, has_key, is_null, is_str,
  is_empty_list,
}
use recallpack.Memory.{MemoryRecord, ObserveRequest, NormalMemory}
use recallpack.Library.{Library}
use recallpack.Normalize.Parts.{
  NormalizedOperation, final_result, terminal_no_op, as_index, candidate_at, normalize_no_op,
  normalize_duplicate, duplicate_of,
}
use recallpack.Normalize.Validate.{normalize_memory}
use recallpack.Normalize.Supersede.{
  first_equivalent, equivalent_active_candidate, candidates_at, validate_supersession,
  same_memory_key,
}
use recallpack.Match.{meaning_equivalent}
use recallpack.Normalize.Decide.{
  write_result, write_memory, write_parts, normalize_write, normalize_operation,
}
use recallpack.Store.Rows.{Store}
use recallpack.Store.Results.{valid_v4_final_result}
use recallpack.Store.Complete.{complete_attempt}

-- The identifier of a stored memory is not empty.
abbrev pub HasId : MemoryRecord → Type 0
HasId c = str_eq c.id "" ≡ false

-- The store takes the result if its reason is not empty.
abbrev pub IsTaken : NormalizedOperation → Type 0
IsTaken n =
    valid_v4_final_result (some (obj n.final_result)) ≡ nonempty_text (get "reason" n.final_result)

pub no_op-IsTaken :
    (reason : String)
    → valid_v4_final_result (some (obj (final_result "no_op" reason))) ≡ nonempty_text (str reason)
unfolding valid_v4_final_result str_eq
no_op-IsTaken reason = ground arith

terminal_no_op-IsTaken : (reason : String) → IsTaken (terminal_no_op reason)
unfolding terminal_no_op str_eq
terminal_no_op-IsTaken reason = no_op-IsTaken reason

duplicate_of-IsTaken :
    (reason : String) (c : MemoryRecord) → HasId c → IsTaken (duplicate_of reason c)
unfolding valid_v4_final_result str_eq
duplicate_of-IsTaken reason c h = ground arith

HasId-get_elem :
    (cs : List MemoryRecord) (k : ℕ) (c : MemoryRecord)
    → All HasId cs
    → get_elem? cs k ≡ some c
    → HasId c
HasId-get_elem [] k c h e = absurd (ground arith)
HasId-get_elem (x ∷ xs) zero c h e = let here : x ≡ c = ground arith in subst HasId here h.0
HasId-get_elem (x ∷ xs) (suc k) c h e = HasId-get_elem xs k c h.1 (ground arith)

candidate_at-HasId :
    (i : ℤ) (cs : List MemoryRecord) (c : MemoryRecord)
    → All HasId cs
    → candidate_at i cs ≡ some c
    → HasId c
unfolding candidate_at
candidate_at-HasId (pos k) cs c h e = HasId-get_elem cs k c h (ground arith)
candidate_at-HasId (negsuc k) cs c h e = absurd (ground arith)

first_equivalent-HasId :
    (m : NormalMemory) (cs : List MemoryRecord) (c : MemoryRecord)
    → All HasId cs
    → first_equivalent m cs ≡ some c
    → HasId c
unfolding first_equivalent
first_equivalent-HasId m [] c h e = absurd (ground arith)
first_equivalent-HasId m (x ∷ xs) c h e =
    elim (Bool-cases (same_memory_key m x && meaning_equivalent m.text x.text m.subject)) [
      | inl same ↦ let here : x ≡ c = ground arith in subst HasId here h.0
      | inr other ↦ first_equivalent-HasId m xs c h.1 (ground arith)
    ]

equivalent-HasId :
    (m : NormalMemory) (cs : List MemoryRecord) (c : MemoryRecord)
    → All HasId cs
    → equivalent_active_candidate m cs ≡ some c
    → HasId c
unfolding equivalent_active_candidate
equivalent-HasId m cs c h e = first_equivalent-HasId m (take 8 cs) c (All-take HasId 8 cs h) e

IsTaken-eq : (a b : NormalizedOperation) → a ≡ b → IsTaken a → IsTaken b
IsTaken-eq a b e h = subst IsTaken e h

str-cases : (j : Json) → ((s : String) × (j ≡ str s)) ⊎ (is_str j ≡ false)
str-cases (str s) = inl (s, refl)
str-cases _ = inr refl

normalize_no_op-IsTaken : (operation : Fields) → IsTaken (normalize_no_op operation)
unfolding normalize_no_op terminal_no_op
normalize_no_op-IsTaken operation = elim (str-cases (get "reason" operation)) [
  | inl (reason, e) ↦
      elim (Bool-cases (
        is_null (get "memory" operation)
        && is_null (get "duplicate_of_candidate_index" operation)
        && is_empty_list (get "supersedes_candidate_indexes" operation))) [
          | inl fits ↦
              IsTaken-eq (terminal_no_op reason) (normalize_no_op operation) (ground arith)
                (terminal_no_op-IsTaken reason)
          | inr other ↦
              IsTaken-eq (terminal_no_op "invalid_tool_output") (normalize_no_op operation)
                (ground arith) (terminal_no_op-IsTaken "invalid_tool_output")
        ]
  | inr other ↦
      IsTaken-eq (terminal_no_op "invalid_tool_output") (normalize_no_op operation) (ground arith)
        (terminal_no_op-IsTaken "invalid_tool_output")
]

normalize_duplicate-IsTaken :
    (operation : Fields) (candidates : List MemoryRecord)
    → All HasId candidates
    → IsTaken (normalize_duplicate operation candidates)
unfolding normalize_duplicate terminal_no_op
normalize_duplicate-IsTaken operation candidates h = elim (str-cases (get "reason" operation)) [
  | inr other ↦
      IsTaken-eq (terminal_no_op "invalid_tool_output") (normalize_duplicate operation candidates)
        (ground arith) (terminal_no_op-IsTaken "invalid_tool_output")
  | inl (reason, e) ↦
      elim (Option-cases (as_index (get "duplicate_of_candidate_index" operation))) [
        | inl none_given ↦
            IsTaken-eq (terminal_no_op "invalid_tool_output")
              (normalize_duplicate operation candidates) (ground arith)
              (terminal_no_op-IsTaken "invalid_tool_output")
        | inr (index, given) ↦
            elim (Bool-cases (
              is_null (get "memory" operation)
              && is_empty_list (get "supersedes_candidate_indexes" operation))) [
                | inr other ↦
                    IsTaken-eq (terminal_no_op "invalid_tool_output")
                      (normalize_duplicate operation candidates) (ground arith)
                      (terminal_no_op-IsTaken "invalid_tool_output")
                | inl fits ↦ elim (Option-cases (candidate_at index candidates)) [
                  | inl out ↦
                      IsTaken-eq (terminal_no_op "candidate_index_out_of_range")
                        (normalize_duplicate operation candidates) (ground arith)
                        (terminal_no_op-IsTaken "candidate_index_out_of_range")
                  | inr (c, there) ↦
                      IsTaken-eq (duplicate_of reason c) (normalize_duplicate operation candidates)
                        (ground arith)
                        (duplicate_of-IsTaken reason c
                          (candidate_at-HasId index candidates c h there))
                ]
              ]
      ]
]

-- Results without a memory, from here on: those of a write.
module _ (request : ObserveRequest) (seq : ℕ) (candidates : List MemoryRecord)
    (components : List String) (h : All HasId candidates) (n : NormalizedOperation)
    (bare : n.memory ≡ none) where
  write_result-IsTaken :
      (reason : String) (memory : NormalMemory) (priors : List MemoryRecord)
      → write_result reason memory priors request seq candidates ≡ n
      → IsTaken n
  unfolding write_result
  write_result-IsTaken reason memory priors e =
      elim (Option-cases (equivalent_active_candidate memory candidates)) [
        | inr (c, same) ↦ IsTaken-eq (duplicate_of "equivalent_active_memory" c) n (ground arith) (
            duplicate_of-IsTaken "equivalent_active_memory" c
              (equivalent-HasId memory candidates c h same))
        | inl fresh ↦
            elim (Option-cases (
              if is_nonempty priors
              then validate_supersession memory request seq priors
              else none)) [
                | inr (code, refused) ↦
                    IsTaken-eq (terminal_no_op code) n (ground arith) (terminal_no_op-IsTaken code)
                | inl passed ↦ absurd (ground arith)
              ]
      ]

  write_memory-IsTaken :
      (memory : Fields) (reason : String) (priors : List MemoryRecord)
      → write_memory memory reason priors request seq candidates components ≡ ok n
      → IsTaken n
  unfolding write_memory
  write_memory-IsTaken memory reason priors e =
      elim (Result-cases (normalize_memory memory request components)) [
        | inr (raised, r) ↦ absurd (ground arith)
        | inl (ok normal, r) ↦ write_result-IsTaken reason normal priors (ground arith)
        | inl (err code, r) ↦
            IsTaken-eq (terminal_no_op code) n (ground arith) (terminal_no_op-IsTaken code)
      ]

  write_parts-IsTaken :
      (memory reason : Json) (indexes : Option (List ℤ)) (duplicate : Json)
      → write_parts memory reason indexes duplicate request seq candidates components ≡ ok n
      → IsTaken n
  unfolding write_parts
  write_parts-IsTaken (obj memory) (str reason) (some is) duplicate e =
      elim (Bool-cases (is_null duplicate)) [
        | inr given ↦
            IsTaken-eq (terminal_no_op "invalid_tool_output") n (ground arith)
              (terminal_no_op-IsTaken "invalid_tool_output")
        | inl left_out ↦ elim (Option-cases (candidates_at is candidates)) [
          | inl missing ↦
              IsTaken-eq (terminal_no_op "candidate_index_out_of_range") n (ground arith)
                (terminal_no_op-IsTaken "candidate_index_out_of_range")
          | inr (priors, there) ↦ write_memory-IsTaken memory reason priors (ground arith)
        ]
      ]
  write_parts-IsTaken _ _ _ duplicate e =
      IsTaken-eq (terminal_no_op "invalid_tool_output") n (ground arith)
        (terminal_no_op-IsTaken "invalid_tool_output")

  normalize_write-IsTaken :
      (operation : Fields)
      → normalize_write operation request seq candidates components ≡ ok n
      → IsTaken n
  unfolding normalize_write
  normalize_write-IsTaken operation e = write_parts-IsTaken _ _ _ _ e

  normalize_operation-IsTaken :
      (operation : Json)
      → normalize_operation operation request seq candidates components ≡ ok n
      → IsTaken n
  unfolding normalize_operation
  normalize_operation-IsTaken (obj operation) e = elim (Bool-cases (has_key "memories" operation)) [
    | inl many ↦
        IsTaken-eq (terminal_no_op "invalid_tool_output") n (ground arith)
          (terminal_no_op-IsTaken "invalid_tool_output")
    | inr one ↦ elim (Bool-cases (is_text (get "operation" operation) "no_op")) [
      | inl no_op ↦
          IsTaken-eq (normalize_no_op operation) n (ground arith)
            (normalize_no_op-IsTaken operation)
      | inr done ↦ elim (Bool-cases (is_text (get "operation" operation) "duplicate")) [
        | inl duplicate ↦
            IsTaken-eq (normalize_duplicate operation candidates) n (ground arith)
              (normalize_duplicate-IsTaken operation candidates h)
        | inr new ↦ elim (Bool-cases (is_text (get "operation" operation) "write")) [
          | inl write ↦ normalize_write-IsTaken operation (ground arith)
          | inr other ↦
              IsTaken-eq (terminal_no_op "invalid_tool_output") n (ground arith)
                (terminal_no_op-IsTaken "invalid_tool_output")
        ]
      ]
    ]
  ]
  normalize_operation-IsTaken _ e =
      IsTaken-eq (terminal_no_op "invalid_tool_output") n (ground arith)
        (terminal_no_op-IsTaken "invalid_tool_output")

  refused :
      (lib : Library) (s : Store) (i l : String) (k : ℕ) (evidence : Option Fields) (at : String)
      → valid_v4_final_result (some (obj n.final_result)) ≡ false
      → complete_attempt lib i l k n.final_result evidence at s ≡ (false, s)
  unfolding complete_attempt
  refused lib s i l k evidence at bad = ground arith

-- Where every candidate has an identifier, a result without a memory that `_normalize_operation` gives
-- passes the check of the store exactly if its reason is not empty. With an empty reason the completion is refused for every attempt, also
-- for one that owns the event, and the store stays as it is.
pub no_memory-reason :
    (request : ObserveRequest) (seq : ℕ) (candidates : List MemoryRecord) (components : List String)
    (operation : Json) (n : NormalizedOperation)
    → All HasId candidates
    → normalize_operation operation request seq candidates components ≡ ok n
    → n.memory ≡ none
    → (valid_v4_final_result (some (obj n.final_result))
        ≡ nonempty_text (get "reason" n.final_result))
      × (nonempty_text (get "reason" n.final_result) ≡ false
          → (lib : Library) (s : Store) (i l : String) (k : ℕ) (evidence : Option Fields)
            (at : String)
          → complete_attempt lib i l k n.final_result evidence at s ≡ (false, s))
no_memory-reason request seq candidates components operation n h e bare =
    let taken =
      normalize_operation-IsTaken request seq candidates components h n bare operation e in
    (
      taken,
      λ empty lib s i l k evidence at.
          refused request seq candidates components h n bare lib s i l k evidence at
            (taken ∙ empty),
    )
