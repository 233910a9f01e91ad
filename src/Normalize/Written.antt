-- ===== src/Normalize/Written.antt =====
-- What a write that `_normalize_operation` of src/recallpack/observe.py lets through may do.
use recallpack.Base.{
  ℕ, ◌<◌, String, Bool, true, false, Option, none, some, List, [], ◌∷◌, get_elem?, ◌≡◌, ◌≢◌, subst,
  inl, inr, arith, if◌then◌else◌, ok, err, is_nonempty, All, Bool-cases, Option-cases, Result-cases,
  str_eq_sound, str_eq_complete, opt_str_eq_sound,
}
use recallpack.Json.{ℤ, pos, negsuc, Json, str, obj, Fields, get, is_text}
use recallpack.Memory.{MemoryRecord, ObserveRequest, NormalMemory}
use recallpack.Normalize.Parts.{
  NormalizedOperation, terminal_no_op, candidate_at, normalize_no_op, normalize_duplicate,
}
use recallpack.Normalize.Validate.{normalize_memory}
use recallpack.Normalize.Supersede.{
  same_memory_key, supersession_error, first_supersession_error, validate_supersession,
  equivalent_active_candidate, candidates_at,
}
use recallpack.Normalize.Decide.{
  ids, write_result, write_memory, write_parts, normalize_write, normalize_operation,
}
use recallpack.Normalize.Authority.{IsAuthorized, normalize_memory-IsAuthorized}

-- The candidate is one of the eight that the decider may name.
pub record IsOffered (candidates : List MemoryRecord) (prior : MemoryRecord) : Type 0 where
  pub place : ℕ
  pub place_lt : place < 8
  pub at_place : get_elem? candidates place ≡ some prior

-- A memory may supersede the prior: the same thing, said earlier in the same project.
pub record MaySupersede (request : ObserveRequest) (seq : ℕ) (m : NormalMemory)
    (prior : MemoryRecord) : Type 0 where
  pub project : prior.project_id ≡ request.project_id
  pub older : prior.source_project_event_seq < seq
  pub type : prior.type ≡ m.type
  pub subject : prior.subject ≡ m.subject
  pub scope_level : prior.scope_level ≡ m.scope_level
  pub component : prior.component ≡ m.component

-- A write, with the priors that it names.
pub record IsWrite (request : ObserveRequest) (seq : ℕ) (candidates : List MemoryRecord)
    (components : List String) (n : NormalizedOperation) (m : NormalMemory) : Type 0 where
  pub authorized : IsAuthorized components request.actor m
  pub priors : List MemoryRecord
  pub named : n.supersedes_memory_ids ≡ ids priors
  pub offered : All (IsOffered candidates) priors
  pub superseded : All (MaySupersede request seq m) priors
  pub no_lesson : is_nonempty priors ≡ true → m.type ≢ "lesson"
  pub is_new : equivalent_active_candidate m candidates ≡ none

candidate_at-IsOffered :
    (i : ℤ) (candidates : List MemoryRecord) (c : MemoryRecord)
    → candidate_at i candidates ≡ some c
    → IsOffered candidates c
unfolding candidate_at
candidate_at-IsOffered (pos n) candidates c h = record {
  place = n;
  place_lt = ground arith;
  at_place = ground arith;
}
candidate_at-IsOffered (negsuc n) candidates c h = absurd (ground arith)

candidates_at-IsOffered :
    (is : List ℤ) (candidates priors : List MemoryRecord)
    → candidates_at is candidates ≡ some priors
    → All (IsOffered candidates) priors
unfolding candidates_at
candidates_at-IsOffered [] candidates [] h = tt
candidates_at-IsOffered [] candidates (p ∷ ps) h = absurd (ground arith)
candidates_at-IsOffered (i ∷ is) candidates priors h =
    elim (Option-cases (candidate_at i candidates)) [
      | inl missing ↦ absurd (ground arith)
      | inr (c, there) ↦ elim (Option-cases (candidates_at is candidates)) [
        | inl missing ↦ absurd (ground arith)
        | inr (cs, rest) ↦
            let e : c ∷ cs ≡ priors = ground arith in
            subst (All (IsOffered candidates)) e (
              candidate_at-IsOffered i candidates c there,
              candidates_at-IsOffered is candidates cs rest,
            )
      ]
    ]

supersession_error-none :
    (m : NormalMemory) (request : ObserveRequest) (seq : ℕ) (prior : MemoryRecord)
    → supersession_error m request seq prior ≡ none
    → MaySupersede request seq m prior
unfolding supersession_error same_memory_key
supersession_error-none m request seq prior h = record {
  project = ground (arith, str_eq_sound prior.project_id request.project_id);
  older = ground arith;
  type = ground (arith, str_eq_sound prior.type m.type);
  subject = ground (arith, str_eq_sound prior.subject m.subject);
  scope_level = ground (arith, str_eq_sound prior.scope_level m.scope_level);
  component = opt_str_eq_sound prior.component m.component (ground arith);
}

first_supersession_error-none :
    (m : NormalMemory) (request : ObserveRequest) (seq : ℕ) (priors : List MemoryRecord)
    → first_supersession_error m request seq priors ≡ none
    → All (MaySupersede request seq m) priors
unfolding first_supersession_error
first_supersession_error-none m request seq [] h = tt
first_supersession_error-none m request seq (p ∷ ps) h = (
  supersession_error-none m request seq p (ground arith),
  first_supersession_error-none m request seq ps (ground arith),
)

supersession_passes :
    (m : NormalMemory) (request : ObserveRequest) (seq : ℕ) (priors : List MemoryRecord)
    → (if is_nonempty priors then validate_supersession m request seq priors else none) ≡ none
    → All (MaySupersede request seq m) priors × (is_nonempty priors ≡ true → m.type ≢ "lesson")
unfolding validate_supersession
supersession_passes m request seq [] h = (tt, λ e. cc)
supersession_passes m request seq (p ∷ ps) h = (
  first_supersession_error-none m request seq (p ∷ ps) (ground arith),
  λ _ e. ground (arith, str_eq_complete m.type "lesson" e),
)

abbrev pub is_none {ℓ} : {A : Type ℓ} → Option A → Bool
is_none none = true
is_none (some a) = false

normalize_no_op-memory : (operation : Fields) → (normalize_no_op operation).memory ≡ none
unfolding normalize_no_op terminal_no_op
normalize_no_op-memory operation = ground arith

normalize_duplicate-memory :
    (operation : Fields) (candidates : List MemoryRecord)
    → (normalize_duplicate operation candidates).memory ≡ none
unfolding normalize_duplicate terminal_no_op
normalize_duplicate-memory operation candidates = ground arith

-- A result with a memory comes from a write that passed every check.
module _ (request : ObserveRequest) (seq : ℕ) (candidates : List MemoryRecord)
    (components : List String) (n : NormalizedOperation) (m : NormalMemory)
    (kept : n.memory ≡ some m) where
  write_result-IsWrite :
      (reason : String) (normal : NormalMemory) (priors : List MemoryRecord)
      → IsAuthorized components request.actor normal
      → All (IsOffered candidates) priors
      → write_result reason normal priors request seq candidates ≡ n
      → IsWrite request seq candidates components n m
  unfolding write_result terminal_no_op
  write_result-IsWrite reason normal priors allowed offered h =
      elim (Option-cases (equivalent_active_candidate normal candidates)) [
        | inr (c, same) ↦ absurd (ground arith)
        | inl fresh ↦
            elim (Option-cases (
              if is_nonempty priors
              then validate_supersession normal request seq priors
              else none)) [
                | inr (e, refused) ↦ absurd (ground arith)
                | inl passed ↦
                    let same : normal ≡ m = ground arith in
                    subst (λ x. IsWrite request seq candidates components n x) same
                      (record {
                        authorized = allowed;
                        priors = priors;
                        named = ground arith;
                        offered = offered;
                        superseded = (supersession_passes normal request seq priors passed).0;
                        no_lesson = (supersession_passes normal request seq priors passed).1;
                        is_new = fresh;
                      })
              ]
      ]

  write_memory-IsWrite :
      (memory : Fields) (reason : String) (priors : List MemoryRecord)
      → All (IsOffered candidates) priors
      → write_memory memory reason priors request seq candidates components ≡ ok n
      → IsWrite request seq candidates components n m
  unfolding write_memory terminal_no_op
  write_memory-IsWrite memory reason priors offered h =
      elim (Result-cases (normalize_memory memory request components)) [
        | inr (raised, e) ↦ absurd (ground arith)
        | inl (ok normal, e) ↦
            write_result-IsWrite reason normal priors
              (normalize_memory-IsAuthorized memory request components normal e) offered
              (ground arith)
        | inl (err refused, e) ↦ absurd (ground arith)
      ]

  write_parts-IsWrite :
      (memory reason : Json) (indexes : Option (List ℤ)) (duplicate : Json)
      → write_parts memory reason indexes duplicate request seq candidates components ≡ ok n
      → IsWrite request seq candidates components n m
  unfolding write_parts terminal_no_op
  write_parts-IsWrite (obj memory) (str reason) (some is) duplicate h =
      elim (Option-cases (candidates_at is candidates)) [
        | inl missing ↦ absurd (ground arith)
        | inr (priors, there) ↦
            write_memory-IsWrite memory reason priors
              (candidates_at-IsOffered is candidates priors there) (ground arith)
      ]
  write_parts-IsWrite _ _ _ duplicate h = absurd (ground arith)

  normalize_write-IsWrite :
      (operation : Fields)
      → normalize_write operation request seq candidates components ≡ ok n
      → IsWrite request seq candidates components n m
  unfolding normalize_write
  normalize_write-IsWrite operation h = write_parts-IsWrite _ _ _ _ h

  -- If the result of an operation has a memory, its actor may make that memory, no offered candidate
  -- says the same, and the priors that the result names are offered candidates of the same project and
  -- key that are older than the event. A lesson names none.
  pub normalize_operation-IsWrite :
      (operation : Json)
      → normalize_operation operation request seq candidates components ≡ ok n
      → IsWrite request seq candidates components n m
  unfolding normalize_operation terminal_no_op
  normalize_operation-IsWrite (obj operation) h =
      elim (Bool-cases (is_text (get "operation" operation) "write")) [
        | inl asked ↦
            elim (Result-cases (normalize_write operation request seq candidates components)) [
              | inl (n', e) ↦ normalize_write-IsWrite operation (
                  ground (
                    arith,
                    normalize_no_op-memory operation,
                    normalize_duplicate-memory operation candidates,
                  ))
              | inr (raised, e) ↦ absurd (
                  ground (
                    arith,
                    normalize_no_op-memory operation,
                    normalize_duplicate-memory operation candidates,
                  ))
            ]
        | inr other ↦ absurd (
            ground (
              arith,
              normalize_no_op-memory operation,
              normalize_duplicate-memory operation candidates,
            ))
      ]
  normalize_operation-IsWrite _ h = absurd (ground arith)
