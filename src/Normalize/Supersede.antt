-- ===== src/Normalize/Supersede.antt =====
-- src/recallpack/observe.py: the candidate that says the same, and the checks on superseded ones.
use mathlib.Core.Option
use recallpack.Match.{meaning_equivalent}
use recallpack.Normalize.Parts.{candidate_at}
use recallpack.Base.{
  ℕ, String, Bool, not, ◌&&◌, Option, none, some, List, [], ◌∷◌, take, leb, str_eq, opt_str_eq,
  if◌then◌else◌,
}
use recallpack.Json.{ℤ}
use recallpack.Memory.{MemoryRecord, ObserveRequest, NormalMemory}

-- `_same_memory_key`
unfoldable pub same_memory_key : NormalMemory → MemoryRecord → Bool
same_memory_key memory candidate =
    str_eq candidate.type memory.type
    && str_eq candidate.subject memory.subject
    && str_eq candidate.scope_level memory.scope_level
    && opt_str_eq candidate.component memory.component

-- The body of the loop of `_validate_supersession`.
unfoldable pub supersession_error : NormalMemory → ObserveRequest → ℕ → MemoryRecord → Option String
supersession_error memory request project_event_seq prior =
    if not (str_eq prior.project_id request.project_id)
    then some "cross_project_candidate"
    else if leb project_event_seq prior.source_project_event_seq
    then some "supersession_requires_older_prior"
    else if not (same_memory_key memory prior)
    then some "supersession_scope_mismatch"
    else none

unfoldable pub first_supersession_error :
    NormalMemory → ObserveRequest → ℕ → List MemoryRecord → Option String
first_supersession_error memory request seq [] = none
first_supersession_error memory request seq (prior ∷ priors) =
    let rest = first_supersession_error memory request seq priors in
    elim (supersession_error memory request seq prior) [ some e ↦ some e | none ↦ rest ]

-- `_validate_supersession`
unfoldable pub validate_supersession :
    NormalMemory → ObserveRequest → ℕ → List MemoryRecord → Option String
validate_supersession memory request seq priors =
    if str_eq memory.type "lesson"
    then some "forbidden_lesson_supersession"
    else first_supersession_error memory request seq priors

-- `_equivalent_active_candidate_index`, as the candidate that it points at.
unfoldable pub first_equivalent : NormalMemory → List MemoryRecord → Option MemoryRecord
first_equivalent memory [] = none
first_equivalent memory (candidate ∷ rest) =
    let later = first_equivalent memory rest in
    if same_memory_key memory candidate
      && meaning_equivalent memory.text candidate.text memory.subject
    then some candidate
    else later

unfoldable pub equivalent_active_candidate : NormalMemory → List MemoryRecord → Option MemoryRecord
equivalent_active_candidate memory candidates = first_equivalent memory (take 8 candidates)

-- The candidates at the indexes, if all exist.
unfoldable pub candidates_at : List ℤ → List MemoryRecord → Option (List MemoryRecord)
candidates_at [] candidates = some []
candidates_at (i ∷ is) candidates =
    let rest = candidates_at is candidates in
    elim (candidate_at i candidates) [
      | none ↦ none
      | some candidate ↦ Option.map (λ cs. candidate ∷ cs) rest
    ]
