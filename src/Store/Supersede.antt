-- ===== src/Store/Supersede.antt =====
-- The supersession of stored memories in src/recallpack/storage.py: `_supersession_validation_error`
-- and `_insert_supersession_edges`.
use recallpack.Base.{
  String, Bool, true, false, not, ◌&&◌, Option, none, some, List, [], ◌∷◌, any, length, leb, ◌==◌,
  str_eq, opt_str_eq, keep, if◌then◌else◌,
}
use recallpack.Json.{distinct_texts, member}
use recallpack.Memory.{MemoryRecord, NormalMemory}
use recallpack.Store.Rows.{Event, Store}
use recallpack.Store.Query.{is_active_memory}

-- The selected rows of `_supersession_validation_error`: active memories with one of the ids.
unfoldable pub named_active : Store → List String → List MemoryRecord
named_active s prior_ids =
    keep (λ m. member m.id prior_ids && is_active_memory s.relations m) s.memories

-- The body of its loop.
unfoldable pub prior_error : Event → NormalMemory → MemoryRecord → Option String
prior_error event memory prior =
    if not (str_eq prior.project_id event.project_id)
    then some "cross_project_candidate"
    else if leb event.project_event_seq prior.source_project_event_seq
    then some "supersession_requires_older_prior"
    else if str_eq prior.type memory.type
        && str_eq prior.subject memory.subject
        && str_eq prior.scope_level memory.scope_level
        && opt_str_eq prior.component memory.component
    then none
    else some "supersession_scope_mismatch"

unfoldable pub first_prior_error : Event → NormalMemory → List MemoryRecord → Option String
first_prior_error event memory [] = none
first_prior_error event memory (prior ∷ priors) =
    let rest = first_prior_error event memory priors in
    elim (prior_error event memory prior) [ some e ↦ some e | none ↦ rest ]

abbrev pub is_empty {ℓ} : {A : Type ℓ} → List A → Bool
is_empty [] = true
is_empty (x ∷ xs) = false

-- `_supersession_validation_error`
unfoldable pub supersession_validation_error :
    Store → Event → NormalMemory → List String → Option String
supersession_validation_error s event memory prior_ids =
    if not (distinct_texts prior_ids)
    then some "invalid_tool_output"
    else if is_empty prior_ids
    then none
    else if str_eq memory.type "lesson"
    then some "forbidden_lesson_supersession"
    else if length (named_active s prior_ids) == length prior_ids
    then first_prior_error event memory (named_active s prior_ids)
    else some "inactive_supersession_target"

-- `_insert_supersession_edges`; none is the IntegrityError of the unique prior or of a foreign key.
unfoldable pub insert_supersession_edges : Store → List String → String → String → Option Store
insert_supersession_edges s [] successor source = some s
insert_supersession_edges s (prior ∷ priors) successor source =
    let s' = record s {
      relations =
          record {
            prior_memory_id = prior;
            successor_memory_id = successor;
            relation_type = "supersedes";
            source_event_internal_id = source;
          }
          ∷ s.relations;
    } in
    let rest = insert_supersession_edges s' priors successor source in
    if any (λ rel. str_eq rel.prior_memory_id prior) s.relations
    then none
    else if any (λ m. str_eq m.id prior) s.memories && any (λ m. str_eq m.id successor) s.memories
    then rest
    else none
