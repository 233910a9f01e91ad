-- ===== src/Store/Rollback.antt =====
-- `complete_observe_operation` of src/recallpack/storage.py where it returns no result or raises.
use recallpack.Base.{
  ℕ, String, Option, some, List, ◌≡◌, ◌≢◌, inl, inr, arith, Bool-cases, Option-cases, Result, ok,
}
use recallpack.Json.{Fields}
use recallpack.Library.{Library}
use recallpack.Memory.{NormalMemory}
use recallpack.Embedding.{Embedding, valid_embedding_payload}
use recallpack.Store.Rows.{Event, Store, Draw}
use recallpack.Store.Query.{has_newer_active_lifecycle_memory, pending_event_for_attempt}
use recallpack.Store.Results.{terminal_no_op_result}
use recallpack.Store.Answer.{StoreError}
use recallpack.Store.Complete.{
  complete_pending_event, memory_row, insert_memory, complete_without_memory, stored_result,
  commit_memory, complete_owned, complete_operation,
}
use recallpack.Store.Supersede.{supersession_validation_error, insert_supersession_edges}

complete_without_memory-unchanged :
    (lib : Library) (s s' : Store) (event : Event) (i l : String) (n : ℕ) (reason : String)
    (evidence : Option Fields) (at : String) (r : Result StoreError (Option Fields))
    → complete_without_memory lib s event i l n reason evidence at ≡ (r, s')
    → ((result : Fields) → r ≢ ok (some result))
    → s' ≡ s
unfolding complete_without_memory
complete_without_memory-unchanged lib s s' event i l n reason evidence at r h none_stored =
    elim (Option-cases
      (complete_pending_event lib s event i l n (terminal_no_op_result reason) evidence at)) [
        | inl refused ↦ ground arith
        | inr (s₁, done) ↦ absurd (none_stored (terminal_no_op_result reason) (ground arith))
      ]

commit_memory-unchanged :
    (lib : Library) (s s' : Store) (event : Event) (i l : String) (n : ℕ) (final_result : Fields)
    (memory : NormalMemory) (supersedes : List String) (embedding : Embedding)
    (evidence : Option Fields) (draw : Draw) (r : Result StoreError (Option Fields))
    → commit_memory lib s event i l n final_result memory supersedes embedding evidence draw
      ≡ (r, s')
    → ((result : Fields) → r ≢ ok (some result))
    → s' ≡ s
unfolding commit_memory
commit_memory-unchanged lib s s' event i l n final_result memory supersedes embedding evidence draw
      r h none_stored =
    let row = memory_row event memory embedding draw.memory_id in
    let stored = stored_result final_result draw.memory_id memory event supersedes in
    elim (Bool-cases (valid_embedding_payload lib memory embedding)) [
      | inr bad ↦ ground arith
      | inl good ↦ elim (Option-cases (insert_memory s row)) [
        | inl taken ↦ ground arith
        | inr (s₁, added) ↦
            elim (Option-cases
              (insert_supersession_edges s₁ supersedes draw.memory_id event.internal_id)) [
                | inl refused ↦ ground arith
                | inr (s₂, linked) ↦
                    elim (Option-cases
                      (complete_pending_event lib s₂ event i l n stored evidence draw.utc_now)) [
                        | inl lost ↦ ground arith
                        | inr (s₃, done) ↦ absurd (none_stored stored (ground arith))
                      ]
              ]
      ]
    ]

-- An operation that returns no result, or raises, leaves the store as it was: neither the memory nor
-- an edge of it stays behind.
pub complete_operation-unchanged :
    (lib : Library) (s s' : Store) (i l : String) (n : ℕ) (final_result : Fields)
    (memory : NormalMemory) (supersedes : List String) (embedding : Embedding)
    (evidence : Option Fields) (draw : Draw) (r : Result StoreError (Option Fields))
    → complete_operation lib i l n final_result memory supersedes embedding evidence draw s
      ≡ (r, s')
    → ((result : Fields) → r ≢ ok (some result))
    → s' ≡ s
unfolding complete_operation complete_owned
complete_operation-unchanged lib s s' i l n final_result memory supersedes embedding evidence draw r
      h none_stored =
    elim (Option-cases (pending_event_for_attempt s i l n)) [
      | inl lost ↦ ground arith
      | inr (event, there) ↦
          elim (Bool-cases
            (has_newer_active_lifecycle_memory s event.project_id event.project_event_seq memory)) [
              | inl newer ↦
                  complete_without_memory-unchanged lib s s' event i l n "stale_project_event"
                    evidence draw.utc_now r (ground arith) none_stored
              | inr current ↦
                  elim (Option-cases (supersession_validation_error s event memory supersedes)) [
                    | inr (e, refused) ↦
                        complete_without_memory-unchanged lib s s' event i l n e evidence
                          draw.utc_now r (ground arith) none_stored
                    | inl allowed ↦
                        commit_memory-unchanged lib s s' event i l n final_result memory supersedes
                          embedding evidence draw r (ground arith) none_stored
                  ]
            ]
    ]
