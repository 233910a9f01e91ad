-- ===== src/Store/Outcomes.antt =====
-- `complete_observe_operation` of src/recallpack/storage.py leaves the store as it is, or completes the event
-- in a store with the same events, runs and cursors.
use recallpack.Base.{
  ℕ, String, Option, some, List, [], ◌∷◌, ◌≡◌, refl, ◌∙◌, inl, inr, arith, Bool-cases, Option-cases,
}
use recallpack.Json.{Fields}
use recallpack.Library.{Library}
use recallpack.Memory.{NormalMemory, MemoryRecord}
use recallpack.Embedding.{Embedding, valid_embedding_payload}
use recallpack.Store.Rows.{Event, Store, Draw}
use recallpack.Store.Query.{pending_event_for_attempt, has_newer_active_lifecycle_memory}
use recallpack.Store.Complete.{
  complete_pending_event, complete_operation, complete_owned, complete_without_memory,
  commit_memory, memory_row, insert_memory, stored_result,
}
use recallpack.Store.Supersede.{supersession_validation_error, insert_supersession_edges}
use recallpack.Store.Results.{terminal_no_op_result}
use recallpack.Store.Ended.{Completed, complete_pending_event-Completed}
use recallpack.Store.Edges.{with_edge}

-- The tables of events, runs and cursors are the same.
pub record SameRows (s t : Store) : Type 0 where
  pub events : t.events ≡ s.events
  pub runs : t.runs ≡ s.runs
  pub cursors : t.cursors ≡ s.cursors

SameRows-trans : (s t u : Store) → SameRows s t → SameRows t u → SameRows s u
SameRows-trans s t u a b = record {
  events = b.events ∙ a.events;
  runs = b.runs ∙ a.runs;
  cursors = b.cursors ∙ a.cursors;
}

insert_supersession_edges-SameRows :
    (s s' : Store) (priors : List String) (successor source : String)
    → insert_supersession_edges s priors successor source ≡ some s'
    → SameRows s s'
unfolding insert_supersession_edges
insert_supersession_edges-SameRows s s' [] successor source h = record {
  events = ground arith;
  runs = ground arith;
  cursors = ground arith;
}
insert_supersession_edges-SameRows s s' (p ∷ ps) successor source h =
    SameRows-trans s (with_edge s p successor source) s'
      (record { events = refl; runs = refl; cursors = refl })
      (insert_supersession_edges-SameRows (with_edge s p successor source) s' ps successor source
        (ground arith))

insert_memory-SameRows :
    (s s' : Store) (m : MemoryRecord) → insert_memory s m ≡ some s' → SameRows s s'
unfolding insert_memory
insert_memory-SameRows s s' m h = record {
  events = ground arith;
  runs = ground arith;
  cursors = ground arith;
}

module _ (lib : Library) (s : Store) (i l : String) (n : ℕ) (evidence : Option Fields)
    (Q : Store → Type 0) (unchanged : Q s)
    (done : (t s' : Store) (event : Event) (result : Fields) (now : String)
      → SameRows s t
      → pending_event_for_attempt s i l n ≡ some event
      → Completed lib t s' event i l n result evidence now
      → Q s') where
  complete_without_memory-all :
      (event : Event) (reason at : String)
      → pending_event_for_attempt s i l n ≡ some event
      → Q (complete_without_memory lib s event i l n reason evidence at).1
  unfolding complete_without_memory
  complete_without_memory-all event reason at there =
      let result = terminal_no_op_result reason in
      elim (Option-cases (complete_pending_event lib s event i l n result evidence at)) [
        | inl refused ↦ rw (refused, complete_without_memory) unchanged
        | inr (s', ended) ↦
            rw (ended, complete_without_memory)
              (done s s' event result at (record { events = refl; runs = refl; cursors = refl })
                there
                (complete_pending_event-Completed lib s s' event i l n result evidence at ended))
      ]

  module _ (final_result : Fields) (memory : NormalMemory) (supersedes : List String)
      (embedding : Embedding) (draw : Draw) where
    commit_memory-all :
        (event : Event)
        → pending_event_for_attempt s i l n ≡ some event
        → Q
            (commit_memory lib s event i l n final_result memory supersedes embedding evidence
              draw).1
    unfolding commit_memory
    commit_memory-all event there =
        let row = memory_row event memory embedding draw.memory_id in
        let stored = stored_result final_result draw.memory_id memory event supersedes in
        elim (Bool-cases (valid_embedding_payload lib memory embedding)) [
          | inr bad ↦ rw (bad, commit_memory) unchanged
          | inl good ↦ elim (Option-cases (insert_memory s row)) [
            | inl taken ↦ rw (good, taken, commit_memory) unchanged
            | inr (s₁, added) ↦
                elim (Option-cases
                  (insert_supersession_edges s₁ supersedes draw.memory_id event.internal_id)) [
                    | inl refused ↦ rw (good, added, refused, commit_memory) unchanged
                    | inr (s₂, linked) ↦
                        elim (Option-cases (
                          complete_pending_event lib s₂ event i l n stored evidence draw.utc_now)) [
                            | inl lost ↦ rw (good, added, linked, lost, commit_memory) unchanged
                            | inr (s₃, ended) ↦
                                rw (good, added, linked, ended, commit_memory)
                                  (done s₂ s₃ event stored draw.utc_now
                                    (SameRows-trans s s₁ s₂ (insert_memory-SameRows s s₁ row added)
                                      (insert_supersession_edges-SameRows s₁ s₂ supersedes
                                        draw.memory_id event.internal_id linked))
                                    there
                                    (complete_pending_event-Completed lib s₂ s₃ event i l n stored
                                      evidence draw.utc_now ended))
                          ]
                  ]
          ]
        ]

    pub complete_operation-all :
        Q (complete_operation lib i l n final_result memory supersedes embedding evidence draw s).1
    unfolding complete_operation complete_owned
    complete_operation-all = elim (Option-cases (pending_event_for_attempt s i l n)) [
      | inl lost ↦ rw (lost, complete_operation) unchanged
      | inr (event, there) ↦
          elim (Bool-cases
            (has_newer_active_lifecycle_memory s event.project_id event.project_event_seq memory)) [
              | inl newer ↦
                  rw (there, newer, complete_operation, complete_owned)
                    (complete_without_memory-all event "stale_project_event" draw.utc_now there)
              | inr current ↦
                  elim (Option-cases (supersession_validation_error s event memory supersedes)) [
                    | inr (e, refused) ↦
                        rw (there, current, refused, complete_operation, complete_owned)
                          (complete_without_memory-all event e draw.utc_now there)
                    | inl allowed ↦
                        rw (there, current, allowed, complete_operation, complete_owned)
                          (commit_memory-all event there)
                  ]
            ]
    ]
