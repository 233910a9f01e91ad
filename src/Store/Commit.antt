-- ===== src/Store/Commit.antt =====
-- What `complete_observe_operation` of src/recallpack/storage.py writes, all of it or nothing.
use recallpack.Base.{
  ℕ, String, true, false, Option, none, some, List, ◌∷◌, ◌++◌, ◌≡◌, ◌⊎◌, refl, ap, subst, sym, ◌∙◌,
  inl, inr, arith, str_eq, any, All, Bool-cases, Option-cases, ok,
}
use recallpack.Json.{Fields, obj}
use recallpack.Library.{Library}
use recallpack.Memory.{MemoryRecord, NormalMemory}
use recallpack.Embedding.{Embedding, valid_embedding_payload}
use recallpack.Store.Rows.{Event, Run, Store, Draw}
use recallpack.Store.Query.{
  update_where, rowcount, is_replaced, has_newer_active_lifecycle_memory, pending_event_for_attempt,
  is_owned,
}
use recallpack.Store.Results.{terminal_no_op_result, valid_v4_final_result}
use recallpack.Store.Runs.{is_running_run, finished_run, normalized_run_evidence}
use recallpack.Store.Complete.{
  completed_row, advance_cursor, run_state_of, complete_pending_event, memory_row, insert_memory,
  complete_without_memory, stored_result, commit_memory, complete_owned, complete_operation,
}
use recallpack.Store.Supersede.{supersession_validation_error, insert_supersession_edges}
use recallpack.Store.Ended.{complete_pending_event-Completed}
use recallpack.Store.Edges.{
  edges_to, insert_supersession_edges-HasEdges, MaySupersede, supersession-none,
}

-- The row of a memory: what was decided, embedded as given, from the event of the attempt.
record IsRowOf (event : Event) (memory : NormalMemory) (embedding : Embedding) (id : String)
    (row : MemoryRecord) : Type 0 where
  named : row.id ≡ id
  decided : (row.type ≡ memory.type) × (row.subject ≡ memory.subject) × (row.text ≡ memory.text)
  scoped : (row.scope_level ≡ memory.scope_level) × (row.component ≡ memory.component)
  project : row.project_id ≡ event.project_id
  actor : row.source_actor ≡ event.actor
  session : row.source_ref.session_id ≡ event.session_id
  external : row.source_ref.event_id ≡ event.external_event_id
  order : row.source_project_event_seq ≡ event.project_event_seq
  source : row.source_event_internal_id ≡ some event.internal_id
  vector : row.embedding ≡ embedding.vector
  document : row.embedding_document_hash ≡ some embedding.document_hash

-- The memory was stored with its edges, in one step with the result of the event, the end of its run
-- and the advance of its session.
pub record IsCommitted (lib : Library) (s s' : Store) (event : Event) (i l : String) (n : ℕ)
    (final_result : Fields) (memory : NormalMemory) (supersedes : List String)
    (embedding : Embedding) (evidence : Option Fields) (draw : Draw) (result : Fields)
    : Type 0 where
  current :
      has_newer_active_lifecycle_memory s event.project_id event.project_event_seq memory ≡ false
  checked : MaySupersede s event memory supersedes
  embedded : valid_embedding_payload lib memory embedding ≡ true
  fresh_id : any (λ x. str_eq x.id draw.memory_id) s.memories ≡ false
  unreplaced_before : All (λ p. is_replaced s.relations p ≡ false) supersedes
  replaced : All (λ p. is_replaced s'.relations p ≡ true) supersedes
  edges : s'.relations ≡ edges_to supersedes draw.memory_id event.internal_id ++ s.relations
  row : MemoryRecord
  row_of : IsRowOf event memory embedding draw.memory_id row
  memories : s'.memories ≡ row ∷ s.memories
  result_is : result ≡ stored_result final_result draw.memory_id memory event supersedes
  pub valid : valid_v4_final_result (some (obj result)) ≡ true
  pub one_running : rowcount (is_running_run i n) s.runs ≡ 1
  pub runs :
      s'.runs
      ≡ update_where
          (is_running_run i n)
          (finished_run lib draw.utc_now
            (run_state_of result)
            (normalized_run_evidence evidence)
            none
            none)
          s.runs
  cursors : s'.cursors ≡ advance_cursor event s.cursors
  pub events : s'.events ≡ update_where (is_owned i l n) (completed_row result) s.events

-- The memory was turned down and the event completed without it, for a reason that the checks gave.
pub record IsTurnedDown (lib : Library) (s s' : Store) (event : Event) (i l : String) (n : ℕ)
    (memory : NormalMemory) (supersedes : List String) (evidence : Option Fields) (draw : Draw)
    (result : Fields) : Type 0 where
  reason : String
  cause :
      ((has_newer_active_lifecycle_memory s event.project_id event.project_event_seq memory ≡ true)
        × (reason ≡ "stale_project_event"))
      ⊎ (supersession_validation_error s event memory supersedes ≡ some reason)
  result_is : result ≡ terminal_no_op_result reason
  memories : s'.memories ≡ s.memories
  relations : s'.relations ≡ s.relations
  pub valid : valid_v4_final_result (some (obj result)) ≡ true
  pub one_running : rowcount (is_running_run i n) s.runs ≡ 1
  pub runs :
      s'.runs
      ≡ update_where
          (is_running_run i n)
          (finished_run lib draw.utc_now
            (run_state_of result)
            (normalized_run_evidence evidence)
            none
            none)
          s.runs
  cursors : s'.cursors ≡ advance_cursor event s.cursors
  pub events : s'.events ≡ update_where (is_owned i l n) (completed_row result) s.events

insert_memory-some :
    (s s' : Store) (m : MemoryRecord)
    → insert_memory s m ≡ some s'
    → (any (λ x. str_eq x.id m.id) s.memories ≡ false)
      × (s' ≡ record s { memories = m ∷ s.memories })
unfolding insert_memory
insert_memory-some s s' m h = (ground arith, ground arith)

memory_row-IsRowOf :
    (event : Event) (memory : NormalMemory) (embedding : Embedding) (id : String)
    → IsRowOf event memory embedding id (memory_row event memory embedding id)
unfolding memory_row
memory_row-IsRowOf event memory embedding id = record {
  named = refl;
  decided = (refl, refl, refl);
  scoped = (refl, refl);
  project = refl;
  actor = refl;
  session = refl;
  external = refl;
  order = refl;
  source = refl;
  vector = refl;
  document = refl;
}

module _ (lib : Library) (s s' : Store) (event : Event) (i l : String) (n : ℕ)
    (final_result : Fields) (memory : NormalMemory) (supersedes : List String)
    (embedding : Embedding) (evidence : Option Fields) (draw : Draw) (result : Fields) where
  complete_without_memory-IsTurnedDown :
      (reason : String)
      → ((has_newer_active_lifecycle_memory s event.project_id event.project_event_seq memory
            ≡ true)
          × (reason ≡ "stale_project_event"))
        ⊎ (supersession_validation_error s event memory supersedes ≡ some reason)
      → complete_without_memory lib s event i l n reason evidence draw.utc_now
        ≡ (ok (some result), s')
      → IsTurnedDown lib s s' event i l n memory supersedes evidence draw result
  unfolding complete_without_memory
  complete_without_memory-IsTurnedDown reason cause h =
      elim (Option-cases (
        complete_pending_event lib s event i l n (terminal_no_op_result reason) evidence
          draw.utc_now)) [
            | inl refused ↦ absurd (ground arith)
            | inr (s₁, done) ↦
                let same : s₁ ≡ s' = ground arith in
                let is : result ≡ terminal_no_op_result reason = ground arith in
                let c =
                  complete_pending_event-Completed lib s s' event i l n
                    (terminal_no_op_result reason) evidence draw.utc_now (done ∙ ap some same) in
                record {
                  reason = reason;
                  cause = cause;
                  result_is = is;
                  memories = ap (λ t. t.memories) c.store;
                  relations = ap (λ t. t.relations) c.store;
                  valid = rw is c.valid;
                  one_running = c.one_running;
                  runs = rw is (ap (λ t. t.runs) c.store);
                  cursors = ap (λ t. t.cursors) c.store;
                  events = rw is (ap (λ t. t.events) c.store);
                }
          ]

  abbrev finished : Fields → Run → Run
  finished r =
      finished_run lib draw.utc_now (run_state_of r) (normalized_run_evidence evidence) none none

  commit_memory-IsCommitted :
      has_newer_active_lifecycle_memory s event.project_id event.project_event_seq memory ≡ false
      → supersession_validation_error s event memory supersedes ≡ none
      → commit_memory lib s event i l n final_result memory supersedes embedding evidence draw
        ≡ (ok (some result), s')
      → IsCommitted lib s s' event i l n final_result memory supersedes embedding evidence draw
          result
  unfolding commit_memory
  commit_memory-IsCommitted current allowed h =
      let row = memory_row event memory embedding draw.memory_id in
      let stored = stored_result final_result draw.memory_id memory event supersedes in
      elim (Bool-cases (valid_embedding_payload lib memory embedding)) [
        | inr bad ↦ absurd (ground arith)
        | inl good ↦ elim (Option-cases (insert_memory s row)) [
          | inl taken ↦ absurd (ground arith)
          | inr (s₁, added) ↦
              elim (Option-cases
                (insert_supersession_edges s₁ supersedes draw.memory_id event.internal_id)) [
                  | inl refused ↦ absurd (ground arith)
                  | inr (s₂, linked) ↦
                      elim (Option-cases
                        (complete_pending_event lib s₂ event i l n stored evidence draw.utc_now)) [
                          | inl lost ↦ absurd (ground arith)
                          | inr (s₃, done) ↦
                              let same : s₃ ≡ s' = ground arith in
                              let is : result ≡ stored = ground arith in
                              let a = insert_memory-some s s₁ row added in
                              let e =
                                insert_supersession_edges-HasEdges s₁ s₂ supersedes draw.memory_id
                                  event.internal_id linked in
                              let c =
                                complete_pending_event-Completed lib s₂ s' event i l n stored
                                  evidence draw.utc_now (done ∙ ap some same) in
                              let held : s₂.runs ≡ s.runs = e.runs ∙ ap (λ t. t.runs) a.1 in
                              let relations : s'.relations ≡ s₂.relations =
                                ap (λ t. t.relations) c.store in
                              record {
                                current = current;
                                checked = supersession-none s event memory supersedes allowed;
                                embedded = good;
                                fresh_id =
                                    subst (λ id. any (λ x. str_eq x.id id) s.memories ≡ false)
                                      (memory_row-IsRowOf event memory embedding
                                        draw.memory_id).named
                                      a.0;
                                unreplaced_before =
                                    subst (λ t. All (λ p. is_replaced t p ≡ false) supersedes)
                                      (ap (λ t. t.relations) a.1) e.free;
                                replaced =
                                    subst (λ t. All (λ p. is_replaced t p ≡ true) supersedes)
                                      (sym relations) e.taken;
                                edges =
                                    relations
                                    ∙ e.edges
                                    ∙ ap
                                        (λ t.
                                          edges_to supersedes draw.memory_id event.internal_id
                                          ++ t.relations)
                                        a.1;
                                row = row;
                                row_of = memory_row-IsRowOf event memory embedding draw.memory_id;
                                memories =
                                    ap (λ t. t.memories) c.store
                                    ∙ e.memories
                                    ∙ ap (λ t. t.memories) a.1;
                                result_is = is;
                                valid = rw is c.valid;
                                one_running =
                                    ap (rowcount (is_running_run i n)) (sym held) ∙ c.one_running;
                                runs = rw is (
                                    ap (λ t. t.runs) c.store
                                    ∙ ap (update_where (is_running_run i n) (finished stored))
                                        held);
                                cursors =
                                    ap (λ t. t.cursors) c.store
                                    ∙ ap (advance_cursor event)
                                        (e.cursors ∙ ap (λ t. t.cursors) a.1);
                                events = rw is (
                                    ap (λ t. t.events) c.store
                                    ∙ ap (update_where (is_owned i l n) (completed_row stored))
                                        (e.events ∙ ap (λ t. t.events) a.1));
                              }
                        ]
                ]
        ]
      ]

  complete_owned-outcome :
      complete_owned lib s event i l n final_result memory supersedes embedding evidence draw
        ≡ (ok (some result), s')
      → IsCommitted lib s s' event i l n final_result memory supersedes embedding evidence draw
          result
        ⊎ IsTurnedDown lib s s' event i l n memory supersedes evidence draw result
  unfolding complete_owned
  complete_owned-outcome h =
      elim (Bool-cases
        (has_newer_active_lifecycle_memory s event.project_id event.project_event_seq memory)) [
          | inl newer ↦ inr (
              complete_without_memory-IsTurnedDown "stale_project_event" (inl (newer, refl))
                (ground arith))
          | inr current ↦
              elim (Option-cases (supersession_validation_error s event memory supersedes)) [
                | inr (e, refused) ↦
                    inr (complete_without_memory-IsTurnedDown e (inr refused) (ground arith))
                | inl allowed ↦ inl (commit_memory-IsCommitted current allowed (ground arith))
              ]
        ]

-- An operation that returns a result had an owned pending event, whose row has the result, whose running run
-- has ended, and whose session has advanced. Either every check passed and its memory was stored, with one
-- edge from each memory that it replaces to it and the event as the source of the edge, or it was turned
-- down for the reason that the result states and neither memories nor edges changed.
pub complete_operation-outcome :
    (lib : Library) (s s' : Store) (i l : String) (n : ℕ) (final_result : Fields)
    (memory : NormalMemory) (supersedes : List String) (embedding : Embedding)
    (evidence : Option Fields) (draw : Draw) (result : Fields)
    → complete_operation lib i l n final_result memory supersedes embedding evidence draw s
      ≡ (ok (some result), s')
    → (event : Event) × (pending_event_for_attempt s i l n ≡ some event)
      × (IsCommitted lib s s' event i l n final_result memory supersedes embedding evidence draw
            result
          ⊎ IsTurnedDown lib s s' event i l n memory supersedes evidence draw result)
unfolding complete_operation
complete_operation-outcome lib s s' i l n final_result memory supersedes embedding evidence draw
      result h =
    elim (Option-cases (pending_event_for_attempt s i l n)) [
      | inl lost ↦ absurd (ground arith)
      | inr (event, there) ↦ (
        event,
        there,
        complete_owned-outcome lib s s' event i l n final_result memory supersedes embedding
            evidence draw result (ground arith),
      )
    ]
