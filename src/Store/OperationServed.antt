-- ===== src/Store/OperationServed.antt =====
-- `complete_observe_operation` of src/recallpack/storage.py, called by the owner of an attempt.
use recallpack.Base.{
  ℕ, String, true, false, Option, none, some, List, [], ◌∷◌, ◌≡◌, refl, ap, sym, subst, ◌∙◌, inl,
  inr, arith, str_eq, str_eq_sound, str_eq_complete, str_eq_refl, any, All, Bool-cases,
  Option-cases, ok,
}
use recallpack.Json.{obj, Fields, str, nonempty_text, member, distinct_texts}
use recallpack.Library.{Library}
use recallpack.Memory.{MemoryRecord, NormalMemory}
use recallpack.Embedding.{Embedding, valid_embedding_payload}
use recallpack.Store.Rows.{completed, Event, Store, Draw}
use recallpack.Store.Query.{
  rowcount, is_owned, is_replaced, has_newer_active_lifecycle_memory, pending_event_for_attempt,
}
use recallpack.Store.Results.{valid_v4_final_result, terminal_no_op_result}
use recallpack.Store.Runs.{is_running_run, finish_run}
use recallpack.Store.Complete.{
  run_state_of, complete_pending_event, memory_row, insert_memory, complete_without_memory,
  stored_result, commit_memory, complete_owned, complete_operation,
}
use recallpack.Store.Supersede.{
  supersession_validation_error, insert_supersession_edges, prior_error, first_prior_error,
  named_active,
}
use recallpack.Store.Ended.{complete_pending_event-Completed}
use recallpack.Store.Edges.{with_edge, insert_supersession_edges-HasEdges}
use recallpack.Store.Accept.{no_op-IsTaken}
use recallpack.Store.Kept.{InStep}
use recallpack.Store.Alive.{owned-counts}
use recallpack.Store.Answer.{StoreError}
use recallpack.Base.{Result}
use recallpack.Store.Served.{IsClosed, completed-IsClosed}

-- A stored memory that no other has replaced.
abbrev pub IsReplaceable : Store → String → Type 0
IsReplaceable s prior =
    (any (λ m. str_eq m.id prior) s.memories ≡ true) × (is_replaced s.relations prior ≡ false)

-- An edge to one memory leaves the others without a successor.
with_edge-IsReplaceable :
    (s : Store) (prior successor source : String) (ids : List String)
    → member prior ids ≡ false
    → All (IsReplaceable s) ids
    → All (IsReplaceable (with_edge s prior successor source)) ids
unfolding is_replaced any
with_edge-IsReplaceable s prior successor source [] other hs = tt
with_edge-IsReplaceable s prior successor source (i ∷ is) other hs =
    let unlike : str_eq prior i ≡ false = elim (Bool-cases (str_eq prior i)) [
      | inr apart ↦ apart
      | inl same ↦
          let here : str_eq i prior ≡ true =
            str_eq_complete i prior (sym (str_eq_sound prior i same)) in
          absurd (ground arith)
    ] in
    (
      (hs.0.0, rw unlike hs.0.1),
      with_edge-IsReplaceable s prior successor source is (ground arith) hs.1,
    )

edges_inserted :
    (s : Store) (priors : List String) (successor source : String)
    → distinct_texts priors ≡ true
    → any (λ m. str_eq m.id successor) s.memories ≡ true
    → All (IsReplaceable s) priors
    → (s' : Store) × (insert_supersession_edges s priors successor source ≡ some s')
unfolding insert_supersession_edges is_replaced
edges_inserted s [] successor source distinct there hs = (s, refl)
edges_inserted s (p ∷ ps) successor source distinct there hs =
    let s₁ = with_edge s p successor source in
    let (s', rest) =
      edges_inserted s₁ ps successor source (ground arith) there
        (with_edge-IsReplaceable s p successor source ps (ground arith) hs.1) in
    (s', ground (arith, hs.0.0, hs.0.1, there, rest))

-- The codes of the supersession checks are no empty texts.
codes-nonempty :
    (nonempty_text (str "cross_project_candidate") ≡ true)
    × (nonempty_text (str "supersession_requires_older_prior") ≡ true)
    × (nonempty_text (str "supersession_scope_mismatch") ≡ true)
    × (nonempty_text (str "invalid_tool_output") ≡ true)
    × (nonempty_text (str "forbidden_lesson_supersession") ≡ true)
    × (nonempty_text (str "inactive_supersession_target") ≡ true)
    × (nonempty_text (str "stale_project_event") ≡ true)
unfolding str_eq
codes-nonempty = (refl, refl, refl, refl, refl, refl, refl)

prior_error-nonempty :
    (event : Event) (memory : NormalMemory) (prior : MemoryRecord) (code : String)
    → prior_error event memory prior ≡ some code
    → nonempty_text (str code) ≡ true
unfolding prior_error
prior_error-nonempty event memory prior code h = ground (arith, codes-nonempty)

first_prior_error-nonempty :
    (event : Event) (memory : NormalMemory) (priors : List MemoryRecord) (code : String)
    → first_prior_error event memory priors ≡ some code
    → nonempty_text (str code) ≡ true
unfolding first_prior_error
first_prior_error-nonempty event memory [] code h = absurd (ground arith)
first_prior_error-nonempty event memory (p ∷ ps) code h =
    elim (Option-cases (prior_error event memory p)) [
      | inl fits ↦ first_prior_error-nonempty event memory ps code (ground arith)
      | inr (other, refused) ↦
          let same : other ≡ code = ground arith in
          prior_error-nonempty event memory p code (refused ∙ ap some same)
    ]

supersession-nonempty :
    (s : Store) (event : Event) (memory : NormalMemory) (ids : List String) (code : String)
    → supersession_validation_error s event memory ids ≡ some code
    → nonempty_text (str code) ≡ true
unfolding supersession_validation_error
supersession-nonempty s event memory ids code h =
    elim (Option-cases (first_prior_error event memory (named_active s ids))) [
      | inl fits ↦ ground (arith, codes-nonempty)
      | inr (other, refused) ↦
          let known = first_prior_error-nonempty event memory (named_active s ids) other refused in
          ground (arith, codes-nonempty)
    ]

supersession-distinct :
    (s : Store) (event : Event) (memory : NormalMemory) (ids : List String)
    → supersession_validation_error s event memory ids ≡ none
    → distinct_texts ids ≡ true
unfolding supersession_validation_error
supersession-distinct s event memory ids h = ground arith

-- What `complete_observe_operation` leaves for the owner.
module _ (lib : Library) (i l : String) (n : ℕ) (evidence : Option Fields) (draw : Draw) (s : Store)
    (e : Event) (k : InStep s) (there : pending_event_for_attempt s i l n ≡ some e) where
  -- The row and the run of the attempt are written in a store with the same tables of both.
  pending_completed :
      (t : Store) (result : Fields)
      → t.events ≡ s.events
      → t.runs ≡ s.runs
      → valid_v4_final_result (some (obj result)) ≡ true
      → (s' : Store) × (complete_pending_event lib t e i l n result evidence draw.utc_now ≡ some s')
        × IsClosed lib s s' i l n completed
            (run_state_of result)
            none
            (some (obj result))
            evidence
            none
            draw.utc_now
  unfolding complete_pending_event finish_run
  pending_completed t result same_events same_runs valid =
      let c = owned-counts s i l n e k there in
      let owned : rowcount (is_owned i l n) t.events ≡ 1 = rw same_events c.0 in
      let runs : rowcount (is_running_run i n) t.runs ≡ 1 = rw same_runs c.1 in
      elim (Option-cases (complete_pending_event lib t e i l n result evidence draw.utc_now)) [
        | inl refused ↦ absurd (ground arith)
        | inr (s', done) ↦
            let d =
              complete_pending_event-Completed lib t s' e i l n result evidence draw.utc_now done in
            (
              s',
              done,
              completed-IsClosed lib i l n result evidence draw.utc_now s s' e k there c.1
                  (rw (ap (λ u. u.events) d.store) (rw same_events refl))
                  (rw (ap (λ u. u.runs) d.store) (rw same_runs refl)),
            )
      ]

  -- A call that returned a result, and closed the attempt with it.
  abbrev pub IsServed : Result StoreError (Option Fields) × Store → Type 0
  IsServed r =
      (result : Fields) × (s' : Store) × (r ≡ (ok (some result), s'))
      × IsClosed lib s s' i l n completed (run_state_of result) none (some (obj result)) evidence
          none draw.utc_now

  turned_down-IsServed :
      (reason : String)
      → nonempty_text (str reason) ≡ true
      → IsServed (complete_without_memory lib s e i l n reason evidence draw.utc_now)
  unfolding complete_without_memory
  turned_down-IsServed reason filled =
      let (s', done, closed) =
        pending_completed s (terminal_no_op_result reason) refl refl
          (no_op-IsTaken reason ∙ filled) in
      (terminal_no_op_result reason, s', rw (done, complete_without_memory) refl, closed)

  module _ (given : Fields) (memory : NormalMemory) (supersedes : List String)
      (embedding : Embedding) (embedded : valid_embedding_payload lib memory embedding ≡ true)
      (fresh : any (λ m. str_eq m.id draw.memory_id) s.memories ≡ false)
      (replaceable : All (IsReplaceable s) supersedes)
      (valid : valid_v4_final_result
          (some (obj (stored_result given draw.memory_id memory e supersedes)))
        ≡ true) where
    abbrev with_memory : Store
    with_memory = record s { memories = memory_row e memory embedding draw.memory_id ∷ s.memories }

    inserted : insert_memory s (memory_row e memory embedding draw.memory_id) ≡ some with_memory
    unfolding insert_memory memory_row
    inserted = rw fresh refl

    with_memory-IsReplaceable :
        (ids : List String) → All (IsReplaceable s) ids → All (IsReplaceable with_memory) ids
    unfolding any
    with_memory-IsReplaceable [] hs = tt
    with_memory-IsReplaceable (j ∷ js) hs =
        ((ground (arith, hs.0.0), hs.0.1), with_memory-IsReplaceable js hs.1)

    new_stored : any (λ m. str_eq m.id draw.memory_id) with_memory.memories ≡ true
    unfolding any memory_row
    new_stored = rw (str_eq_refl draw.memory_id) refl

    commit_memory-IsServed :
        distinct_texts supersedes ≡ true
        → IsServed (commit_memory lib s e i l n given memory supersedes embedding evidence draw)
    unfolding commit_memory
    commit_memory-IsServed distinct =
        let (s₂, linked) =
          edges_inserted with_memory supersedes draw.memory_id e.internal_id distinct new_stored
            (with_memory-IsReplaceable supersedes replaceable) in
        let h =
          insert_supersession_edges-HasEdges with_memory s₂ supersedes draw.memory_id e.internal_id
            linked in
        let result = stored_result given draw.memory_id memory e supersedes in
        let (s', done, closed) = pending_completed s₂ result h.events h.runs valid in
        (result, s', rw (embedded, inserted, linked, done) refl, closed)

    complete_operation-IsServed :
        IsServed (complete_operation lib i l n given memory supersedes embedding evidence draw s)
    unfolding complete_operation complete_owned
    complete_operation-IsServed =
        let call = complete_operation lib i l n given memory supersedes embedding evidence draw s in
        let turned : String → Result StoreError (Option Fields) × Store =
          λ code. complete_without_memory lib s e i l n code evidence draw.utc_now in
        elim (Bool-cases
          (has_newer_active_lifecycle_memory s e.project_id e.project_event_seq memory)) [
            | inl newer ↦
                let same : turned "stale_project_event" ≡ call =
                  rw (there, complete_operation) (rw (newer, complete_owned) refl) in
                subst IsServed same
                  (turned_down-IsServed "stale_project_event" (ground (arith, codes-nonempty)))
            | inr current ↦
                elim (Option-cases (supersession_validation_error s e memory supersedes)) [
                  | inr (code, refused) ↦
                      let same : turned code ≡ call =
                        rw (there, complete_operation)
                          (rw (current, refused, complete_owned) refl) in
                      subst IsServed same (
                        turned_down-IsServed code
                          (supersession-nonempty s e memory supersedes code refused))
                  | inl allowed ↦
                      let same : commit_memory lib s e i l n given memory supersedes embedding
                            evidence draw
                          ≡ call =
                        rw (there, complete_operation)
                          (rw (current, allowed, complete_owned) refl) in
                      subst IsServed same (
                        commit_memory-IsServed
                          (supersession-distinct s e memory supersedes allowed))
                ]
          ]

-- In a store whose events and runs are in step, what the owner of an attempt hands to
-- complete_observe_operation is recorded: if the embedding is valid, the identifier of the memory is new, the memories
-- to replace are stored and not replaced, and the result with the memory is valid, then a result is returned. The row
-- of the event is then completed with it, its one running run has ended, and the attempt owns the event no more.
pub operation-served :
    (lib : Library) (i l : String) (n : ℕ) (given : Fields) (memory : NormalMemory)
    (supersedes : List String) (embedding : Embedding) (evidence : Option Fields) (draw : Draw)
    (s : Store) (e : Event)
    → InStep s
    → pending_event_for_attempt s i l n ≡ some e
    → valid_embedding_payload lib memory embedding ≡ true
    → any (λ m. str_eq m.id draw.memory_id) s.memories ≡ false
    → All (IsReplaceable s) supersedes
    → valid_v4_final_result (some (obj (stored_result given draw.memory_id memory e supersedes)))
      ≡ true
    → (result : Fields) × (s' : Store) × (complete_operation lib i l n given memory supersedes
          embedding evidence draw s
        ≡ (ok (some result), s'))
      × IsClosed lib s s' i l n completed
          (run_state_of result)
          none
          (some (obj result))
          evidence
          none
          draw.utc_now
operation-served lib i l n given memory supersedes embedding evidence draw s e k there embedded
      fresh replaceable valid =
    complete_operation-IsServed lib i l n evidence draw s e k there given memory supersedes
      embedding embedded fresh replaceable valid
