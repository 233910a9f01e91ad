-- ===== src/Store/Kept.antt =====
-- The methods of src/recallpack/storage.py that end an attempt keep the events and their runs in step.
use recallpack.Base.{
  ℕ, String, true, Option, none, some, List, ◌≡◌, refl, sym, subst, inl, inr, arith, ◌==◌,
  Bool-cases, Option-cases,
}
use recallpack.Json.{Fields, get, is_text}
use recallpack.Library.{Library}
use recallpack.Memory.{NormalMemory}
use recallpack.Embedding.{Embedding}
use recallpack.Store.Rows.{Event, RunState, running, failed_retryable, Run, Store, Draw}
use recallpack.Store.Query.{update_where, rowcount, is_owned}
use recallpack.Store.Runs.{finished_run, finish_run, Evidence, normalized_run_evidence}
use recallpack.Store.Audit.{same_run_state, expected_current_run_state}
use recallpack.Store.Consistent.{has_id, IsConsistent}
use recallpack.Store.Ending.{end-IsConsistent}
use recallpack.Store.Complete.{completed_row, run_state_of, complete_attempt, complete_operation}
use recallpack.Store.Outcomes.{complete_operation-all}
use recallpack.Store.Fail.{failed_row, fail_attempt, failure_code_of, detail_of}
use recallpack.Store.Ended.{
  finish_run-Finished, Completed, complete_attempt-true, complete_attempt-false,
}

-- The invariant of a store.
abbrev pub InStep : Store → Type 0
InStep s = IsConsistent s.events s.runs

pub owned-has_id : (i l : String) (n : ℕ) (e : Event) → is_owned i l n e ≡ true → has_id i e ≡ true
unfolding is_owned
owned-has_id i l n e h = ground arith

pub owned_open :
    (i l : String) (n : ℕ) (e : Event)
    → is_owned i l n e ≡ true
    → (e.attempt_count ≡ n) × (expected_current_run_state e ≡ running)
unfolding is_owned expected_current_run_state
owned_open i l n e h = ground arith

pub finished_run-event :
    (lib : Library) (now : String) (state : RunState) (evidence : Evidence)
    (code detail : Option String) (run : Run)
    → (finished_run lib now state evidence code detail run).event_internal_id
      ≡ run.event_internal_id
unfolding finished_run
finished_run-event lib now state evidence code detail run = refl

pub finished_run-number :
    (lib : Library) (now : String) (state : RunState) (evidence : Evidence)
    (code detail : Option String) (run : Run)
    → (finished_run lib now state evidence code detail run).attempt_no ≡ run.attempt_no
unfolding finished_run
finished_run-number lib now state evidence code detail run = refl

completed_row-id :
    (result : Fields) (e : Event) → (completed_row result e).internal_id ≡ e.internal_id
unfolding completed_row
completed_row-id result e = refl

completed-expected :
    (lib : Library) (i l : String) (n : ℕ) (result : Fields) (now : String) (evidence : Evidence)
    (e : Event) (r : Run)
    → is_owned i l n e ≡ true
    → ((completed_row result e).attempt_count ≡ n)
      × (same_run_state
            (finished_run lib now (run_state_of result) evidence none none r).state
            (expected_current_run_state (completed_row result e))
          ≡ true)
unfolding completed_row finished_run expected_current_run_state
completed-expected lib i l n result now evidence e r h =
    let (k, s) = owned_open i l n e h in
    (
      k,
      elim (Bool-cases (is_text (get "operation" result) "write")) [
        | inl write ↦ rw write refl
        | inr other ↦ rw other refl
      ],
    )

pub Completed-InStep :
    (lib : Library) (s s' : Store) (event : Event) (i l : String) (n : ℕ) (result : Fields)
    (evidence : Option Fields) (now : String)
    → Completed lib s s' event i l n result evidence now
    → InStep s
    → InStep s'
Completed-InStep lib s s' event i l n result evidence now c k =
    let g =
      finished_run lib now (run_state_of result) (normalized_run_evidence evidence) none none in
    let ended =
      end-IsConsistent i n g
        (finished_run-event lib now (run_state_of result) (normalized_run_evidence evidence) none
          none)
        (finished_run-number lib now (run_state_of result) (normalized_run_evidence evidence) none
          none)
        (is_owned i l n) (completed_row result) (owned-has_id i l n) (completed_row-id result)
        (owned_open i l n) s.events s.runs
        (completed-expected lib i l n result now (normalized_run_evidence evidence)) k
        c.one_owned in
    subst InStep (sym c.store) ended

pub complete_attempt-InStep :
    (lib : Library) (i l : String) (n : ℕ) (result : Fields) (evidence : Option Fields)
    (now : String) (s : Store)
    → InStep s
    → InStep (complete_attempt lib i l n result evidence now s).1
complete_attempt-InStep lib i l n result evidence now s k =
    elim (Bool-cases (complete_attempt lib i l n result evidence now s).0) [
      | inl done ↦
          let (event, there, c) = complete_attempt-true lib i l n result evidence now s done in
          Completed-InStep lib s (complete_attempt lib i l n result evidence now s).1 event i l n
            result evidence now c k
      | inr refused ↦
          subst InStep (sym (complete_attempt-false lib i l n result evidence now s refused)) k
    ]

failed_row-id : (code : String) (e : Event) → (failed_row code e).internal_id ≡ e.internal_id
unfolding failed_row
failed_row-id code e = refl

failed-expected :
    (lib : Library) (i l : String) (n : ℕ) (code : String) (detail : Option String) (now : String)
    (evidence : Evidence) (e : Event) (r : Run)
    → is_owned i l n e ≡ true
    → ((failed_row code e).attempt_count ≡ n)
      × (same_run_state
            (finished_run lib now failed_retryable evidence (some code) detail r).state
            (expected_current_run_state (failed_row code e))
          ≡ true)
unfolding failed_row finished_run expected_current_run_state
failed-expected lib i l n code detail now evidence e r h = ((owned_open i l n e h).0, refl)

pub fail_attempt-InStep :
    (lib : Library) (i l : String) (n : ℕ) (error : String) (evidence : Option Fields)
    (detail : Option String) (now : String) (s : Store)
    → InStep s
    → InStep (fail_attempt lib i l n error evidence detail now s).1
unfolding fail_attempt
fail_attempt-InStep lib i l n error evidence detail now s k =
    let code = failure_code_of error in
    let text = detail_of error detail in
    let events = update_where (is_owned i l n) (failed_row code) s.events in
    elim (Bool-cases (rowcount (is_owned i l n) s.events == 1)) [
      | inr other ↦ rw other k
      | inl one ↦
          elim (Option-cases (
            finish_run lib (record s { events = events }) i n failed_retryable evidence (some code)
              text now)) [
                | inl unfinished ↦ rw (one, unfinished) k
                | inr (s', done) ↦
                    let f =
                      finish_run-Finished lib (record s { events = events }) s' i n failed_retryable
                        evidence (some code) text now done in
                    let v = normalized_run_evidence evidence in
                    let ended =
                      end-IsConsistent i n
                        (finished_run lib now failed_retryable v (some code) text)
                        (finished_run-event lib now failed_retryable v (some code) text)
                        (finished_run-number lib now failed_retryable v (some code) text)
                        (is_owned i l n) (failed_row code) (owned-has_id i l n) (failed_row-id code)
                        (owned_open i l n) s.events s.runs
                        (failed-expected lib i l n code text now v) k (ground arith) in
                    rw (one, done) (subst InStep (sym f.store) ended)
              ]
    ]

pub complete_operation-InStep :
    (lib : Library) (i l : String) (n : ℕ) (final_result : Fields) (memory : NormalMemory)
    (supersedes : List String) (embedding : Embedding) (evidence : Option Fields) (draw : Draw)
    (s : Store)
    → InStep s
    → InStep
        (complete_operation lib i l n final_result memory supersedes embedding evidence draw s).1
complete_operation-InStep lib i l n final_result memory supersedes embedding evidence draw s k =
    complete_operation-all lib s i l n evidence InStep k
      (λ t s' event result now same there c.
        Completed-InStep lib t s' event i l n result evidence now c (
          subst (λ es. IsConsistent es t.runs) (sym same.events)
            (subst (λ rs. IsConsistent s.events rs) (sym same.runs) k)))
      final_result memory supersedes embedding draw
