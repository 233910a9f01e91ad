-- ===== src/Store/Ended.antt =====
-- What a successful end of an attempt in src/recallpack/storage.py did to each table.
use recallpack.Base.{
  ℕ, String, true, false, Option, none, some, ◌≡◌, inl, inr, arith, ◌==◌, Bool-cases, Option-cases,
}
use recallpack.Json.{obj, Fields}
use recallpack.Library.{Library}
use recallpack.Store.Rows.{Event, RunState, Store}
use recallpack.Store.Query.{update_where, rowcount, is_owned, pending_event_for_attempt}
use recallpack.Store.Results.{valid_v4_final_result}
use recallpack.Store.Runs.{normalized_run_evidence, is_running_run, finished_run, finish_run}
use recallpack.Store.Complete.{
  completed_row, advance_cursor, run_state_of, complete_pending_event, complete_attempt,
}

-- `_finish_run` wrote one running row and nothing else.
pub record Finished (lib : Library) (s s' : Store) (event_internal_id : String) (attempt_no : ℕ)
    (state : RunState) (run_evidence : Option Fields) (failure_code error_detail : Option String)
    (utc_now : String) : Type 0 where
  pub one_running : rowcount (is_running_run event_internal_id attempt_no) s.runs ≡ 1
  pub store : s' ≡ record s {
    runs =
        update_where
          (is_running_run event_internal_id attempt_no)
          (finished_run lib utc_now state
            (normalized_run_evidence run_evidence)
            failure_code
            error_detail)
          s.runs;
  }

pub finish_run-Finished :
    (lib : Library) (s s' : Store) (i : String) (n : ℕ) (state : RunState)
    (evidence : Option Fields) (code detail : Option String) (now : String)
    → finish_run lib s i n state evidence code detail now ≡ some s'
    → Finished lib s s' i n state evidence code detail now
unfolding finish_run
finish_run-Finished lib s s' i n state evidence code detail now h =
    elim (Bool-cases (rowcount (is_running_run i n) s.runs == 1)) [
      | inl one ↦ record { one_running = ground arith; store = ground arith }
      | inr other ↦ absurd (ground arith)
    ]

-- `_complete_pending_event` wrote the one owned row, its run, and the cursor of its session.
pub record Completed (lib : Library) (s s' : Store) (event : Event) (i l : String) (n : ℕ)
    (result : Fields) (evidence : Option Fields) (now : String) : Type 0 where
  pub valid : valid_v4_final_result (some (obj result)) ≡ true
  pub one_owned : rowcount (is_owned i l n) s.events ≡ 1
  pub one_running : rowcount (is_running_run i n) s.runs ≡ 1
  pub store : s' ≡ record s {
    events = update_where (is_owned i l n) (completed_row result) s.events;
    runs =
        update_where
          (is_running_run i n)
          (finished_run lib now (run_state_of result) (normalized_run_evidence evidence) none none)
          s.runs;
    cursors = advance_cursor event s.cursors;
  }

pub complete_pending_event-Completed :
    (lib : Library) (s s' : Store) (event : Event) (i l : String) (n : ℕ) (result : Fields)
    (evidence : Option Fields) (now : String)
    → complete_pending_event lib s event i l n result evidence now ≡ some s'
    → Completed lib s s' event i l n result evidence now
unfolding complete_pending_event
complete_pending_event-Completed lib s s' event i l n result evidence now h =
    elim (Bool-cases (valid_v4_final_result (some (obj result)))) [
      | inr bad ↦ absurd (ground arith)
      | inl good ↦ elim (Bool-cases (rowcount (is_owned i l n) s.events == 1)) [
        | inr other ↦ absurd (ground arith)
        | inl one ↦
            let before = record s {
              events = update_where (is_owned i l n) (completed_row result) s.events;
            } in
            elim (Option-cases
              (finish_run lib before i n (run_state_of result) evidence none none now)) [
                | inl unfinished ↦ absurd (ground arith)
                | inr (s₁, done) ↦
                    let f =
                      finish_run-Finished lib before s₁ i n (run_state_of result) evidence none none
                        now done in
                    record {
                      valid = good;
                      one_owned = ground arith;
                      one_running = f.one_running;
                      store = ground (arith, f.store);
                    }
              ]
      ]
    ]

-- `complete_event` of an attempt: it found the owned row and completed it, or changed nothing.
pub complete_attempt-true :
    (lib : Library) (i l : String) (n : ℕ) (result : Fields) (evidence : Option Fields)
    (now : String) (s : Store)
    → (complete_attempt lib i l n result evidence now s).0 ≡ true
    → (event : Event) × (pending_event_for_attempt s i l n ≡ some event)
      × Completed lib s
          (complete_attempt lib i l n result evidence now s).1
          event
          i
          l
          n
          result
          evidence
          now
unfolding complete_attempt
complete_attempt-true lib i l n result evidence now s h =
    elim (Option-cases (pending_event_for_attempt s i l n)) [
      | inl missing ↦ absurd (ground arith)
      | inr (event, there) ↦
          elim (Option-cases (complete_pending_event lib s event i l n result evidence now)) [
            | inl refused ↦ absurd (ground arith)
            | inr (s', done) ↦
                let c =
                  complete_pending_event-Completed lib s s' event i l n result evidence now done in
                (event, there, rw (c.valid, there, done) c)
          ]
    ]

pub complete_attempt-false :
    (lib : Library) (i l : String) (n : ℕ) (result : Fields) (evidence : Option Fields)
    (now : String) (s : Store)
    → (complete_attempt lib i l n result evidence now s).0 ≡ false
    → (complete_attempt lib i l n result evidence now s).1 ≡ s
unfolding complete_attempt
complete_attempt-false lib i l n result evidence now s h = ground arith
