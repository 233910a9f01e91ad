-- ===== src/Store/Audit.antt =====
-- `_audit_v4_event_run_consistency` of src/recallpack/storage.py, the audit of the runs of every event
-- when a store is opened; the SELECT of the runs of an event comes in the order of the attempts.
use recallpack.Base.{
  ℕ, ◌+◌, String, Bool, true, false, not, ◌&&◌, Option, none, some, List, [], ◌∷◌, length, find,
  any, all, keep, ltb, ◌==◌, str_eq, if◌then◌else◌,
}
use recallpack.Json.{Json, obj, get, is_text}
use recallpack.Store.Rows.{
  pending, completed, failed, Event, RunState, running, succeeded, semantic_no_op, failed_retryable,
  lost_lease, Run,
}
use recallpack.Store.Query.{is_running}

abbrev pub is_of_event : String → Run → Bool
is_of_event event_internal_id run = str_eq run.event_internal_id event_internal_id

unfoldable pub insert_run : Run → List Run → List Run
insert_run run [] = run ∷ []
insert_run run (r ∷ rs) =
    if ltb r.attempt_no run.attempt_no then r ∷ insert_run run rs else run ∷ r ∷ rs

-- `ORDER BY attempt_no`
unfoldable pub order_runs : List Run → List Run
order_runs [] = []
order_runs (r ∷ rs) = insert_run r (order_runs rs)

unfoldable pub runs_of_event : List Run → String → List Run
runs_of_event runs event_internal_id = keep (is_of_event event_internal_id) runs

abbrev pub same_run_state : RunState → RunState → Bool
same_run_state running running = true
same_run_state succeeded succeeded = true
same_run_state semantic_no_op semantic_no_op = true
same_run_state failed_retryable failed_retryable = true
same_run_state lost_lease lost_lease = true
same_run_state _ _ = false

abbrev pub is_write_result : Option Json → Bool
is_write_result (some (obj result)) = is_text (get "operation" result) "write"
is_write_result _ = false

-- `_expected_current_run_state`
unfoldable pub expected_current_run_state : Event → RunState
expected_current_run_state e = elim e.processing_state [
  | pending ↦ running
  | failed ↦ failed_retryable
  | completed ↦ if is_write_result e.final_result_json then succeeded else semantic_no_op
]

-- The attempt numbers are those from `first` on, in steps of one.
unfoldable pub numbers_from : ℕ → List Run → Bool
numbers_from first [] = true
numbers_from first (r ∷ rs) = r.attempt_no == first && numbers_from (first + 1) rs

abbrev pub is_ended : RunState → Bool
is_ended failed_retryable = true
is_ended lost_lease = true
is_ended _ = false

-- `runs[:-1]`
unfoldable pub without_last : List Run → List Run
without_last [] = []
without_last (r ∷ []) = []
without_last (r ∷ s ∷ rs) = r ∷ without_last (s ∷ rs)

-- The tests on the ordered runs of an event, in the order of the loop's body.
unfoldable pub consistent_runs : Event → List Run → Bool
consistent_runs e runs =
    if not (numbers_from 1 runs && length runs == e.attempt_count)
    then false
    else elim (find (λ r. r.attempt_no == e.attempt_count) runs) [
      | none ↦ false
      | some current ↦
          not (any (λ r. is_running r.state && not (r.attempt_no == e.attempt_count)) runs)
          && not (any (λ r. not (is_ended r.state)) (without_last runs))
          && same_run_state current.state (expected_current_run_state e)
    ]

unfoldable pub audit_event_runs : List Run → Event → Bool
audit_event_runs runs e = consistent_runs e (order_runs (runs_of_event runs e.internal_id))

unfoldable pub audit_event_run_consistency : List Event → List Run → Bool
audit_event_run_consistency events runs = all (audit_event_runs runs) events
