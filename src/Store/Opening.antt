-- ===== src/Store/Opening.antt =====
-- The claims of src/recallpack/storage.py keep the events and their runs in step.
use recallpack.Base.{
  ℕ, ◌-◌, ◌<◌, String, Bool, true, false, none, some, List, [], ◌∷◌, ◌≡◌, refl, inl, inr, arith,
  any, Bool-cases,
}
use recallpack.Json.{arr, nil}
use recallpack.Store.Rows.{Event, running, failed_retryable, Run, Store}
use recallpack.Store.Query.{rowcount, is_pending}
use recallpack.Store.Runs.{insert_running_run}
use recallpack.Store.Lease.{is_as_read, taken_over}
use recallpack.Store.Audit.{expected_current_run_state, is_ended}
use recallpack.Store.History.{ended, has_history}
use recallpack.Store.Consistent.{has_id}

-- The row of `_insert_running_run`.
abbrev pub opened_run : String → String → ℕ → String → String → Run
opened_run run_id i n mode at = record {
  id = run_id;
  event_internal_id = i;
  attempt_no = n;
  state = running;
  provider_mode = mode;
  model_calls = nil;
  embedding_calls = nil;
  tool_arguments = none;
  validation = arr nil;
  failure_code = none;
  error_detail = none;
  started_at = at;
  finished_at = none;
  duration_ms = none;
}

pub insert_running_run-rows :
    (s s' : Store) (run_id i : String) (n : ℕ) (mode at : String)
    → insert_running_run s run_id i n mode at ≡ some s'
    → (s'.events ≡ s.events) × (s'.runs ≡ opened_run run_id i n mode at ∷ s.runs)
unfolding insert_running_run
insert_running_run-rows s s' run_id i n mode at h = (ground arith, ground arith)

pub as_read-has_id : (x e : Event) → is_as_read x e ≡ true → has_id x.internal_id e ≡ true
unfolding is_as_read
as_read-has_id x e h = ground arith

pub as_read-number : (x e : Event) → is_as_read x e ≡ true → e.attempt_count ≡ x.attempt_count
unfolding is_as_read
as_read-number x e h = ground arith

pub as_read-pending :
    (x e : Event)
    → is_as_read x e ≡ true
    → is_pending x.processing_state ≡ true
    → expected_current_run_state e ≡ running
unfolding is_as_read expected_current_run_state
as_read-pending x e h p = ground arith

pub as_read-failed :
    (x e : Event)
    → is_as_read x e ≡ true
    → is_pending x.processing_state ≡ false
    → expected_current_run_state e ≡ failed_retryable
unfolding is_as_read expected_current_run_state
as_read-failed x e h p = ground arith

pub taken_over-id :
    (n : ℕ) (t : String) (m : ℕ) (e : Event) → (taken_over n t m e).internal_id ≡ e.internal_id
unfolding taken_over
taken_over-id n t m e = refl

pub taken_over-open :
    (n : ℕ) (t : String) (m : ℕ) (e : Event)
    → ((taken_over n t m e).attempt_count ≡ n)
      × (expected_current_run_state (taken_over n t m e) ≡ running)
unfolding taken_over expected_current_run_state
taken_over-open n t m e = (refl, refl)

pub any-rowcount :
    (p q : Event → Bool) (events : List Event)
    → ((e : Event) → p e ≡ true → q e ≡ true)
    → rowcount p events ≡ 1
    → any q events ≡ true
unfolding any rowcount
any-rowcount p q [] w h = absurd (omega arith)
any-rowcount p q (x ∷ xs) w h = elim (Bool-cases (p x)) [
  | inl hit ↦ ground (arith, w x hit)
  | inr miss ↦ ground (arith, any-rowcount p q xs w (ground arith))
]

-- A finished run that ended without a result is past.
pub ended-cons :
    (n : ℕ) (r : Run) (rs : List Run)
    → r.attempt_no ≡ n
    → 0 < n
    → is_ended r.state ≡ true
    → ended (n - 1) rs ≡ true
    → ended n (r ∷ rs) ≡ true
unfolding ended
ended-cons n r rs k p s h = ground (arith, k, p, s, h)

-- The runs of an event whose current run failed are past.
pub failed-ended :
    (e : Event) (rs : List Run)
    → has_history e rs ≡ true
    → expected_current_run_state e ≡ failed_retryable
    → ended e.attempt_count rs ≡ true
unfolding has_history ended
failed-ended e [] h s = absurd (ground arith)
failed-ended e (r ∷ rs) h s = ground (arith, s)
