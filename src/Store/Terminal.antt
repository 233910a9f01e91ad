-- ===== src/Store/Terminal.antt =====
-- `fail_terminal_event` of src/recallpack/storage.py leaves a running run behind an event that failed.
use recallpack.Base.{
  ℕ, String, Bool, true, false, some, List, [], ◌∷◌, ◌≡◌, refl, sym, subst, inl, inr, arith, find,
  all, Bool-cases,
}
use recallpack.Json.{Fields}
use recallpack.Store.Rows.{
  Event, Run, RunState, running, succeeded, semantic_no_op, failed_retryable, lost_lease, Store,
}
use recallpack.Store.Query.{update_where, is_owned, pending_event_for_attempt}
use recallpack.Store.Fail.{terminal_row, fail_terminal_attempt}
use recallpack.Store.Audit.{
  runs_of_event, order_runs, same_run_state, expected_current_run_state, consistent_runs,
  audit_event_runs, audit_event_run_consistency,
}
use recallpack.Store.History.{mismatch-consistent_runs}
use recallpack.Store.Tables.{find_sound}
use recallpack.Store.Updates.{All-find}
use recallpack.Store.Consistent.{HasHistory}
use recallpack.Store.Kept.{InStep, owned_open}
use recallpack.Store.Alive.{owned-counts}

all-update-false :
    (fits : Event → Bool) (f : Event → Event) (test : Event → Bool) (events : List Event)
    (e : Event)
    → find fits events ≡ some e
    → test (f e) ≡ false
    → all test (update_where fits f events) ≡ false
unfolding find all update_where
all-update-false fits f test [] e h k = absurd (ground arith)
all-update-false fits f test (x ∷ xs) e h k = elim (Bool-cases (fits x)) [
  | inl hit ↦
      let same : x ≡ e = ground arith in
      let bad : test (f x) ≡ false = subst (λ y. test (f y) ≡ false) (sym same) k in
      rw (hit, bad) refl
  | inr miss ↦ ground (arith, all-update-false fits f test xs e (ground arith) k)
]

terminal_row-columns :
    (error : String) (result : Fields) (e : Event)
    → ((terminal_row error result e).internal_id ≡ e.internal_id)
      × ((terminal_row error result e).attempt_count ≡ e.attempt_count)
      × (expected_current_run_state (terminal_row error result e) ≡ failed_retryable)
unfolding terminal_row expected_current_run_state
terminal_row-columns error result e = (refl, refl, refl)

not_failed :
    (r : RunState) → same_run_state r running ≡ true → same_run_state r failed_retryable ≡ false
not_failed running h = refl
not_failed succeeded h = refl
not_failed semantic_no_op h = refl
not_failed failed_retryable h = sym h
not_failed lost_lease h = refl

terminal-audit :
    (error : String) (result : Fields) (runs : List Run) (e : Event)
    → HasHistory runs e
    → expected_current_run_state e ≡ running
    → audit_event_runs runs (terminal_row error result e) ≡ false
unfolding audit_event_runs
terminal-audit error result runs e h s =
    let c = terminal_row-columns error result e in
    subst
      (λ j.
        consistent_runs (terminal_row error result e) (order_runs (runs_of_event runs j)) ≡ false)
      (sym c.0)
      (mismatch-consistent_runs e (terminal_row error result e) (runs_of_event runs e.internal_id)
        running h c.1 s (λ r k. subst (λ t. same_run_state r t ≡ false) (sym c.2) (not_failed r k)))

owned-find :
    (s : Store) (i l : String) (n : ℕ) (e : Event)
    → pending_event_for_attempt s i l n ≡ some e
    → find (is_owned i l n) s.events ≡ some e
unfolding pending_event_for_attempt
owned-find s i l n e h = h

-- In a store in step, a terminal failure of an attempt that is owned is recorded, and the audit of the events
-- and their runs fails after it.
pub fail_terminal_attempt-audit :
    (i l : String) (n : ℕ) (error : String) (result : Fields) (s : Store) (e : Event)
    → InStep s
    → pending_event_for_attempt s i l n ≡ some e
    → ((fail_terminal_attempt i l n error result s).0 ≡ true)
      × (audit_event_run_consistency
            (fail_terminal_attempt i l n error result s).1.events
            (fail_terminal_attempt i l n error result s).1.runs
          ≡ false)
unfolding fail_terminal_attempt audit_event_run_consistency
fail_terminal_attempt-audit i l n error result s e k there =
    let one = (owned-counts s i l n e k there).0 in
    let found = owned-find s i l n e there in
    let own = find_sound (is_owned i l n) s.events e found in
    let history = All-find (HasHistory s.runs) (is_owned i l n) s.events e k.histories found in
    let bad = terminal-audit error result s.runs e history (owned_open i l n e own).1 in
    (
      rw (there, one, fail_terminal_attempt) refl,
      rw (there, one, fail_terminal_attempt)
          (all-update-false (is_owned i l n) (terminal_row error result) (audit_event_runs s.runs)
            s.events e found bad),
    )
