-- ===== src/Store/Renewed.antt =====
-- `_take_over_lease` of src/recallpack/storage.py keeps the events and their runs in step.
use recallpack.Base.{
  ℕ, ◌+◌, String, true, false, none, some, List, ◌≡◌, refl, sym, ◌∙◌, subst, inl, inr, arith, All,
  ◌==◌, str_eq, str_eq_sound, Bool-cases, Option-cases,
}
use recallpack.Library.{Library}
use recallpack.Store.Rows.{Event, lost_lease, Run, Store, Draw}
use recallpack.Store.Query.{update_where, rowcount, is_pending}
use recallpack.Store.Runs.{finished_run, finish_run, insert_running_run, normalized_run_evidence}
use recallpack.Store.Lease.{is_as_read, taken_over, renew_lease, take_over_lease}
use recallpack.Store.Audit.{runs_of_event}
use recallpack.Store.History.{ended}
use recallpack.Store.Consistent.{has_id, HasHistory, IsKnown, IsConsistent}
use recallpack.Store.Ending.{
  finished, finished-IsCurrent, finished_other, finished_mine, IsKnown-finished, renew-IsConsistent,
}
use recallpack.Store.Ended.{finish_run-Finished}
use recallpack.Store.Kept.{InStep, finished_run-event, finished_run-number}
use recallpack.Store.Opening.{
  opened_run, insert_running_run-rows, as_read-has_id, as_read-number, as_read-pending,
  as_read-failed, taken_over-id, taken_over-open, any-rowcount, ended-cons, failed-ended,
}

module _ (existing : Event) (now : ℕ) (mode : String) (draw : Draw) where
  renew_lease-InStep :
      (before s : Store)
      → InStep before
      → IsConsistent s.events before.runs
      → ((j : String)
          → str_eq j existing.internal_id ≡ false
          → runs_of_event s.runs j ≡ runs_of_event before.runs j)
      → ((e : Event)
          → is_as_read existing e ≡ true
          → HasHistory before.runs e
          → ended existing.attempt_count (runs_of_event s.runs existing.internal_id) ≡ true)
      → All (IsKnown s.events) s.runs
      → InStep (renew_lease before s existing now mode draw).1
  unfolding renew_lease
  renew_lease-InStep before s k c other past known =
      let i = existing.internal_id in
      let n = existing.attempt_count in
      let fits = is_as_read existing in
      let f = taken_over (n + 1) draw.lease_token (now + s.lease_seconds) in
      let updated = record s { events = update_where fits f s.events } in
      elim (Bool-cases (rowcount fits s.events == 1)) [
        | inr other ↦ rw other k
        | inl one ↦
            elim (Option-cases
              (insert_running_run updated draw.run_id i (n + 1) mode draw.utc_now)) [
                | inl refused ↦ rw (one, refused) k
                | inr (s', done) ↦
                    let count : rowcount fits s.events ≡ 1 = ground arith in
                    let rows =
                      insert_running_run-rows updated s' draw.run_id i (n + 1) mode draw.utc_now
                        done in
                    let new = opened_run draw.run_id i (n + 1) mode draw.utc_now in
                    let kept =
                      renew-IsConsistent i n new refl refl refl fits f (as_read-has_id existing)
                        (taken_over-id (n + 1) draw.lease_token (now + s.lease_seconds))
                        (λ e hit.
                          taken_over-open (n + 1) draw.lease_token (now + s.lease_seconds) e)
                        s.events before.runs s.runs c count other past known
                        (any-rowcount fits (has_id i) s.events (as_read-has_id existing) count) in
                    rw (one, done)
                      (subst (λ es. IsConsistent es s'.runs) (sym rows.0)
                        (subst (λ rs. IsConsistent (update_where fits f s.events) rs) (sym rows.1)
                          kept))
              ]
      ]

  -- The runs of a failed event are past as they stand.
  failed-past :
      (runs : List Run) (e : Event)
      → is_pending existing.processing_state ≡ false
      → is_as_read existing e ≡ true
      → HasHistory runs e
      → ended existing.attempt_count (runs_of_event runs existing.internal_id) ≡ true
  failed-past runs e state read h =
      let own = str_eq_sound e.internal_id existing.internal_id (as_read-has_id existing e read) in
      let past =
        failed-ended e (runs_of_event runs e.internal_id) h
          (as_read-failed existing e read state) in
      subst (λ n. ended n (runs_of_event runs existing.internal_id) ≡ true)
        (as_read-number existing e read)
        (subst (λ j. ended e.attempt_count (runs_of_event runs j) ≡ true) own past)

  module _ (lib : Library) where
    -- What `_finish_run` makes of the run whose lease is lost.
    abbrev lost : Run → Run
    lost =
        finished_run lib draw.utc_now lost_lease (normalized_run_evidence none)
          (some "lease_expired") none

    lost-event : (r : Run) → (lost r).event_internal_id ≡ r.event_internal_id
    lost-event =
        finished_run-event lib draw.utc_now lost_lease (normalized_run_evidence none)
          (some "lease_expired") none

    lost-number : (r : Run) → (lost r).attempt_no ≡ r.attempt_no
    lost-number =
        finished_run-number lib draw.utc_now lost_lease (normalized_run_evidence none)
          (some "lease_expired") none

    lost_state : (r : Run) → (lost r).state ≡ lost_lease
    unfolding finished_run
    lost_state r = refl

    -- The runs of a pending event are past once its current run has lost its lease.
    pending-past :
        (runs : List Run) (e : Event)
        → is_pending existing.processing_state ≡ true
        → is_as_read existing e ≡ true
        → HasHistory runs e
        → ended existing.attempt_count (
            runs_of_event
              (finished existing.internal_id existing.attempt_count lost lost-event lost-number
                runs)
              existing.internal_id)
          ≡ true
    pending-past runs e state read h =
        let i = existing.internal_id in
        let n = existing.attempt_count in
        let c =
          finished-IsCurrent i n lost lost-event lost-number e runs (as_read-has_id existing e read)
            (as_read-number existing e read) (as_read-pending existing e read state) h in
        rw (finished_mine i n lost lost-event lost-number runs, c.rows)
          (ended-cons n (lost c.current) c.past (lost-number c.current ∙ c.number) c.positive
            (rw (lost_state c.current) refl) c.past_ended)

    pub take_over_lease-InStep :
        (s : Store) → InStep s → InStep (take_over_lease lib s existing now mode draw).1
    unfolding take_over_lease
    take_over_lease-InStep s k =
        let i = existing.internal_id in
        let n = existing.attempt_count in
        elim (Bool-cases (is_pending existing.processing_state)) [
          | inr other ↦ rw other (
              renew_lease-InStep s s k k (λ j away. refl)
                (λ e read h. failed-past s.runs e other read h) k.known)
          | inl waiting ↦
              elim (Option-cases
                (finish_run lib s i n lost_lease none (some "lease_expired") none draw.utc_now)) [
                  | inl unfinished ↦ rw (waiting, unfinished) k
                  | inr (s', done) ↦
                      let f =
                        finish_run-Finished lib s s' i n lost_lease none (some "lease_expired") none
                          draw.utc_now done in
                      let after = record s {
                        runs = finished i n lost lost-event lost-number s.runs;
                      } in
                      let kept =
                        renew_lease-InStep s after k k
                          (λ j away. finished_other i n lost lost-event lost-number j s.runs away)
                          (λ e read h. pending-past s.runs e waiting read h)
                          (IsKnown-finished i n lost lost-event lost-number s.events s.runs
                            k.known) in
                      rw (waiting, done)
                        (subst (λ t. InStep (renew_lease s t existing now mode draw).1)
                          (sym f.store) kept)
                ]
        ]
