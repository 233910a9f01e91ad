-- ===== src/Store/RowsKept.antt =====
-- The methods of src/recallpack/storage.py keep the columns that go with the state of an event.
use recallpack.Base.{
  ℕ, ◌+◌, String, true, Option, none, some, [], ◌∷◌, ◌≡◌, refl, sym, ap, ◌∙◌, subst, inl, inr,
  arith, All, ◌==◌, Bool-cases, Option-cases,
}
use recallpack.Json.{Fields, member}
use recallpack.Library.{Library}
use recallpack.Memory.{ObserveRequest}
use recallpack.Store.Rows.{Event, failed_retryable, lost_lease, Store, Draw}
use recallpack.Store.Query.{
  is_pending, update_where, rowcount, is_owned, event_by_key, cursor_for, next_project_event_seq,
}
use recallpack.Store.Runs.{finish_run, insert_running_run}
use recallpack.Store.Answer.{payload_hash}
use recallpack.Store.Lease.{is_as_read, taken_over, renew_lease, take_over_lease}
use recallpack.Store.Claim.{
  claim_existing, new_event, insert_event, claim_new, admit_new, claim_event,
}
use recallpack.Store.Complete.{completed_row, complete_attempt}
use recallpack.Store.Fail.{failure_code_of, detail_of, failed_row, fail_attempt}
use recallpack.Store.Ended.{
  Completed, complete_attempt-true, complete_attempt-false, finish_run-Finished,
}
use recallpack.Store.Entering.{insert_running_run-tables}
use recallpack.Store.Opened.{insert_event-tables}
use recallpack.Store.RowChecks.{is_nonempty_text}
use recallpack.Store.RowsValid.{
  IsRow, update-IsRow, completed_row-IsRow, failed_row-IsRow, taken_over-IsRow, new_event-IsRow,
  RowsHold,
}

pub Completed-RowsHold :
    (lib : Library) (s t s' : Store) (event : Event) (i l : String) (n : ℕ) (result : Fields)
    (evidence : Option Fields) (now : String)
    → t.events ≡ s.events
    → Completed lib t s' event i l n result evidence now
    → RowsHold s
    → RowsHold s'
Completed-RowsHold lib s t s' event i l n result evidence now same c rows =
    subst RowsHold (sym c.store) (
      update-IsRow (is_owned i l n) (completed_row result) t.events
        (λ e own row. completed_row-IsRow i l n result e c.valid own row)
        (subst (λ es. All IsRow es) (sym same) rows))

pub complete_attempt-RowsHold :
    (lib : Library) (i l : String) (n : ℕ) (result : Fields) (evidence : Option Fields)
    (now : String) (s : Store)
    → RowsHold s
    → RowsHold (complete_attempt lib i l n result evidence now s).1
complete_attempt-RowsHold lib i l n result evidence now s rows =
    let s' = (complete_attempt lib i l n result evidence now s).1 in
    elim (Bool-cases (complete_attempt lib i l n result evidence now s).0) [
      | inr refused ↦
          subst RowsHold (sym (complete_attempt-false lib i l n result evidence now s refused)) rows
      | inl done ↦
          let (event, there, c) = complete_attempt-true lib i l n result evidence now s done in
          Completed-RowsHold lib s s s' event i l n result evidence now refl c rows
    ]

pub fail_attempt-RowsHold :
    (lib : Library) (i l : String) (n : ℕ) (error : String) (evidence : Option Fields)
    (detail : Option String) (now : String) (s : Store)
    → RowsHold s
    → RowsHold (fail_attempt lib i l n error evidence detail now s).1
unfolding fail_attempt
fail_attempt-RowsHold lib i l n error evidence detail now s rows =
    let code = failure_code_of error in
    let text = detail_of error detail in
    let fits = is_owned i l n in
    let updated = record s { events = update_where fits (failed_row code) s.events } in
    elim (Bool-cases (rowcount fits s.events == 1)) [
      | inr other ↦ rw (other, fail_attempt) rows
      | inl one ↦
          elim (Option-cases
            (finish_run lib updated i n failed_retryable evidence (some code) text now)) [
              | inl unfinished ↦ rw (one, unfinished, fail_attempt) rows
              | inr (s', done) ↦
                  let g =
                    finish_run-Finished lib updated s' i n failed_retryable evidence (some code)
                      text now done in
                  rw (one, done, fail_attempt)
                    (subst RowsHold (sym g.store) (
                      update-IsRow fits (failed_row code) s.events
                        (λ e own row. failed_row-IsRow i l n error e own row) rows))
            ]
    ]

module _ (mode : String) (now : ℕ) (draw : Draw)
    (filled : is_nonempty_text draw.lease_token ≡ true) where
  renew_lease-RowsHold :
      (before s : Store) (existing : Event)
      → s.events ≡ before.events
      → RowsHold before
      → RowsHold (renew_lease before s existing now mode draw).1
  unfolding renew_lease
  renew_lease-RowsHold before s existing same rows =
      let n = existing.attempt_count + 1 in
      let fits = is_as_read existing in
      let f = taken_over n draw.lease_token (now + s.lease_seconds) in
      let updated = record s { events = update_where fits f s.events } in
      elim (Bool-cases (rowcount fits s.events == 1)) [
        | inr other ↦ rw (other, renew_lease) rows
        | inl one ↦
            elim (Option-cases
              (insert_running_run updated draw.run_id existing.internal_id n mode draw.utc_now)) [
                | inl refused ↦ rw (one, refused, renew_lease) rows
                | inr (s', ran) ↦
                    let t =
                      insert_running_run-tables updated s' draw.run_id existing.internal_id n mode
                        draw.utc_now ran in
                    rw (one, ran, renew_lease)
                      (subst (λ es. All IsRow es) (sym t.0)
                        (update-IsRow fits f s.events
                          (λ e read row.
                            taken_over-IsRow existing n draw.lease_token (now + s.lease_seconds) e
                              filled read row)
                          (subst (λ es. All IsRow es) (sym same) rows)))
              ]
      ]

  take_over_lease-RowsHold :
      (lib : Library) (s : Store) (existing : Event)
      → RowsHold s
      → RowsHold (take_over_lease lib s existing now mode draw).1
  unfolding take_over_lease
  take_over_lease-RowsHold lib s existing rows =
      let i = existing.internal_id in
      let n = existing.attempt_count in
      elim (Bool-cases (is_pending existing.processing_state)) [
        | inr other ↦ rw (other, take_over_lease) (renew_lease-RowsHold s s existing refl rows)
        | inl waiting ↦
            elim (Option-cases
              (finish_run lib s i n lost_lease none (some "lease_expired") none draw.utc_now)) [
                | inl unfinished ↦ rw (waiting, unfinished, take_over_lease) rows
                | inr (s', done) ↦
                    let f =
                      finish_run-Finished lib s s' i n lost_lease none (some "lease_expired") none
                        draw.utc_now done in
                    rw (waiting, done, take_over_lease)
                      (renew_lease-RowsHold s s' existing (ap (λ u. u.events) f.store) rows)
              ]
      ]

  claim_new-RowsHold :
      (before s : Store) (request : ObserveRequest) (at hash : String)
      → s.events ≡ before.events
      → RowsHold before
      → RowsHold (claim_new before s request at hash now mode draw).1
  unfolding claim_new
  claim_new-RowsHold before s request at hash same rows =
      let seq = next_project_event_seq s request.project_id in
      let e = new_event request at hash seq (now + s.lease_seconds) draw in
      elim (Option-cases (insert_event s e)) [
        | inl clash ↦ rw (clash, claim_new) rows
        | inr (s₁, added) ↦
            elim (Option-cases
              (insert_running_run s₁ draw.run_id draw.event_id 1 mode draw.utc_now)) [
                | inl refused ↦ rw (added, refused, claim_new) rows
                | inr (s₂, ran) ↦
                    let t = insert_event-tables s s₁ e added in
                    let u =
                      insert_running_run-tables s₁ s₂ draw.run_id draw.event_id 1 mode draw.utc_now
                        ran in
                    rw (added, ran, claim_new)
                      (subst (λ es. All IsRow es) (sym (u.0 ∙ t.0))
                        (
                          new_event-IsRow request at hash seq (now + s.lease_seconds) draw filled,
                          subst (λ es. All IsRow es) (sym same) rows,
                        ))
              ]
      ]

  pub claim_event-RowsHold :
      (lib : Library) (request : ObserveRequest) (s : Store)
      → RowsHold s
      → RowsHold (claim_event lib request now mode draw s).1
  unfolding claim_event claim_existing admit_new
  claim_event-RowsHold lib request s rows = elim (Bool-cases (member mode ("fake" ∷ "live" ∷ []))) [
    | inr unknown ↦ rw (unknown, claim_event) rows
    | inl known ↦ elim (Option-cases (lib.canonical_utc_timestamp request.observed_at)) [
      | inl bad ↦ rw (known, bad, claim_event) rows
      | inr (at, canonical) ↦
          let hash = payload_hash lib request at in
          let s' = record s {
            cursors = (cursor_for s.cursors request.project_id request.session_id).1;
          } in
          let new = claim_new-RowsHold s s' request at hash refl rows in
          elim (Option-cases (event_by_key s request)) [
            | inl absent ↦ rw (known, canonical, absent, claim_event) (ground (arith, new, rows))
            | inr (existing, there) ↦
                let taken = take_over_lease-RowsHold lib s existing rows in
                rw (known, canonical, there, claim_event) (ground (arith, taken, rows))
          ]
    ]
  ]
