-- ===== src/Observe/Written.antt =====
-- What the calls of an attempt of src/recallpack/storage.py leave in the table of events.
use recallpack.Base.{
  ℕ, String, true, false, Option, some, List, ◌≡◌, ◌⊎◌, refl, ap, ◌∙◌, inl, inr, arith, ◌==◌, any,
  is_some, ok, Bool-cases, Option-cases,
}
use recallpack.Json.{Fields}
use recallpack.Library.{Library}
use recallpack.Memory.{NormalMemory}
use recallpack.Embedding.{Embedding}
use recallpack.Store.Rows.{Event, Store, Draw}
use recallpack.Store.Query.{update_where, rowcount, is_owned, pending_event_for_attempt}
use recallpack.Store.Runs.{finish_run}
use recallpack.Store.Rows.{failed_retryable}
use recallpack.Store.Complete.{Attempt, completed_row, complete_attempt, complete_operation}
use recallpack.Store.Fail.{failure_code_of, detail_of, failed_row, fail_attempt}
use recallpack.Store.Ended.{complete_attempt-true, finish_run-Finished}
use recallpack.Store.Commit.{complete_operation-outcome}
use recallpack.Store.Opening.{any-rowcount}
use recallpack.Store.Tables.{any-find}

-- One UPDATE changed the rows that the attempt owned, of which there was one at least, and no other.
pub record IsWritten (attempt : Attempt) (change : Event → Event) (s' : Store) : Type 0 where
  pub i : String
  pub l : String
  pub n : ℕ
  pub event : attempt.event_internal_id ≡ some i
  pub token : attempt.lease_token ≡ some l
  pub number : attempt.attempt_no ≡ some n
  pub rows : List Event
  pub owned : any (is_owned i l n) rows ≡ true
  pub written : s'.events ≡ update_where (is_owned i l n) change rows

owned-any :
    (s : Store) (i l : String) (n : ℕ) (e : Event)
    → pending_event_for_attempt s i l n ≡ some e
    → any (is_owned i l n) s.events ≡ true
unfolding pending_event_for_attempt
owned-any s i l n e h = any-find (is_owned i l n) s.events ∙ ap is_some h

pub fail_attempt-events :
    (lib : Library) (i l : String) (n : ℕ) (error : String) (evidence : Option Fields)
    (detail : Option String) (now : String) (s : Store)
    → ((fail_attempt lib i l n error evidence detail now s).0 ≡ false)
      ⊎ ((any (is_owned i l n) s.events ≡ true)
          × ((fail_attempt lib i l n error evidence detail now s).1.events
              ≡ update_where (is_owned i l n) (failed_row (failure_code_of error)) s.events))
unfolding fail_attempt
fail_attempt-events lib i l n error evidence detail now s =
    let code = failure_code_of error in
    let text = detail_of error detail in
    let updated = record s { events = update_where (is_owned i l n) (failed_row code) s.events } in
    elim (Bool-cases (rowcount (is_owned i l n) s.events == 1)) [
      | inr other ↦ inl (rw (other, fail_attempt) refl)
      | inl one ↦
          elim (Option-cases
            (finish_run lib updated i n failed_retryable evidence (some code) text now)) [
              | inl unfinished ↦ inl (rw (one, unfinished, fail_attempt) refl)
              | inr (s', done) ↦
                  let f =
                    finish_run-Finished lib updated s' i n failed_retryable evidence (some code)
                      text now done in
                  inr (
                    any-rowcount (is_owned i l n) (is_owned i l n) s.events (λ e h. h)
                        (ground arith),
                    rw (one, done, fail_attempt) (rw f.store refl),
                  )
            ]
    ]

pub complete_attempt-events :
    (lib : Library) (i l : String) (n : ℕ) (result : Fields) (evidence : Option Fields)
    (now : String) (s : Store)
    → ((complete_attempt lib i l n result evidence now s).0 ≡ false)
      ⊎ ((any (is_owned i l n) s.events ≡ true)
          × ((complete_attempt lib i l n result evidence now s).1.events
              ≡ update_where (is_owned i l n) (completed_row result) s.events))
complete_attempt-events lib i l n result evidence now s =
    elim (Bool-cases (complete_attempt lib i l n result evidence now s).0) [
      | inr refused ↦ inl refused
      | inl done ↦
          let (event, there, c) = complete_attempt-true lib i l n result evidence now s done in
          inr (owned-any s i l n event there, rw c.store refl)
    ]

-- An operation of which the store returns the result.
pub complete_operation-events :
    (lib : Library) (s : Store) (i l : String) (n : ℕ) (final_result : Fields)
    (memory : NormalMemory) (supersedes : List String) (embedding : Embedding)
    (evidence : Option Fields) (draw : Draw) (result : Fields)
    → (complete_operation lib i l n final_result memory supersedes embedding evidence draw s).0
      ≡ ok (some result)
    → (any (is_owned i l n) s.events ≡ true)
      × ((complete_operation lib i l n final_result memory supersedes embedding evidence draw
            s).1.events
          ≡ update_where (is_owned i l n) (completed_row result) s.events)
complete_operation-events lib s i l n final_result memory supersedes embedding evidence draw result
      h =
    let s' =
      (complete_operation lib i l n final_result memory supersedes embedding evidence draw s).1 in
    let (event, there, how) =
      complete_operation-outcome lib s s' i l n final_result memory supersedes embedding evidence
        draw result (ap (λ r. (r, s')) h) in
    (owned-any s i l n event there, elim how [ inl c ↦ c.events | inr d ↦ d.events ])
