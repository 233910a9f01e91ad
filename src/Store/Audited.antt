-- ===== src/Store/Audited.antt =====
-- The state columns of the events of src/recallpack/storage.py after any calls.
use recallpack.Base.{ℕ, Bool, true, List, [], ◌∷◌, ◌≡◌, refl, arith, all, All}
use recallpack.Library.{Library}
use recallpack.Store.Rows.{Event, Store}
use recallpack.Store.Complete.{complete_event, complete_observe_operation}
use recallpack.Store.Fail.{fail_retryable_event}
use recallpack.Store.Outcomes.{complete_operation-all}
use recallpack.Store.Steps.{
  StoreCall, claims, completes, commits, fails, after_call, after_calls, empty_store,
  with_attempt-all,
}
use recallpack.Store.RowChecks.{is_nonempty_text, valid_state_columns}
use recallpack.Store.RowsValid.{RowsHold}
use recallpack.Store.RowsKept.{
  Completed-RowsHold, complete_attempt-RowsHold, fail_attempt-RowsHold, claim_event-RowsHold,
}

-- The lease token that a claim draws from `uuid4` is not empty.
abbrev pub draws_token : StoreCall → Bool
draws_token (claims request now provider_mode draw) = is_nonempty_text draw.lease_token
draws_token _ = true

after_call-RowsHold :
    (lib : Library) (call : StoreCall) (s : Store)
    → draws_token call ≡ true
    → RowsHold s
    → RowsHold (after_call lib call s)
unfolding after_call complete_event complete_observe_operation fail_retryable_event
after_call-RowsHold lib (claims request now mode draw) s token rows =
    claim_event-RowsHold mode now draw token lib request s rows
after_call-RowsHold lib (completes attempt result evidence now) s token rows =
    with_attempt-all {A = _ × Store} (λ r. RowsHold r.1) attempt _ _ rows
      (λ i l n a b c. complete_attempt-RowsHold lib i l n result evidence now s rows)
after_call-RowsHold lib (commits attempt result memory supersedes embedding evidence draw) s token
      rows =
    with_attempt-all {A = _ × Store} (λ r. RowsHold r.1) attempt _ _ rows
      (λ i l n a b c.
        complete_operation-all lib s i l n evidence RowsHold rows
          (λ t s' event stored now same there done.
            Completed-RowsHold lib s t s' event i l n stored evidence now same.events done rows)
          result memory supersedes embedding draw)
after_call-RowsHold lib (fails attempt error evidence detail now) s token rows =
    with_attempt-all {A = _ × Store} (λ r. RowsHold r.1) attempt _ _ rows
      (λ i l n a b c. fail_attempt-RowsHold lib i l n error evidence detail now s rows)

after_calls-RowsHold :
    (lib : Library) (calls : List StoreCall) (s : Store)
    → All (λ c. draws_token c ≡ true) calls
    → RowsHold s
    → RowsHold (after_calls lib calls s)
unfolding after_calls
after_calls-RowsHold lib [] s tokens rows = rows
after_calls-RowsHold lib (c ∷ cs) s tokens rows =
    after_calls-RowsHold lib cs (after_call lib c s) tokens.1
      (after_call-RowsHold lib c s tokens.0 rows)

all-true :
    (test : Event → Bool) (events : List Event)
    → All (λ e. test e ≡ true) events
    → all test events ≡ true
unfolding all
all-true test [] h = refl
all-true test (e ∷ es) h = ground (arith, h.0, all-true test es h.1)

-- If no claim draws an empty lease token, then after any sequence of claims, completions and retryable failures
-- on an empty store every event has the columns that its state asks for: a lease while it is pending, a valid
-- result once it is completed, an error once it has failed, and none of the others.
pub after_calls-valid_state_columns :
    (lib : Library) (lease_seconds : ℕ) (calls : List StoreCall)
    → All (λ c. draws_token c ≡ true) calls
    → all valid_state_columns (after_calls lib calls (empty_store lease_seconds)).events ≡ true
after_calls-valid_state_columns lib lease_seconds calls tokens =
    let s = after_calls lib calls (empty_store lease_seconds) in
    all-true valid_state_columns s.events
      (after_calls-RowsHold lib calls (empty_store lease_seconds) tokens tt)
