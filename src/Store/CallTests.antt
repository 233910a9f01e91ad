-- ===== src/Store/CallTests.antt =====
-- Runs of several calls of src/recallpack/storage.py.
use recallpack.Base.{true, false, none, some, [], ◌∷◌, ◌≡◌, refl, List, all}
use recallpack.Store.Fail.{fail_terminal_attempt}
use recallpack.Store.Steps.{
  empty_store-InStep, StoreCall, claims, completes, fails, empty_store, after_calls,
  after_calls-audit,
}
use recallpack.Store.Audit.{audit_event_run_consistency}
use recallpack.Store.Kept.{InStep}
use recallpack.Store.Claimed.{claim_event-InStep}
use recallpack.Store.Sessions.{IsSessionRun, after_calls-IsSessionRun}
use recallpack.Store.RowChecks.{valid_state_columns}
use recallpack.Store.Audited.{after_calls-valid_state_columns}
use recallpack.Store.Served.{IsClosed}
use recallpack.Store.OperationServed.{operation-served}
use recallpack.Json.{obj, Fields}
use recallpack.Base.{ok}
use recallpack.Store.Rows.{Store, completed}
use recallpack.Store.Complete.{complete_operation, run_state_of}
use recallpack.Store.Terminal.{fail_terminal_attempt-audit}
use recallpack.Store.Samples.{library, request, draw, draw_again}
use recallpack.Store.Tests.{
  written, policy, embedded, ruled_store, program, fresh_store, claimed_store, claimed,
  nothing_said,
}

-- A claim, a failure, a second claim, and the completion of the second attempt.
abbrev calls : List StoreCall
calls =
    claims request 100 "fake" draw
    ∷ fails (record { event_internal_id = some "e1"; lease_token = some "l1"; attempt_no = some 1 })
        "provider_timeout" none none "t1"
    ∷ claims request 200 "fake" draw_again
    ∷ completes
        (record { event_internal_id = some "e1"; lease_token = some "l2"; attempt_no = some 2 })
        nothing_said none "t2"
    ∷ []

after_calls-audit_example :
    audit_event_run_consistency
      (after_calls library calls (empty_store 60)).events
      (after_calls library calls (empty_store 60)).runs
    ≡ true
after_calls-audit_example = after_calls-audit library 60 calls

after_calls-IsSessionRun_example : IsSessionRun "p" "s" library calls (empty_store 60)
after_calls-IsSessionRun_example = after_calls-IsSessionRun "p" "s" library 60 calls

claimed_store-InStep : InStep claimed_store
claimed_store-InStep =
    claim_event-InStep library request 100 "fake" draw fresh_store (empty_store-InStep 60)

-- The row of the event keeps its place when memories are added.
ruled_store-InStep : InStep ruled_store
ruled_store-InStep = claimed_store-InStep

operation-served_example :
    (result : Fields) × (s' : Store) × (complete_operation library "e1" "l1" 1 written policy
        ("m0" ∷ [])
        embedded
        none
        draw
        ruled_store
      ≡ (ok (some result), s'))
    × IsClosed library ruled_store s' "e1" "l1" 1 completed
        (run_state_of result)
        none
        (some (obj result))
        none
        none
        draw.utc_now
unfolding program
operation-served_example =
    operation-served library "e1" "l1" 1 written policy ("m0" ∷ []) embedded none draw ruled_store
      claimed ruled_store-InStep refl refl refl ((refl, refl), tt) refl

fail_terminal_attempt-audit_example :
    ((fail_terminal_attempt "e1" "l1" 1 "refused" nothing_said claimed_store).0 ≡ true)
    × (audit_event_run_consistency
          (fail_terminal_attempt "e1" "l1" 1 "refused" nothing_said claimed_store).1.events
          (fail_terminal_attempt "e1" "l1" 1 "refused" nothing_said claimed_store).1.runs
        ≡ false)
unfolding program
fail_terminal_attempt-audit_example =
    fail_terminal_attempt-audit "e1" "l1" 1 "refused" nothing_said claimed_store claimed
      claimed_store-InStep refl

after_calls-valid_state_columns_example :
    all valid_state_columns (after_calls library calls (empty_store 60)).events ≡ true
unfolding program
after_calls-valid_state_columns_example =
    after_calls-valid_state_columns library 60 calls (refl, (refl, (refl, (refl, tt))))
