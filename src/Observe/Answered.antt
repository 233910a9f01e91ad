-- ===== src/Observe/Answered.antt =====
-- What `_observe_owned` of src/recallpack/observe.py answers, and what is then in the store.
use recallpack.Base.{
  ℕ, String, Bool, false, Option, none, some, ◌≡◌, ◌⊎◌, refl, ap, ◌∙◌, inl, inr, Result, ok, err,
  Bool-cases, Option-cases, Result-cases,
}
use recallpack.Json.{obj, Fields}
use recallpack.Memory.{ObserveRequest, NormalMemory}
use recallpack.Embedding.{Embedding}
use recallpack.Normalize.Parts.{NormalizedOperation}
use recallpack.Store.Rows.{Store}
use recallpack.Store.Answer.{StoreError, ClaimResult}
use recallpack.Store.Complete.{
  completed_row, complete_attempt, complete_operation, complete_event, complete_observe_operation,
}
use recallpack.Store.Fail.{failure_code_of, failed_row, fail_attempt, fail_retryable_event}
use recallpack.Store.Steps.{with_attempt-all}
use recallpack.Observe.Trace.{Raised}
use recallpack.Observe.Flow.{
  ObserveRuntime, ending, Outside, returns, continue_with, then_run, store_call,
}
use recallpack.Observe.Attempt.{
  or_value_error, failed_response, completed_response, committed_response, fail_owned_attempt,
  complete_result, commit_result, observe_owned,
}
use recallpack.Observe.Response.{ObserveResponse, lease_lost, attempt_of}
use recallpack.Observe.Endings.{IsFailureStatus, observe_owned-all}
use recallpack.Observe.Written.{
  IsWritten, fail_attempt-events, complete_attempt-events, complete_operation-events,
}

-- The ways in which an owned attempt ends, each with what is in the store then.
abbrev pub EndsAs : ClaimResult → Result Raised ObserveResponse → Store → Type 0
EndsAs claim (err e) s' = Unit
EndsAs claim (ok response) s' =
    ((result : Fields) × (response.status_code ≡ 200)
      × (response.error ≡ none)
      × (response.final_result ≡ some (obj result))
      × IsWritten (attempt_of claim) (completed_row result) s')
    ⊎ (((error : String) × (response.error ≡ some error)
          × IsFailureStatus error response.status_code
          × IsWritten (attempt_of claim) (failed_row (failure_code_of error)) s')
        ⊎ (response ≡ lease_lost claim))

-- A call of the store and the answer to what it returns.
call_answer :
    {A : Type 0} (C : Result Raised ObserveResponse → Store → Type 0) (outside : Outside)
    (call : Store → Result Raised A × Store) (k : A → ObserveResponse) (s : Store)
    → ((e : Raised) (s' : Store) → C (err e) s')
    → ((t : Store)
        → C
            (continue_with (call t).0 (λ v. returns (k v)) (call t).1).0
            (continue_with (call t).0 (λ v. returns (k v)) (call t).1).1)
    → C
        (then_run (store_call outside ending call) (λ v. returns (k v)) s).0
        (then_run (store_call outside ending call) (λ v. returns (k v)) s).1
unfolding then_run store_call
call_answer C outside call k s raised answered = elim (Option-cases (outside.raises ending)) [
  | inl quiet ↦ rw (quiet, then_run, store_call) (answered (outside.others ending s))
  | inr (message, loud) ↦ rw (loud, then_run, store_call) (raised _ _)
]

-- A flag and the store that it was returned with.
abbrev Flagged : (Bool → ObserveResponse) → ClaimResult → Bool × Store → Type 0
Flagged respond claim r = EndsAs claim (ok (respond r.0)) r.1

Flagged-lost :
    (respond : Bool → ObserveResponse) (claim : ClaimResult) (r : Bool × Store)
    → respond false ≡ lease_lost claim
    → r.0 ≡ false
    → Flagged respond claim r
Flagged-lost respond claim r lost refused = inr (inr (ap respond refused ∙ lost))

module _ (runtime : ObserveRuntime) (outside : Outside) (request : ObserveRequest)
    (claim : ClaimResult) where
  fail_owned_attempt-EndsAs :
      (error : String) (status_code : ℕ) (detail : Option String) (evidence : Fields)
      → IsFailureStatus error status_code
      → (s : Store) → Unit {0}
      → EndsAs claim
          (fail_owned_attempt runtime outside request claim error status_code detail evidence s).0
          (fail_owned_attempt runtime outside request claim error status_code detail evidence s).1
  unfolding fail_owned_attempt fail_retryable_event
  fail_owned_attempt-EndsAs error status_code detail evidence status s u =
      call_answer (EndsAs claim) outside _ _ s (λ e t. tt)
        (λ t.
          with_attempt-all {A = Bool × Store}
            (Flagged (failed_response runtime outside request claim error status_code evidence)
              claim)
            (attempt_of claim) _ _ (inr (inr refl))
            (λ i l n event token number.
              let now = outside.end_draw.utc_now in
              let r = fail_attempt runtime.library i l n error (some evidence) detail now t in
              elim (Bool-cases r.0) [
                | inr refused ↦
                    Flagged-lost
                      (failed_response runtime outside request claim error status_code evidence)
                      claim r refl refused
                | inl done ↦
                    elim (fail_attempt-events runtime.library i l n error (some evidence) detail now
                      t) [
                        | inl refused ↦
                            Flagged-lost
                              (failed_response runtime outside request claim error status_code
                                evidence)
                              claim r refl refused
                        | inr w ↦ rw done (
                            inr (
                              inl (
                                error,
                                refl,
                                status,
                                record {
                                  i = i;
                                  l = l;
                                  n = n;
                                  event = event;
                                  token = token;
                                  number = number;
                                  rows = t.events;
                                  owned = w.0;
                                  written = w.1;
                                },
                              )))
                      ]
              ]))

  complete_result-EndsAs :
      (result : Fields) (repaired : Bool) (evidence : Fields) (s : Store)
      → Unit {0}
      → EndsAs claim
          (complete_result runtime outside request claim result repaired evidence s).0
          (complete_result runtime outside request claim result repaired evidence s).1
  unfolding complete_result complete_event
  complete_result-EndsAs result repaired evidence s u =
      call_answer (EndsAs claim) outside _ _ s (λ e t. tt)
        (λ t.
          with_attempt-all {A = Bool × Store}
            (Flagged (completed_response runtime outside request claim result repaired evidence)
              claim)
            (attempt_of claim) _ _ (inr (inr refl))
            (λ i l n event token number.
              let now = outside.end_draw.utc_now in
              let r = complete_attempt runtime.library i l n result (some evidence) now t in
              elim (Bool-cases r.0) [
                | inr refused ↦
                    Flagged-lost
                      (completed_response runtime outside request claim result repaired evidence)
                      claim r refl refused
                | inl done ↦
                    elim (complete_attempt-events runtime.library i l n result (some evidence) now
                      t) [
                        | inl refused ↦
                            Flagged-lost
                              (completed_response runtime outside request claim result repaired
                                evidence)
                              claim r refl refused
                        | inr w ↦ rw done (
                            inl (
                              result,
                              refl,
                              refl,
                              refl,
                              record {
                                i = i;
                                l = l;
                                n = n;
                                event = event;
                                token = token;
                                number = number;
                                rows = t.events;
                                owned = w.0;
                                written = w.1;
                              },
                            ))
                      ]
              ]))

  -- The answer to what `complete_observe_operation` returns.
  abbrev Committed : Bool → Fields → Result StoreError (Option Fields) × Store → Type 0
  Committed repaired evidence c =
      EndsAs claim
        (continue_with (or_value_error runtime outside request claim c.0)
          (λ v. returns (committed_response runtime outside request claim repaired evidence v))
          c.1).0
        (continue_with (or_value_error runtime outside request claim c.0)
          (λ v. returns (committed_response runtime outside request claim repaired evidence v))
          c.1).1

  Committed-raised :
      (repaired : Bool) (evidence : Fields) (c : Result StoreError (Option Fields) × Store)
      (e : StoreError)
      → c.0 ≡ err e
      → Committed repaired evidence c
  Committed-raised repaired evidence c e h = rw h tt

  Committed-lost :
      (repaired : Bool) (evidence : Fields) (c : Result StoreError (Option Fields) × Store)
      → c.0 ≡ ok none
      → Committed repaired evidence c
  Committed-lost repaired evidence c h = rw h (inr (inr refl))

  Committed-stored :
      (repaired : Bool) (evidence : Fields) (c : Result StoreError (Option Fields) × Store)
      (result : Fields)
      → c.0 ≡ ok (some result)
      → IsWritten (attempt_of claim) (completed_row result) c.1
      → Committed repaired evidence c
  Committed-stored repaired evidence c result h w = rw h (inl (result, refl, refl, refl, w))

  commit_result-EndsAs :
      (normalized : NormalizedOperation) (memory : NormalMemory) (embedding : Embedding)
      (repaired : Bool) (evidence : Fields) (s : Store)
      → Unit {0}
      → EndsAs claim
          (commit_result runtime outside request claim normalized memory embedding repaired evidence
            s).0
          (commit_result runtime outside request claim normalized memory embedding repaired evidence
            s).1
  unfolding commit_result complete_observe_operation
  commit_result-EndsAs normalized memory embedding repaired evidence s u =
      call_answer (EndsAs claim) outside _ _ s (λ e t. tt)
        (λ t.
          with_attempt-all {A = Result StoreError (Option Fields) × Store}
            (Committed repaired evidence) (attempt_of claim) _ _ (inr (inr refl))
            (λ i l n event token number.
              let c =
                complete_operation runtime.library i l n normalized.final_result memory
                  normalized.supersedes_memory_ids embedding (some evidence) outside.end_draw t in
              elim (Result-cases c.0) [
                | inr (e, raised) ↦ Committed-raised repaired evidence c e raised
                | inl (r, returned) ↦ elim (Option-cases r) [
                  | inl nothing ↦ Committed-lost repaired evidence c (returned ∙ ap ok nothing)
                  | inr (result, given) ↦
                      let answer = returned ∙ ap ok given in
                      let w =
                        complete_operation-events runtime.library t i l n normalized.final_result
                          memory normalized.supersedes_memory_ids embedding (some evidence)
                          outside.end_draw result answer in
                      Committed-stored repaired evidence c result answer (record {
                        i = i;
                        l = l;
                        n = n;
                        event = event;
                        token = token;
                        number = number;
                        rows = t.events;
                        owned = w.0;
                        written = w.1;
                      })
                ]
              ]))

  -- An owned attempt that does not raise ends in one of three ways. It is answered with 200, no error and a
  -- result, and one UPDATE completed the event with that result; or with an error, under 503 or the 409 of
  -- old embeddings, and one UPDATE failed the event with the code of that error; or as a lost lease.
  pub observe_owned-EndsAs :
      (s : Store)
      → EndsAs claim
          (observe_owned runtime outside request claim s).0
          (observe_owned runtime outside request claim s).1
  observe_owned-EndsAs s =
      observe_owned-all runtime outside request claim (λ t. Unit {0}) (EndsAs claim) (λ m t u. tt)
        (λ e t u. tt) fail_owned_attempt-EndsAs complete_result-EndsAs commit_result-EndsAs s tt
