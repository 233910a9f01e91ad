-- ===== src/Observe/Kept.antt =====
-- `observe` of src/recallpack/observe.py keeps the events and their runs in step.
use recallpack.Base.{
  ℕ, String, Bool, true, false, Option, some, ◌≡◌, refl, sym, subst, inl, inr, ◌==◌, if◌then◌else◌,
  Result, ok, err, Bool-cases, Option-cases, Result-cases,
}
use recallpack.Json.{Fields}
use recallpack.Memory.{ObserveRequest, NormalMemory}
use recallpack.Embedding.{Embedding}
use recallpack.Turnstile.{project_turn, Registry, register}
use recallpack.Normalize.Parts.{NormalizedOperation}
use recallpack.Store.Rows.{Store}
use recallpack.Store.Answer.{ClaimResult}
use recallpack.Store.Complete.{owns_event_attempt}
use recallpack.Store.Audit.{audit_event_run_consistency}
use recallpack.Store.Consistent.{IsConsistent-audit}
use recallpack.Store.Kept.{InStep}
use recallpack.Store.Steps.{claims, completes, commits, fails, after_call, after_call-InStep}
use recallpack.Observe.Trace.{
  Raised, value_error, provider_error, retryable_error, terminal_error, sqlite_error, other_error,
}
use recallpack.Observe.Flow.{
  ObserveRuntime, Moment, claiming, owning, ending, Outside, returns, continue_with, then_run,
  store_call,
}
use recallpack.Observe.Attempt.{fail_owned_attempt, complete_result, commit_result, observe_owned}
use recallpack.Observe.Response.{ObserveResponse, attempt_of}
use recallpack.Observe.Runtime.{
  Provider, provider_mode, catch_sqlite, observe_turn, observe_claim, answer_claim, observe,
  or_zero, or_none_text,
}
use recallpack.Observe.Endings.{IsFailureStatus, store_call-read, observe_owned-all}

store_call-keeps :
    {A : Type 0} (P : Store → Type 0) (outside : Outside) (m : Moment)
    (call : Store → Result Raised A × Store) (s : Store)
    → P (outside.others m s)
    → ((t : Store) → P t → P (call t).1)
    → P (store_call outside m call s).1
unfolding store_call
store_call-keeps P outside m call s kept k = elim (Option-cases (outside.raises m)) [
  | inl quiet ↦ rw (quiet, store_call) (k (outside.others m s) kept)
  | inr (message, loud) ↦ rw (loud, store_call) kept
]

returns-state :
    {A B : Type 0} (r : Result Raised A) (k : A → B) (s : Store)
    → (continue_with r (λ v. returns (k v)) s).1 ≡ s
returns-state (ok value) k s = refl
returns-state (err e) k s = refl

-- A call and an answer.
call-keeps :
    {A B : Type 0} (P : Store → Type 0) (outside : Outside) (m : Moment)
    (call : Store → Result Raised A × Store) (k : A → B) (s : Store)
    → P (outside.others m s)
    → ((t : Store) → P t → P (call t).1)
    → P (then_run (store_call outside m call) (λ v. returns (k v)) s).1
unfolding then_run
call-keeps P outside m call k s kept h =
    let c = store_call outside m call s in
    subst P (sym (returns-state c.0 k c.1)) (store_call-keeps P outside m call s kept h)

module _ (runtime : ObserveRuntime) (outside : Outside) (request : ObserveRequest)
    (others : (m : Moment) (s : Store) → InStep s → InStep (outside.others m s)) where
  module _ (claim : ClaimResult) where
    fail_owned_attempt-InStep :
        (error : String) (status_code : ℕ) (detail : Option String) (evidence : Fields)
        → IsFailureStatus error status_code
        → (s : Store) → InStep s
        → InStep
            (fail_owned_attempt runtime outside request claim error status_code detail evidence s).1
    unfolding fail_owned_attempt after_call
    fail_owned_attempt-InStep error status_code detail evidence status s k =
        call-keeps InStep outside ending _ _ s (others ending s k) (λ t w.
          after_call-InStep runtime.library
            (fails (attempt_of claim) error (some evidence) detail outside.end_draw.utc_now) t w)

    complete_result-InStep :
        (result : Fields) (repaired : Bool) (evidence : Fields) (s : Store)
        → InStep s
        → InStep (complete_result runtime outside request claim result repaired evidence s).1
    unfolding complete_result after_call
    complete_result-InStep result repaired evidence s k =
        call-keeps InStep outside ending _ _ s (others ending s k) (λ t w.
          after_call-InStep runtime.library
            (completes (attempt_of claim) result (some evidence) outside.end_draw.utc_now) t w)

    commit_result-InStep :
        (normalized : NormalizedOperation) (memory : NormalMemory) (embedding : Embedding)
        (repaired : Bool) (evidence : Fields) (s : Store)
        → InStep s
        → InStep
            (commit_result runtime outside request claim normalized memory embedding repaired
              evidence s).1
    unfolding commit_result after_call
    commit_result-InStep normalized memory embedding repaired evidence s k =
        call-keeps InStep outside ending _ _ s (others ending s k) (λ t w.
          after_call-InStep runtime.library
            (commits (attempt_of claim) normalized.final_result memory
              normalized.supersedes_memory_ids embedding (some evidence) outside.end_draw)
            t w)

    observe_owned-InStep :
        (s : Store) → InStep s → InStep (observe_owned runtime outside request claim s).1
    observe_owned-InStep s k =
        observe_owned-all runtime outside request claim InStep (λ r t. InStep t) others (λ e t w. w)
          fail_owned_attempt-InStep complete_result-InStep commit_result-InStep s k

    turn_body-InStep :
        (owns : Result Raised Bool) (lost : ObserveResponse) (s : Store)
        → InStep s
        → InStep
            (continue_with owns
              (λ b. if b then observe_owned runtime outside request claim else returns lost)
              s).1
    turn_body-InStep (ok true) lost s k = observe_owned-InStep s k
    turn_body-InStep (ok false) lost s k = k
    turn_body-InStep (err e) lost s k = k

    observe_turn-InStep :
        (s : Store) → InStep s → InStep (observe_turn runtime outside request claim s).1
    unfolding observe_turn catch_sqlite then_run
    observe_turn-InStep s k = turn_body-InStep _ _ _ (
        store_call-read InStep outside owning (λ t. owns_event_attempt t (attempt_of claim)) s
          (others owning s k))

    observe_claim-InStep :
        (registry : Registry) (s : Store)
        → InStep s
        → InStep (observe_claim runtime outside request registry claim s).1
    unfolding observe_claim
    observe_claim-InStep registry s k = elim (Bool-cases (claim.status_code == 202)) [
      | inr answered ↦ rw (answered, observe_claim) k
      | inl pending ↦ elim (Bool-cases claim.owns_attempt) [
        | inr elsewhere ↦ rw (pending, elsewhere, observe_claim) k
        | inl owns ↦
            elim (Result-cases (
              project_turn request.project_id (or_zero claim.project_event_seq)
                (or_zero claim.attempt_no) (or_none_text claim.lease_token))) [
                  | inr (e, bad) ↦ rw (pending, owns, bad, observe_claim) k
                  | inl (turn, good) ↦ elim (Result-cases (register turn registry).0) [
                    | inr (e, taken) ↦ rw (pending, owns, good, taken, observe_claim) k
                    | inl (ticket, made) ↦
                        rw (pending, owns, good, made, observe_claim) (observe_turn-InStep s k)
                  ]
                ]
      ]
    ]

  answer_claim-InStep :
      (registry : Registry) (r : Result Raised ClaimResult) (s : Store)
      → InStep s
      → InStep (answer_claim runtime outside request registry r s).1
  unfolding answer_claim
  answer_claim-InStep registry (ok claim) s k = observe_claim-InStep claim registry s k
  answer_claim-InStep registry (err (sqlite_error message)) s k = k
  answer_claim-InStep registry (err (value_error e)) s k = k
  answer_claim-InStep registry (err (provider_error e)) s k = k
  answer_claim-InStep registry (err (retryable_error c e)) s k = k
  answer_claim-InStep registry (err (terminal_error c e)) s k = k
  answer_claim-InStep registry (err other_error) s k = k

  pub observe-InStep :
      (decider embedding_provider : Provider) (registry : Registry) (now : ℕ) (s : Store)
      → InStep s
      → InStep (observe runtime outside request decider embedding_provider registry now s).1
  unfolding observe after_call
  observe-InStep decider embedding_provider registry now s k = answer_claim-InStep registry _ _ (
      store_call-keeps InStep outside claiming _ s (others claiming s k) (λ t w.
        after_call-InStep runtime.library
          (claims request now (provider_mode decider embedding_provider) outside.claim_draw) t w))

  -- If the events and runs of the store are in step, and what others write meanwhile keeps them so, then the
  -- audit passes after observe, whatever observe answers or raises.
  pub observe-audit :
      (decider embedding_provider : Provider) (registry : Registry) (now : ℕ) (s : Store)
      → InStep s
      → audit_event_run_consistency
          (observe runtime outside request decider embedding_provider registry now s).1.events
          (observe runtime outside request decider embedding_provider registry now s).1.runs
        ≡ true
  observe-audit decider embedding_provider registry now s k =
      let after = (observe runtime outside request decider embedding_provider registry now s).1 in
      IsConsistent-audit after.events after.runs
        (observe-InStep decider embedding_provider registry now s k)
