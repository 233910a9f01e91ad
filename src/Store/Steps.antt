-- ===== src/Store/Steps.antt =====
-- Sequences of calls of the methods of src/recallpack/storage.py that the runtime of observe.py uses:
-- `claim_event`, `complete_event`, `complete_observe_operation` and `fail_retryable_event`.
use recallpack.Base.{ℕ, String, true, Option, some, List, [], ◌∷◌, ◌≡◌, inl, inr, Option-cases}
use recallpack.Json.{Fields}
use recallpack.Library.{Library}
use recallpack.Memory.{ObserveRequest, NormalMemory}
use recallpack.Embedding.{Embedding}
use recallpack.Store.Rows.{Store, Draw}
use recallpack.Store.Claim.{claim_event}
use recallpack.Store.Complete.{Attempt, with_attempt, complete_event, complete_observe_operation}
use recallpack.Store.Fail.{fail_retryable_event}
use recallpack.Store.Audit.{audit_event_run_consistency}
use recallpack.Store.Consistent.{IsConsistent-audit}
use recallpack.Store.Kept.{
  InStep, complete_attempt-InStep, complete_operation-InStep, fail_attempt-InStep,
}
use recallpack.Store.Claimed.{claim_event-InStep}

pub data StoreCall : Type 0 where
  claims : ObserveRequest → ℕ → String → Draw → StoreCall
  completes : Attempt → Fields → Option Fields → String → StoreCall
  commits :
      Attempt → Fields → NormalMemory → List String → Embedding → Option Fields → Draw → StoreCall
  fails : Attempt → String → Option Fields → Option String → String → StoreCall

unfoldable pub after_call : Library → StoreCall → Store → Store
after_call lib (claims request now provider_mode draw) s =
    (claim_event lib request now provider_mode draw s).1
after_call lib (completes attempt final_result run_evidence utc_now) s =
    (complete_event lib attempt final_result run_evidence utc_now s).1
after_call lib (commits attempt final_result memory supersedes embedding run_evidence draw) s =
    (complete_observe_operation lib attempt final_result memory supersedes embedding run_evidence
      draw s).1
after_call lib (fails attempt error run_evidence error_detail utc_now) s =
    (fail_retryable_event lib attempt error run_evidence error_detail utc_now s).1

unfoldable pub after_calls : Library → List StoreCall → Store → Store
after_calls lib [] s = s
after_calls lib (c ∷ cs) s = after_calls lib cs (after_call lib c s)

abbrev pub empty_store : ℕ → Store
empty_store lease_seconds = record {
  events = [];
  memories = [];
  relations = [];
  runs = [];
  cursors = [];
  lease_seconds = lease_seconds;
}

-- What holds of the refusal and of each named attempt holds of a call on an attempt.
pub with_attempt-all :
    {A : Type 0} (P : A → Type 0) (attempt : Attempt) (refusal : A) (act : String → String → ℕ → A)
    → P refusal
    → ((i l : String) (n : ℕ)
        → attempt.event_internal_id ≡ some i
        → attempt.lease_token ≡ some l
        → attempt.attempt_no ≡ some n
        → P (act i l n))
    → P (with_attempt attempt refusal act)
unfolding with_attempt
with_attempt-all P attempt refusal act refused named =
    elim (Option-cases attempt.event_internal_id) [
      | inl absent ↦ rw (absent, with_attempt) refused
      | inr (i, event) ↦ elim (Option-cases attempt.lease_token) [
        | inl absent ↦ rw (event, absent, with_attempt) refused
        | inr (l, token) ↦ elim (Option-cases attempt.attempt_no) [
          | inl absent ↦ rw (event, token, absent, with_attempt) refused
          | inr (n, number) ↦
              rw (event, token, number, with_attempt) (named i l n event token number)
        ]
      ]
    ]

pub after_call-InStep :
    (lib : Library) (call : StoreCall) (s : Store) → InStep s → InStep (after_call lib call s)
unfolding after_call complete_event complete_observe_operation fail_retryable_event
after_call-InStep lib (claims request now provider_mode draw) s k =
    claim_event-InStep lib request now provider_mode draw s k
after_call-InStep lib (completes attempt result evidence now) s k =
    with_attempt-all {A = _ × Store} (λ r. InStep r.1) attempt _ _ k
      (λ i l n event token number. complete_attempt-InStep lib i l n result evidence now s k)
after_call-InStep lib (commits attempt result memory supersedes embedding evidence draw) s k =
    with_attempt-all {A = _ × Store} (λ r. InStep r.1) attempt _ _ k
      (λ i l n event token number.
        complete_operation-InStep lib i l n result memory supersedes embedding evidence draw s k)
after_call-InStep lib (fails attempt error evidence detail now) s k =
    with_attempt-all {A = _ × Store} (λ r. InStep r.1) attempt _ _ k
      (λ i l n event token number. fail_attempt-InStep lib i l n error evidence detail now s k)

pub after_calls-InStep :
    (lib : Library) (calls : List StoreCall) (s : Store)
    → InStep s
    → InStep (after_calls lib calls s)
unfolding after_calls
after_calls-InStep lib [] s k = k
after_calls-InStep lib (c ∷ cs) s k =
    after_calls-InStep lib cs (after_call lib c s) (after_call-InStep lib c s k)

pub empty_store-InStep : (lease_seconds : ℕ) → InStep (empty_store lease_seconds)
empty_store-InStep lease_seconds = record { ids = tt; histories = tt; known = tt }

-- After any sequence of claims, completions and retryable failures on an empty store, in any order and
-- with any arguments, the audit of the events and their runs passes.
pub after_calls-audit :
    (lib : Library) (lease_seconds : ℕ) (calls : List StoreCall)
    → audit_event_run_consistency
        (after_calls lib calls (empty_store lease_seconds)).events
        (after_calls lib calls (empty_store lease_seconds)).runs
      ≡ true
after_calls-audit lib lease_seconds calls =
    let s = after_calls lib calls (empty_store lease_seconds) in
    IsConsistent-audit s.events s.runs
      (after_calls-InStep lib calls (empty_store lease_seconds) (empty_store-InStep lease_seconds))
