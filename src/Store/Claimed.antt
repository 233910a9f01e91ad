-- ===== src/Store/Claimed.antt =====
-- `claim_event` of src/recallpack/storage.py keeps the events and their runs in step.
use recallpack.Base.{
  ℕ, ◌+◌, String, true, false, not, some, List, [], ◌∷◌, ◌≡◌, refl, ap, sym, ◌∙◌, subst, inl, inr,
  arith, any, keep, All, All-imp, str_eq, str_eq_sound, str_eq_refl, Bool-cases, Option-cases,
}
use recallpack.Json.{member}
use recallpack.Library.{Library}
use recallpack.Memory.{ObserveRequest}
use recallpack.Store.Rows.{Event, running, Run, Store, Draw}
use recallpack.Store.Query.{event_by_key, cursor_for, next_project_event_seq}
use recallpack.Store.Runs.{insert_running_run}
use recallpack.Store.Answer.{payload_hash}
use recallpack.Store.Claim.{
  claim_existing, new_event, clashes, insert_event, claim_new, admit_new, claim_event,
}
use recallpack.Store.Audit.{expected_current_run_state, runs_of_event}
use recallpack.Store.History.{ended}
use recallpack.Store.Consistent.{has_id, apart, HasHistory, IsKnown, IsConsistent}
use recallpack.Store.Ending.{str_eq_swap, has_history-cons}
use recallpack.Store.Kept.{InStep}
use recallpack.Store.Opening.{opened_run, insert_running_run-rows}
use recallpack.Store.Renewed.{take_over_lease-InStep}

claim_existing-InStep :
    (lib : Library) (s : Store) (existing : Event) (hash : String) (now : ℕ) (mode : String)
    (draw : Draw)
    → InStep s
    → InStep (claim_existing lib s existing hash now mode draw).1
unfolding claim_existing
claim_existing-InStep lib s existing hash now mode draw k =
    ground (arith, take_over_lease-InStep existing now mode draw lib s k)

none_has_id :
    (i : String) (events : List Event)
    → All (λ f. not (has_id i f) ≡ true) events
    → any (has_id i) events ≡ false
unfolding any
none_has_id i [] h = refl
none_has_id i (x ∷ xs) h = ground (arith, none_has_id i xs h.1, h.0)

-- An identifier that no event has is the owner of no run.
unknown-runs :
    (i : String) (events : List Event) (runs : List Run)
    → All (λ f. not (has_id i f) ≡ true) events
    → All (IsKnown events) runs
    → runs_of_event runs i ≡ []
unfolding runs_of_event keep
unknown-runs i events [] h k = refl
unknown-runs i events (r ∷ rs) h k = elim (Bool-cases (str_eq r.event_internal_id i)) [
  | inl here ↦
      let there =
        subst (λ j. any (has_id j) events ≡ true) (str_eq_sound r.event_internal_id i here) k.0 in
      absurd (ground (arith, there, none_has_id i events h))
  | inr away ↦ rw away (unknown-runs i events rs h k.1)
]

module _ (e : Event) (new : Run) (owner : new.event_internal_id ≡ e.internal_id) where
  other_history :
      (runs : List Run) (f : Event)
      → apart e f ≡ true
      → HasHistory runs f
      → HasHistory (new ∷ runs) f
  unfolding runs_of_event keep
  other_history runs f away h =
      let swapped = str_eq_swap f.internal_id e.internal_id (ground arith) in
      let elsewhere : str_eq new.event_internal_id f.internal_id ≡ false = rw owner swapped in
      rw elsewhere h

  other_histories :
      (runs : List Run) (events : List Event)
      → All (λ f. apart e f ≡ true) events
      → All (HasHistory runs) events
      → All (HasHistory (new ∷ runs)) events
  other_histories runs [] a h = tt
  other_histories runs (x ∷ xs) a h =
      (other_history runs x a.0 h.0, other_histories runs xs a.1 h.1)

  first_history :
      (runs : List Run)
      → runs_of_event runs e.internal_id ≡ []
      → e.attempt_count ≡ 1
      → new.attempt_no ≡ 1
      → new.state ≡ running
      → expected_current_run_state e ≡ running
      → HasHistory (new ∷ runs) e
  unfolding runs_of_event keep ended
  first_history runs alone n m s x =
      let here : str_eq new.event_internal_id e.internal_id ≡ true =
        rw owner (str_eq_refl e.internal_id) in
      rw (here, alone) (has_history-cons e new [] 0 n m (rw (s, x) refl) refl)

  IsKnown-cons :
      (events : List Event) (runs : List Run)
      → All (IsKnown events) runs
      → All (IsKnown (e ∷ events)) runs
  unfolding any
  IsKnown-cons events runs k = All-imp runs (λ r h. ground arith) k

  first-IsKnown : (events : List Event) → IsKnown (e ∷ events) new
  unfolding any
  first-IsKnown events = rw (owner, str_eq_refl e.internal_id) refl

  -- A new event with its first run.
  first-IsConsistent :
      (events : List Event) (runs : List Run)
      → All (λ f. apart e f ≡ true) events
      → e.attempt_count ≡ 1
      → new.attempt_no ≡ 1
      → new.state ≡ running
      → expected_current_run_state e ≡ running
      → IsConsistent events runs
      → IsConsistent (e ∷ events) (new ∷ runs)
  first-IsConsistent events runs away n m s x c =
      let alone = unknown-runs e.internal_id events runs away c.known in
      record {
        ids = (away, c.ids);
        histories =
            (first_history runs alone n m s x, other_histories runs events away c.histories);
        known = (first-IsKnown events, IsKnown-cons events runs c.known);
      }

unclashed-apart :
    (e : Event) (events : List Event)
    → any (clashes e) events ≡ false
    → All (λ f. apart e f ≡ true) events
unfolding any clashes
unclashed-apart e [] h = tt
unclashed-apart e (x ∷ xs) h = (ground arith, unclashed-apart e xs (ground arith))

insert_event-rows :
    (s s' : Store) (e : Event)
    → insert_event s e ≡ some s'
    → (any (clashes e) s.events ≡ false) × (s'.events ≡ e ∷ s.events) × (s'.runs ≡ s.runs)
unfolding insert_event
insert_event-rows s s' e h = elim (Bool-cases (any (clashes e) s.events)) [
  | inl clash ↦ absurd (ground arith)
  | inr fresh ↦ (fresh, ground arith, ground arith)
]

new_event-first :
    (request : ObserveRequest) (at hash : String) (seq expires : ℕ) (draw : Draw)
    → ((new_event request at hash seq expires draw).internal_id ≡ draw.event_id)
      × ((new_event request at hash seq expires draw).attempt_count ≡ 1)
      × (expected_current_run_state (new_event request at hash seq expires draw) ≡ running)
unfolding new_event expected_current_run_state
new_event-first request at hash seq expires draw = (refl, refl, refl)

claim_new-InStep :
    (before s : Store) (request : ObserveRequest) (at hash : String) (now : ℕ) (mode : String)
    (draw : Draw)
    → InStep before
    → InStep s
    → InStep (claim_new before s request at hash now mode draw).1
unfolding claim_new
claim_new-InStep before s request at hash now mode draw k c =
    let seq = next_project_event_seq s request.project_id in
    let e = new_event request at hash seq (now + s.lease_seconds) draw in
    let first = new_event-first request at hash seq (now + s.lease_seconds) draw in
    let new = opened_run draw.run_id draw.event_id 1 mode draw.utc_now in
    elim (Option-cases (insert_event s e)) [
      | inl clash ↦ rw (clash, claim_new) k
      | inr (s₁, added) ↦
          elim (Option-cases
            (insert_running_run s₁ draw.run_id draw.event_id 1 mode draw.utc_now)) [
              | inl refused ↦ rw (added, refused, claim_new) k
              | inr (s₂, ran) ↦
                  let a = insert_event-rows s s₁ e added in
                  let b =
                    insert_running_run-rows s₁ s₂ draw.run_id draw.event_id 1 mode draw.utc_now
                      ran in
                  let kept =
                    first-IsConsistent e new (sym first.0) s.events s.runs
                      (unclashed-apart e s.events a.0) first.1 refl refl first.2 c in
                  let runs : s₂.runs ≡ new ∷ s.runs = b.1 ∙ ap (λ rs. new ∷ rs) a.2 in
                  rw (added, ran, claim_new)
                    (subst (λ es. IsConsistent es s₂.runs) (sym (b.0 ∙ a.1))
                      (subst (λ rs. IsConsistent (e ∷ s.events) rs) (sym runs) kept))
            ]
    ]

admit_new-InStep :
    (s : Store) (request : ObserveRequest) (at hash : String) (now : ℕ) (mode : String)
    (draw : Draw)
    → InStep s
    → InStep (admit_new s request at hash now mode draw).1
unfolding admit_new
admit_new-InStep s request at hash now mode draw k =
    let cursors = (cursor_for s.cursors request.project_id request.session_id).1 in
    let new =
      claim_new-InStep s (record s { cursors = cursors }) request at hash now mode draw k k in
    ground (arith, new, k)

pub claim_event-InStep :
    (lib : Library) (request : ObserveRequest) (now : ℕ) (provider_mode : String) (draw : Draw)
    (s : Store)
    → InStep s
    → InStep (claim_event lib request now provider_mode draw s).1
unfolding claim_event
claim_event-InStep lib request now provider_mode draw s k =
    elim (Bool-cases (member provider_mode ("fake" ∷ "live" ∷ []))) [
      | inr unknown ↦ rw unknown k
      | inl known ↦ elim (Option-cases (lib.canonical_utc_timestamp request.observed_at)) [
        | inl bad ↦ rw (known, bad) k
        | inr (at, canonical) ↦
            let hash = payload_hash lib request at in
            elim (Option-cases (event_by_key s request)) [
              | inl new ↦
                  rw (known, canonical, new)
                    (admit_new-InStep s request at hash now provider_mode draw k)
              | inr (existing, there) ↦
                  rw (known, canonical, there)
                    (claim_existing-InStep lib s existing hash now provider_mode draw k)
            ]
      ]
    ]
