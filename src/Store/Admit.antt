-- ===== src/Store/Admit.antt =====
-- The order in which src/recallpack/storage.py admits the events of a session.
use recallpack.Base.{
  ℕ, ◌+◌, String, true, false, ◌&&◌, none, some, List, [], ◌∷◌, ◌≡◌, refl, ap, subst, sym, ◌∙◌, inl,
  inr, arith, str_eq, find, any, ltb, leb, All, Bool-cases, Option-cases, ok, str_eq_refl,
}
use recallpack.Memory.{ObserveRequest}
use recallpack.Json.{member}
use recallpack.Library.{Library}
use recallpack.Store.Rows.{Event, Store, Draw}
use recallpack.Store.Query.{
  in_session, is_blocking, has_blocking_event, is_cursor_of, expected_of, cursor_for, last_seq,
  next_project_event_seq, event_by_key,
}
use recallpack.Store.Runs.{insert_running_run}
use recallpack.Store.Claim.{new_event, clashes, insert_event, claim_new, admit_new, claim_event}
use recallpack.Store.Answer.{ClaimResult, payload_hash}

-- The number that the session's next event must have.
abbrev pub expected : Store → ObserveRequest → ℕ
expected s request =
    expected_of (find (is_cursor_of request.project_id request.session_id) s.cursors)

-- What an event of the project may be numbered: below the new event's number.
abbrev pub IsBefore : String → ℕ → Event → Type 0
IsBefore project_id seq e = e.project_id ≡ project_id → ltb e.project_event_seq seq ≡ true

-- The new event was the next one of a session that had no open event. It is the newest of its
-- project, and it closes the session for other new events.
pub record IsAdmitted (s s' : Store) (request : ObserveRequest) (c : ClaimResult) : Type 0 where
  pub in_order : request.sequence_no ≡ expected s request
  pub unblocked : has_blocking_event s request.project_id request.session_id ≡ false
  pub event : Event
  pub events : s'.events ≡ event ∷ s.events
  pub fresh : any (clashes event) s.events ≡ false
  pub newest : All (IsBefore request.project_id event.project_event_seq) s.events
  pub answered : c.event_internal_id ≡ some event.internal_id
  pub blocked : has_blocking_event s' request.project_id request.session_id ≡ true
  pub memories : s'.memories ≡ s.memories

below_last :
    (project_id : String) (events : List Event) (n : ℕ)
    → leb (last_seq project_id events) n ≡ true
    → All (IsBefore project_id (n + 1)) events
below_last project_id [] n h = tt
below_last project_id (e ∷ es) n h = (
  λ same. ground (arith, same, str_eq_refl project_id),
  below_last project_id es n (elim (Bool-cases (str_eq e.project_id project_id)) [
    | inl hit ↦ ground arith
    | inr miss ↦ ground arith
  ]),
)

leb_refl : (n : ℕ) → leb n n ≡ true
leb_refl n = ground arith

blocks :
    (request : ObserveRequest) (at hash : String) (seq expires : ℕ) (draw : Draw)
    (events : List Event)
    → any
        (λ e. in_session request.project_id request.session_id e && is_blocking e)
        (new_event request at hash seq expires draw ∷ events)
      ≡ true
unfolding new_event is_blocking any
blocks request at hash seq expires draw events =
    rw (str_eq_refl request.project_id, str_eq_refl request.session_id) refl

insert_event-some :
    (s s' : Store) (e : Event)
    → insert_event s e ≡ some s'
    → (any (clashes e) s.events ≡ false) × (s'.events ≡ e ∷ s.events) × (s'.memories ≡ s.memories)
unfolding insert_event
insert_event-some s s' e h = elim (Bool-cases (any (clashes e) s.events)) [
  | inl clash ↦ absurd (ground arith)
  | inr fresh ↦ (fresh, ground arith, ground arith)
]

insert_running_run-some :
    (s s' : Store) (run_id i : String) (n : ℕ) (mode at : String)
    → insert_running_run s run_id i n mode at ≡ some s'
    → (s'.events ≡ s.events) × (s'.memories ≡ s.memories)
unfolding insert_running_run
insert_running_run-some s s' run_id i n mode at h = (ground arith, ground arith)

module _ (request : ObserveRequest) (observed_at hash : String) (now : ℕ) (mode : String)
    (draw : Draw) where
  abbrev pub row : Store → Event
  row s =
      new_event request observed_at hash (next_project_event_seq s request.project_id)
        (now + s.lease_seconds) draw

  row-newest : (s : Store) → All (IsBefore request.project_id (row s).project_event_seq) s.events
  unfolding new_event next_project_event_seq
  row-newest s =
      below_last request.project_id s.events (last_seq request.project_id s.events) (leb_refl _)

  row-internal_id : (s : Store) → (row s).internal_id ≡ draw.event_id
  unfolding new_event
  row-internal_id s = refl

  row-blocks :
      (s s' : Store) (events : List Event)
      → s'.events ≡ row s ∷ events
      → has_blocking_event s' request.project_id request.session_id ≡ true
  unfolding has_blocking_event
  row-blocks s s' events h = rw h (
      blocks request observed_at hash (next_project_event_seq s request.project_id)
        (now + s.lease_seconds) draw events)

  claim_new-IsAdmitted :
      (before s : Store) (s' : Store) (c : ClaimResult)
      → request.sequence_no ≡ expected before request
      → has_blocking_event before request.project_id request.session_id ≡ false
      → s.events ≡ before.events
      → s.memories ≡ before.memories
      → c.owns_attempt ≡ true
      → claim_new before s request observed_at hash now mode draw ≡ (ok c, s')
      → IsAdmitted before s' request c
  unfolding claim_new
  claim_new-IsAdmitted before s s' c number clear same_events same_memories got h =
      elim (Option-cases (insert_event s (row s))) [
        | inl clash ↦ absurd (ground arith)
        | inr (s₁, inserted) ↦
            elim (Option-cases
              (insert_running_run s₁ draw.run_id draw.event_id 1 mode draw.utc_now)) [
                | inl refused ↦ absurd (ground arith)
                | inr (s₂, ran) ↦
                    let a = insert_event-some s s₁ (row s) inserted in
                    let b =
                      insert_running_run-some s₁ s₂ draw.run_id draw.event_id 1 mode draw.utc_now
                        ran in
                    let same : s₂ ≡ s' = ground arith in
                    let answer : c.event_internal_id ≡ some draw.event_id = ground arith in
                    let rows : s'.events ≡ row s ∷ s.events = ground (arith, a, b) in
                    record {
                      in_order = number;
                      unblocked = clear;
                      event = row s;
                      events = rows ∙ ap (λ es. row s ∷ es) same_events;
                      fresh = subst (λ es. any (clashes (row s)) es ≡ false) same_events a.0;
                      newest =
                          subst
                            (λ es. All (IsBefore request.project_id (row s).project_event_seq) es)
                            same_events (row-newest s);
                      answered = answer ∙ ap some (sym (row-internal_id s));
                      blocked = row-blocks s s' s.events rows;
                      memories = ground (arith, a, b);
                    }
              ]
      ]

  admit_new-IsAdmitted :
      (s s' : Store) (c : ClaimResult)
      → c.owns_attempt ≡ true
      → admit_new s request observed_at hash now mode draw ≡ (ok c, s')
      → IsAdmitted s s' request c
  unfolding admit_new cursor_for
  admit_new-IsAdmitted s s' c got h =
      let clear : has_blocking_event s request.project_id request.session_id ≡ false =
        ground arith in
      let number : request.sequence_no ≡ expected s request = ground arith in
      let cursors = (cursor_for s.cursors request.project_id request.session_id).1 in
      claim_new-IsAdmitted s (record s { cursors = cursors }) s' c number clear refl refl got
        (ground arith)

-- A request for an event that is not stored becomes the owner of an attempt only as the event that
-- its session expects next, while no event of the session is open. Its row is then added with a
-- number above every other of its project and clashes with none, and the session is closed.
pub claim_event-IsAdmitted :
    (lib : Library) (request : ObserveRequest) (now : ℕ) (provider_mode : String) (draw : Draw)
    (s s' : Store) (c : ClaimResult)
    → event_by_key s request ≡ none
    → claim_event lib request now provider_mode draw s ≡ (ok c, s')
    → c.owns_attempt ≡ true
    → IsAdmitted s s' request c
unfolding claim_event
claim_event-IsAdmitted lib request now provider_mode draw s s' c new h got =
    elim (Bool-cases (member provider_mode ("fake" ∷ "live" ∷ []))) [
      | inr unknown ↦ absurd (ground arith)
      | inl known ↦ elim (Option-cases (lib.canonical_utc_timestamp request.observed_at)) [
        | inl bad ↦ absurd (ground arith)
        | inr (at, canonical) ↦
            admit_new-IsAdmitted request at (payload_hash lib request at) now provider_mode draw s
              s' c got (ground arith)
      ]
    ]
