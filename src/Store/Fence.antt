-- ===== src/Store/Fence.antt =====
-- Fencing in src/recallpack/storage.py: what an attempt that lost its lease can still write.
use recallpack.Base.{
  ℕ, ◌+◌, String, Bool, true, false, Option, none, some, List, [], ◌∷◌, ◌≡◌, refl, ap, ◌∙◌, inl,
  inr, arith, ◌==◌, find, Bool-cases, Option-cases, ok, str_eq_sound, opt_str_eq_sound,
  opt_str_eq_refl, str_eq_refl, eqb_refl,
}
use recallpack.Json.{Fields}
use recallpack.Library.{Library}
use recallpack.Memory.{NormalMemory}
use recallpack.Embedding.{Embedding}
use recallpack.Store.Rows.{Event, Store, Draw, lost_lease}
use recallpack.Store.Query.{is_pending, update_where, rowcount, is_owned, pending_event_for_attempt}
use recallpack.Store.Runs.{finish_run, insert_running_run}
use recallpack.Store.Lease.{is_as_read, taken_over, renew_lease, take_over_lease}
use recallpack.Store.Answer.{ClaimResult}
use recallpack.Store.Complete.{complete_attempt, complete_operation}
use recallpack.Store.Fail.{fail_attempt, fail_terminal_attempt}

-- A row that the old attempt owns is the row as it was read.
owned-as_read :
    (i l : String) (n : ℕ) (existing e : Event)
    → is_owned i l n existing ≡ true
    → is_owned i l n e ≡ true
    → is_as_read existing e ≡ true
unfolding is_owned is_as_read
owned-as_read i l n existing e h g =
    let id₁ = str_eq_sound existing.internal_id i (ground arith) in
    let id₂ = str_eq_sound e.internal_id i (ground arith) in
    let t₁ = opt_str_eq_sound existing.lease_token (some l) (ground arith) in
    let t₂ = opt_str_eq_sound e.lease_token (some l) (ground arith) in
    let k₁ : existing.attempt_count ≡ n = ground arith in
    let k₂ : e.attempt_count ≡ n = ground arith in
    let p₁ : is_pending existing.processing_state ≡ true = ground arith in
    let p₂ : is_pending e.processing_state ≡ true = ground arith in
    rw (id₁, id₂, t₁, t₂, k₁, k₂, p₁, p₂, str_eq_refl i, opt_str_eq_refl (some l), eqb_refl n) refl

-- A row that was taken over has a later number than the old attempt.
taken_over-unowned :
    (i l t : String) (n m : ℕ) (existing e : Event)
    → is_owned i l n existing ≡ true
    → is_owned i l n (taken_over (existing.attempt_count + 1) t m e) ≡ false
unfolding is_owned taken_over
taken_over-unowned i l t n m existing e h =
    let k : existing.attempt_count ≡ n = ground arith in ground arith

update-unowned :
    (i l t : String) (n m : ℕ) (existing : Event) (events : List Event)
    → is_owned i l n existing ≡ true
    → find
        (is_owned i l n)
        (update_where (is_as_read existing) (taken_over (existing.attempt_count + 1) t m) events)
      ≡ none
unfolding update_where find
update-unowned i l t n m existing [] h = refl
update-unowned i l t n m existing (e ∷ es) h =
    let rest = update-unowned i l t n m existing es h in
    elim (Bool-cases (is_as_read existing e)) [
      | inl same ↦ rw (same, taken_over-unowned i l t n m existing e h) rest
      | inr other ↦ elim (Bool-cases (is_owned i l n e)) [
        | inl mine ↦ absurd (ground (arith, owned-as_read i l n existing e h mine))
        | inr foreign ↦ rw (other, foreign) rest
      ]
    ]

-- The attempt whose lease was taken over no longer finds its row.
module _ (lib : Library) (existing : Event) (now : ℕ) (provider_mode : String) (draw : Draw)
    (s' : Store) (c : ClaimResult) (got : c.owns_attempt ≡ true) (i l : String) (n : ℕ)
    (mine : is_owned i l n existing ≡ true) where
  abbrev pub renewed : Store → Store
  renewed s = record s {
    events =
        update_where (is_as_read existing)
          (taken_over (existing.attempt_count + 1) draw.lease_token (now + s.lease_seconds))
          s.events;
  }

  insert_running_run-events :
      (s : Store) (event_id : String) (m : ℕ)
      → insert_running_run s draw.run_id event_id m provider_mode draw.utc_now ≡ some s'
      → s'.events ≡ s.events
  unfolding insert_running_run
  insert_running_run-events s event_id m h = ground arith

  renew_lease-fences :
      (before s : Store)
      → renew_lease before s existing now provider_mode draw ≡ (ok c, s')
      → pending_event_for_attempt s' i l n ≡ none
  unfolding renew_lease pending_event_for_attempt
  renew_lease-fences before s h = elim (Bool-cases (rowcount (is_as_read existing) s.events == 1)) [
    | inr other ↦ absurd (ground arith)
    | inl one ↦
        elim (Option-cases (
          insert_running_run (renewed s) draw.run_id existing.internal_id
            (existing.attempt_count + 1) provider_mode draw.utc_now)) [
              | inl refused ↦ absurd (ground arith)
              | inr (s₂, done) ↦
                  let same : s₂ ≡ s' = ground arith in
                  let kept =
                    insert_running_run-events (renewed s) existing.internal_id
                      (existing.attempt_count + 1) (done ∙ ap some same) in
                  rw kept (
                    update-unowned i l draw.lease_token n (now + s.lease_seconds) existing s.events
                      mine)
            ]
  ]

  take_over_lease-fences :
      (s : Store)
      → take_over_lease lib s existing now provider_mode draw ≡ (ok c, s')
      → pending_event_for_attempt s' i l n ≡ none
  unfolding take_over_lease
  take_over_lease-fences s h = elim (Bool-cases (is_pending existing.processing_state)) [
    | inr other ↦ renew_lease-fences s s (ground arith)
    | inl waiting ↦
        elim (Option-cases (
          finish_run lib s existing.internal_id existing.attempt_count lost_lease none
            (some "lease_expired") none draw.utc_now)) [
              | inl unfinished ↦ absurd (ground arith)
              | inr (s₁, done) ↦ renew_lease-fences s s₁ (ground arith)
            ]
  ]

-- No operation of an attempt that does not own its event succeeds or changes the store.
pub record IsFenced (lib : Library) (i l : String) (n : ℕ) (s : Store) : Type 0 where
  complete_keeps :
      (result : Fields) (evidence : Option Fields) (at : String)
      → complete_attempt lib i l n result evidence at s ≡ (false, s)
  operation_keeps :
      (result : Fields) (memory : NormalMemory) (supersedes : List String) (embedding : Embedding)
      (evidence : Option Fields) (draw : Draw)
      → complete_operation lib i l n result memory supersedes embedding evidence draw s
        ≡ (ok none, s)
  fail_keeps :
      (error : String) (evidence : Option Fields) (detail : Option String) (at : String)
      → fail_attempt lib i l n error evidence detail at s ≡ (false, s)
  terminal_keeps :
      (error : String) (result : Fields) → fail_terminal_attempt i l n error result s ≡ (false, s)

rowcount-none : {A : Type 0} (p : A → Bool) (xs : List A) → find p xs ≡ none → rowcount p xs ≡ 0
unfolding find rowcount
rowcount-none p [] h = refl
rowcount-none p (x ∷ xs) h = ground (arith, rowcount-none p xs)

module _ (lib : Library) (i l : String) (n : ℕ) (s : Store)
    (lost : pending_event_for_attempt s i l n ≡ none) where
  complete_lost :
      (result : Fields) (evidence : Option Fields) (at : String)
      → complete_attempt lib i l n result evidence at s ≡ (false, s)
  unfolding complete_attempt
  complete_lost result evidence at = ground arith

  operation_lost :
      (result : Fields) (memory : NormalMemory) (supersedes : List String) (embedding : Embedding)
      (evidence : Option Fields) (draw : Draw)
      → complete_operation lib i l n result memory supersedes embedding evidence draw s
        ≡ (ok none, s)
  unfolding complete_operation
  operation_lost result memory supersedes embedding evidence draw =
      rw (lost, complete_operation) refl

  no_row : rowcount (is_owned i l n) s.events ≡ 0
  unfolding pending_event_for_attempt
  no_row = rowcount-none (is_owned i l n) s.events lost

  fail_lost :
      (error : String) (evidence : Option Fields) (detail : Option String) (at : String)
      → fail_attempt lib i l n error evidence detail at s ≡ (false, s)
  unfolding fail_attempt
  fail_lost error evidence detail at = rw no_row refl

  terminal_lost :
      (error : String) (result : Fields) → fail_terminal_attempt i l n error result s ≡ (false, s)
  unfolding fail_terminal_attempt
  terminal_lost error result = rw (lost, fail_terminal_attempt) refl

  pub lost-IsFenced : IsFenced lib i l n s
  lost-IsFenced = record {
    complete_keeps = complete_lost;
    operation_keeps = operation_lost;
    fail_keeps = fail_lost;
    terminal_keeps = terminal_lost;
  }

-- After `_take_over_lease` handed a pending event to a new attempt, the attempt that owned the event
-- before is fenced: each of its completions and failures is refused and leaves the store as it is.
pub take_over-fences :
    (lib : Library) (s s' : Store) (existing : Event) (now : ℕ) (provider_mode : String)
    (draw : Draw) (c : ClaimResult) (i l : String) (n : ℕ)
    → take_over_lease lib s existing now provider_mode draw ≡ (ok c, s')
    → c.owns_attempt ≡ true
    → is_owned i l n existing ≡ true
    → IsFenced lib i l n s'
take_over-fences lib s s' existing now provider_mode draw c i l n h got mine =
    lost-IsFenced lib i l n s'
      (take_over_lease-fences lib existing now provider_mode draw s' c got i l n mine s h)
