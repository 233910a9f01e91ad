-- ===== src/Store/Entering.antt =====
-- The claims of src/recallpack/storage.py move a session by a step: a new event opens it.
use recallpack.Base.{
  ℕ, ◌+◌, String, Bool, true, ◌&&◌, ◌||◌, Option, none, some, ◌≡◌, refl, sym, ap, ◌∙◌, subst, inl,
  inr, arith, find, All-imp, ◌==◌, str_eq, str_eq_refl, opt_str_eq, Bool-cases, Option-cases,
}
use recallpack.Library.{Library}
use recallpack.Store.Rows.{Event, lost_lease, Store, Draw}
use recallpack.Store.Query.{
  is_blocking, is_pending, is_failed, is_retryable, update_where, rowcount,
}
use recallpack.Store.Runs.{finish_run, insert_running_run}
use recallpack.Store.Lease.{is_as_read, taken_over, renew_lease, take_over_lease}
use recallpack.Store.Claim.{claim_existing}
use recallpack.Store.Ended.{finish_run-Finished}
use recallpack.Store.Updates.{counted_only, All-find}
use recallpack.Store.Session.{
  expected_in, blocks_session, IsClean, InOrder, IsSame, same-InOrder, same-count, stays-count,
}
use recallpack.Store.Advance.{Moved, Ordered, Moved-refl, pending-is_blocking}

pub insert_running_run-tables :
    (s s' : Store) (run_id i : String) (n : ℕ) (mode at : String)
    → insert_running_run s run_id i n mode at ≡ some s'
    → (s'.events ≡ s.events) × (s'.cursors ≡ s.cursors)
unfolding insert_running_run
insert_running_run-tables s s' run_id i n mode at h = (ground arith, ground arith)

opt_str_eq_refl : (a : Option String) → opt_str_eq a a ≡ true
opt_str_eq_refl none = refl
opt_str_eq_refl (some a) = str_eq_refl a

as_read_refl :
    (e : Event)
    → is_pending e.processing_state || is_failed e.processing_state ≡ true
    → is_as_read e e ≡ true
unfolding is_as_read
as_read_refl e h = ground (arith, str_eq_refl e.internal_id, opt_str_eq_refl e.lease_token)

taken_over-IsSame :
    (existing : Event) (n : ℕ) (token : String) (expires : ℕ)
    → is_blocking existing ≡ true
    → IsSame existing (taken_over n token expires existing)
unfolding taken_over is_blocking
taken_over-IsSame existing n token expires h = record {
  project = refl;
  session = refl;
  number = refl;
  blocking = sym h;
  clean = λ b. refl;
}

module _ (p q : String) (existing : Event) (now : ℕ) (mode : String) (draw : Draw)
    (select : Event → Bool) (blocking : is_blocking existing ≡ true)
    (waiting : is_pending existing.processing_state || is_failed existing.processing_state
      ≡ true) where
  renew_lease-Moved :
      (before s : Store)
      → s.events ≡ before.events
      → s.cursors ≡ before.cursors
      → find select s.events ≡ some existing
      → Ordered p q before
      → Moved p q before (renew_lease before s existing now mode draw).1
  unfolding renew_lease
  renew_lease-Moved before s e c there k =
      let n = existing.attempt_count + 1 in
      let fits = is_as_read existing in
      let f = taken_over n draw.lease_token (now + s.lease_seconds) in
      let updated = record s { events = update_where fits f s.events } in
      elim (Bool-cases (rowcount fits s.events == 1)) [
        | inr other ↦ rw (other, renew_lease) (Moved-refl p q before k)
        | inl one ↦
            elim (Option-cases
              (insert_running_run updated draw.run_id existing.internal_id n mode draw.utc_now)) [
                | inl refused ↦ rw (one, refused, renew_lease) (Moved-refl p q before k)
                | inr (s', ran) ↦
                    let t =
                      insert_running_run-tables updated s' draw.run_id existing.internal_id n mode
                        draw.utc_now ran in
                    let only =
                      counted_only fits select s.events existing (ground arith) there
                        (as_read_refl existing waiting) in
                    let same =
                      All-imp s.events
                        (λ x h hit.
                          subst (λ y. IsSame y (f y)) (sym (h hit))
                            (taken_over-IsSame existing n draw.lease_token (now + s.lease_seconds)
                              blocking))
                        only in
                    let order : Ordered p q s =
                      subst (λ es. InOrder p q es s.cursors) (sym e)
                        (subst (λ cs. InOrder p q before.events cs) (sym c) k) in
                    rw (one, ran, renew_lease)
                      (record {
                        order =
                            subst (λ es. InOrder p q es s'.cursors) (sym t.0)
                              (subst (λ cs. InOrder p q updated.events cs) (sym t.1)
                                (same-InOrder p q fits f s.events s.cursors same order));
                        step =
                            stays-count p q before s'
                              (ap (rowcount (blocks_session p q)) t.0
                                ∙ same-count p q fits f s.events same
                                ∙ ap (rowcount (blocks_session p q)) e)
                              (ap (expected_in p q) (t.1 ∙ c));
                      })
              ]
      ]

  take_over_lease-Moved :
      (lib : Library) (s : Store)
      → find select s.events ≡ some existing
      → Ordered p q s
      → Moved p q s (take_over_lease lib s existing now mode draw).1
  unfolding take_over_lease
  take_over_lease-Moved lib s there k =
      let i = existing.internal_id in
      let n = existing.attempt_count in
      elim (Bool-cases (is_pending existing.processing_state)) [
        | inr other ↦ rw (other, take_over_lease) (renew_lease-Moved s s refl refl there k)
        | inl open_event ↦
            elim (Option-cases
              (finish_run lib s i n lost_lease none (some "lease_expired") none draw.utc_now)) [
                | inl unfinished ↦ rw (open_event, unfinished, take_over_lease) (Moved-refl p q s k)
                | inr (s', done) ↦
                    let f =
                      finish_run-Finished lib s s' i n lost_lease none (some "lease_expired") none
                        draw.utc_now done in
                    let events : s'.events ≡ s.events = ap (λ u. u.events) f.store in
                    let cursors : s'.cursors ≡ s.cursors = ap (λ u. u.cursors) f.store in
                    rw (open_event, done, take_over_lease)
                      (renew_lease-Moved s s' events cursors (rw events there) k)
              ]
      ]

retryable-is_blocking :
    (e : Event)
    → is_failed e.processing_state ≡ true
    → is_retryable e.failure_kind ≡ true
    → is_blocking e ≡ true
unfolding is_blocking
retryable-is_blocking e h k = ground arith

pub claim_existing-Moved :
    (p q : String) (lib : Library) (s : Store) (existing : Event) (select : Event → Bool)
    (hash : String) (now : ℕ) (mode : String) (draw : Draw)
    → find select s.events ≡ some existing
    → Ordered p q s
    → Moved p q s (claim_existing lib s existing hash now mode draw).1
unfolding claim_existing
claim_existing-Moved p q lib s existing select hash now mode draw there k =
    let stay = Moved-refl p q s k in
    let quiet = All-find IsClean select s.events existing k.clean there in
    elim (Bool-cases (str_eq existing.payload_hash hash)) [
      | inr conflict ↦ rw (conflict, claim_existing) stay
      | inl same ↦ elim (Bool-cases (is_pending existing.processing_state)) [
        | inl waiting ↦
            let taken =
              take_over_lease-Moved p q existing now mode draw select
                (pending-is_blocking existing quiet waiting) (ground arith) lib s there k in
            ground (arith, stay, taken)
        | inr other ↦
            elim (Bool-cases
              (is_failed existing.processing_state && is_retryable existing.failure_kind)) [
                | inl retry ↦
                    let taken =
                      take_over_lease-Moved p q existing now mode draw select
                        (retryable-is_blocking existing (ground arith) (ground arith))
                        (ground arith) lib s there k in
                    ground (arith, stay, taken)
                | inr over ↦ ground (arith, stay)
              ]
      ]
    ]
