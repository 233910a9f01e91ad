-- ===== src/Store/Advance.antt =====
-- The completions and failures of src/recallpack/storage.py move a session by a step.
use recallpack.Base.{
  ℕ, String, true, false, Option, some, List, ◌≡◌, refl, sym, ap, ◌∙◌, subst, inl, inr, arith, find,
  All-imp, ◌==◌, Bool-cases, Option-cases,
}
use recallpack.Json.{Fields}
use recallpack.Library.{Library}
use recallpack.Memory.{NormalMemory}
use recallpack.Embedding.{Embedding}
use recallpack.Store.Rows.{Event, failed_retryable, Store, Draw}
use recallpack.Store.Query.{
  is_blocking, is_pending, update_where, rowcount, is_owned, pending_event_for_attempt,
}
use recallpack.Store.Runs.{finish_run}
use recallpack.Store.Complete.{completed_row, complete_attempt, complete_operation}
use recallpack.Store.Fail.{failure_code_of, detail_of, failed_row, fail_attempt}
use recallpack.Store.Ended.{
  Completed, complete_attempt-true, complete_attempt-false, finish_run-Finished,
}
use recallpack.Store.Outcomes.{complete_operation-all}
use recallpack.Store.Tables.{found_only, find_sound}
use recallpack.Store.Updates.{All-find}
use recallpack.Store.Session.{
  SessionStep, stays, session_of, blocks_session, IsClean, InOrder, IsSame, same-InOrder,
  same-count, stays-count,
}
use recallpack.Store.Closing.{close-InOrder, close-SessionStep}

-- The session moved by a step, and is in order.
pub record Moved (p q : String) (s s' : Store) : Type 0 where
  pub order : InOrder p q s'.events s'.cursors
  pub step : SessionStep (session_of p q s) (session_of p q s')

abbrev pub Ordered : String → String → Store → Type 0
Ordered p q s = InOrder p q s.events s.cursors

pub Moved-refl : (p q : String) (s : Store) → Ordered p q s → Moved p q s s
Moved-refl p q s k = record { order = k; step = stays refl refl }

pub pending-is_blocking :
    (e : Event) → IsClean e → is_pending e.processing_state ≡ true → is_blocking e ≡ true
unfolding is_blocking
pending-is_blocking e c h = let quiet = c h in ground (arith, quiet)

owned-is_pending :
    (i l : String) (n : ℕ) (e : Event)
    → is_owned i l n e ≡ true
    → is_pending e.processing_state ≡ true
unfolding is_owned
owned-is_pending i l n e h = ground arith

completed-closed :
    (result : Fields) (e : Event)
    → (is_blocking (completed_row result e) ≡ false)
      × ((completed_row result e).project_id ≡ e.project_id)
      × ((completed_row result e).session_id ≡ e.session_id)
      × IsClean (completed_row result e)
unfolding is_blocking completed_row
completed-closed result e = (refl, refl, refl, λ h. absurd (ground arith))

module _ (p q : String) (lib : Library) where
  -- A completion in a store with the events and the cursors of `s`.
  Completed-Moved :
      (s t s' : Store) (event : Event) (i l : String) (n : ℕ) (result : Fields)
      (evidence : Option Fields) (now : String)
      → t.events ≡ s.events
      → t.cursors ≡ s.cursors
      → pending_event_for_attempt s i l n ≡ some event
      → Completed lib t s' event i l n result evidence now
      → Ordered p q s
      → Moved p q s s'
  unfolding pending_event_for_attempt
  Completed-Moved s t s' event i l n result evidence now same_events same_cursors there c k =
      let fits = is_owned i l n in
      let f = completed_row result in
      let found : find fits t.events ≡ some event = rw same_events there in
      let only = found_only fits t.events event c.one_owned found in
      let own = owned-is_pending i l n event (find_sound fits t.events event found) in
      let order : InOrder p q t.events t.cursors =
        subst (λ es. InOrder p q es t.cursors) (sym same_events)
          (subst (λ cs. InOrder p q s.events cs) (sym same_cursors) k) in
      let blocked =
        pending-is_blocking event (All-find IsClean fits t.events event order.clean found) own in
      let after = completed-closed result event in
      record {
        order =
            subst (λ u. Ordered p q u) (sym c.store)
              (close-InOrder p q event t.events t.cursors fits f fits found only c.one_owned blocked
                after.1 after.2 after.0 after.3 order);
        step =
            close-SessionStep p q event t.events t.cursors fits f fits found only c.one_owned
              blocked after.1 after.2 after.0 after.3 order s s' (sym same_events)
              (sym same_cursors) (ap (λ u. u.events) c.store) (ap (λ u. u.cursors) c.store);
      }

  pub complete_attempt-Moved :
      (i l : String) (n : ℕ) (result : Fields) (evidence : Option Fields) (now : String) (s : Store)
      → Ordered p q s
      → Moved p q s (complete_attempt lib i l n result evidence now s).1
  complete_attempt-Moved i l n result evidence now s k =
      let s' = (complete_attempt lib i l n result evidence now s).1 in
      elim (Bool-cases (complete_attempt lib i l n result evidence now s).0) [
        | inr refused ↦
            subst (λ t. Moved p q s t)
              (sym (complete_attempt-false lib i l n result evidence now s refused))
              (Moved-refl p q s k)
        | inl done ↦
            let (event, there, c) = complete_attempt-true lib i l n result evidence now s done in
            Completed-Moved s s s' event i l n result evidence now refl refl there c k
      ]

  failed-IsSame :
      (i l code : String) (n : ℕ) (e : Event)
      → IsClean e
      → is_owned i l n e ≡ true
      → IsSame e (failed_row code e)
  unfolding failed_row is_blocking
  failed-IsSame i l code n e c h = record {
    project = refl;
    session = refl;
    number = refl;
    blocking = sym (pending-is_blocking e c (owned-is_pending i l n e h));
    clean = λ b. absurd (ground arith);
  }

  pub fail_attempt-Moved :
      (i l : String) (n : ℕ) (error : String) (evidence : Option Fields) (detail : Option String)
      (now : String) (s : Store)
      → Ordered p q s
      → Moved p q s (fail_attempt lib i l n error evidence detail now s).1
  unfolding fail_attempt
  fail_attempt-Moved i l n error evidence detail now s k =
      let code = failure_code_of error in
      let text = detail_of error detail in
      let fits = is_owned i l n in
      let updated = record s { events = update_where fits (failed_row code) s.events } in
      elim (Bool-cases (rowcount fits s.events == 1)) [
        | inr other ↦ rw (other, fail_attempt) (Moved-refl p q s k)
        | inl one ↦
            elim (Option-cases
              (finish_run lib updated i n failed_retryable evidence (some code) text now)) [
                | inl unfinished ↦ rw (one, unfinished, fail_attempt) (Moved-refl p q s k)
                | inr (s', done) ↦
                    let g =
                      finish_run-Finished lib updated s' i n failed_retryable evidence (some code)
                        text now done in
                    let same = All-imp s.events (λ e c h. failed-IsSame i l code n e c h) k.clean in
                    let events : s'.events ≡ updated.events = ap (λ u. u.events) g.store in
                    let cursors : s'.cursors ≡ s.cursors = ap (λ u. u.cursors) g.store in
                    rw (one, done, fail_attempt)
                      (record {
                        order =
                            subst (λ u. Ordered p q u) (sym g.store)
                              (same-InOrder p q fits (failed_row code) s.events s.cursors same k);
                        step =
                            stays-count p q s s'
                              (ap (rowcount (blocks_session p q)) events
                                ∙ same-count p q fits (failed_row code) s.events same)
                              (ap (λ cs. (session_of p q (record s { cursors = cs })).next)
                                cursors);
                      })
              ]
      ]

  pub complete_operation-Moved :
      (i l : String) (n : ℕ) (final_result : Fields) (memory : NormalMemory)
      (supersedes : List String) (embedding : Embedding) (evidence : Option Fields) (draw : Draw)
      (s : Store)
      → Ordered p q s
      → Moved p q s
          (complete_operation lib i l n final_result memory supersedes embedding evidence draw s).1
  complete_operation-Moved i l n final_result memory supersedes embedding evidence draw s k =
      complete_operation-all lib s i l n evidence (Moved p q s) (Moved-refl p q s k)
        (λ t s' event result now same there c.
          Completed-Moved s t s' event i l n result evidence now same.events same.cursors there c k)
        final_result memory supersedes embedding draw
