-- ===== src/Store/Served.antt =====
-- A store of src/recallpack/storage.py whose events and runs are in step records what the owner of an attempt
-- ends it with.
use recallpack.Base.{
  ℕ, String, true, not, Option, some, List, [], ◌∷◌, ◌≡◌, refl, subst, inl, inr, arith, find, All,
  str_eq_sound, Bool-cases,
}
use recallpack.Json.{obj, Fields}
use recallpack.Library.{Library}
use recallpack.Store.Rows.{Event, Store}
use recallpack.Store.Query.{rowcount, is_owned, pending_event_for_attempt}
use recallpack.Store.Runs.{is_running_run}
use recallpack.Store.Tables.{Pairwise, find_sound}
use recallpack.Store.Consistent.{has_id, apart}
use recallpack.Store.Kept.{InStep, owned-has_id}
use recallpack.Base.{false, Bool, Option, none}
use recallpack.Json.{Json}
use recallpack.Store.Rows.{ProcessingState, completed, RunState}
use recallpack.Store.Query.{update_where}
use recallpack.Store.Runs.{finished_run, normalized_run_evidence}
use recallpack.Store.Complete.{completed_row, run_state_of}
use recallpack.Store.Tables.{find-update_where}
use recallpack.Store.Alive.{none-owned, owned-count}

-- The attempt has ended: the row of its event has the state, the error and the result given, its one running run the
-- state and the failure given, and it owns the event no more.
pub record IsClosed (lib : Library) (s s' : Store) (i l : String) (n : ℕ) (state : ProcessingState)
    (run_state : RunState) (code : Option String) (final : Option Json) (evidence : Option Fields)
    (detail : Option String) (now : String) : Type 0 where
  row : Event
  found : find (has_id i) s'.events ≡ some row
  row_state : row.processing_state ≡ state
  row_error : row.last_error ≡ code
  row_result : row.final_result_json ≡ final
  released : pending_event_for_attempt s' i l n ≡ none
  one_running : rowcount (is_running_run i n) s.runs ≡ 1
  runs :
      s'.runs
      ≡ update_where
          (is_running_run i n)
          (finished_run lib now run_state (normalized_run_evidence evidence) code detail)
          s.runs

-- The owned row is the one with its identifier.
owned-row :
    (i l : String) (n : ℕ) (events : List Event) (e : Event)
    → Pairwise apart events
    → find (is_owned i l n) events ≡ some e
    → find (has_id i) events ≡ some e
unfolding find
owned-row i l n [] e p h = absurd (ground arith)
owned-row i l n (x ∷ xs) e p h = elim (Bool-cases (is_owned i l n x)) [
  | inl hit ↦ let named = owned-has_id i l n x hit in rw named (rw hit at h)
  | inr other ↦
      let rest : find (is_owned i l n) xs ≡ some e = ground arith in
      elim (Bool-cases (has_id i x)) [
        | inr elsewhere ↦ rw elsewhere (owned-row i l n xs e p.1 rest)
        | inl same ↦
            let here = str_eq_sound x.internal_id i same in
            let none_more =
              none-owned i l n xs (subst (λ j. All (λ y. not (has_id j y) ≡ true) xs) here p.0) in
            let one = owned-count i l n xs e p.1 rest in absurd (omega (arith, none_more, one))
      ]
]

none-left :
    (p : Event → Bool) (change : Event → Event) (events : List Event)
    → ((x : Event) → p (change x) ≡ false)
    → find p (update_where p change events) ≡ none
unfolding find update_where
none-left p change [] out = refl
none-left p change (x ∷ xs) out = elim (Bool-cases (p x)) [
  | inl hit ↦ rw (hit, out x) (none-left p change xs out)
  | inr miss ↦ rw (miss, miss) (none-left p change xs out)
]

module _ (i l : String) (n : ℕ) (s s' : Store) (e : Event) (change : Event → Event) (k : InStep s)
    (there : pending_event_for_attempt s i l n ≡ some e)
    (events : s'.events ≡ update_where (is_owned i l n) change s.events) where
  row-found :
      ((x : Event) → has_id i (change x) ≡ has_id i x) → find (has_id i) s'.events ≡ some (change e)
  unfolding pending_event_for_attempt
  row-found same =
      let own = find_sound (is_owned i l n) s.events e there in
      let here = owned-row i l n s.events e k.ids there in
      let moved = find-update_where (has_id i) (is_owned i l n) change s.events same in
      rw events (rw moved (rw here (rw own refl)))

  row-released :
      ((x : Event) → is_owned i l n (change x) ≡ false) → pending_event_for_attempt s' i l n ≡ none
  unfolding pending_event_for_attempt
  row-released out = rw events (none-left (is_owned i l n) change s.events out)

completed-out :
    (i l : String) (n : ℕ) (result : Fields) (x : Event)
    → is_owned i l n (completed_row result x) ≡ false
unfolding is_owned completed_row
completed-out i l n result x = ground arith

pub completed-IsClosed :
    (lib : Library) (i l : String) (n : ℕ) (result : Fields) (evidence : Option Fields)
    (now : String) (s s' : Store) (e : Event)
    → InStep s
    → pending_event_for_attempt s i l n ≡ some e
    → rowcount (is_running_run i n) s.runs ≡ 1
    → s'.events ≡ update_where (is_owned i l n) (completed_row result) s.events
    → s'.runs
      ≡ update_where
          (is_running_run i n)
          (finished_run lib now (run_state_of result) (normalized_run_evidence evidence) none none)
          s.runs
    → IsClosed lib s s' i l n completed
        (run_state_of result)
        none
        (some (obj result))
        evidence
        none
        now
unfolding completed_row
completed-IsClosed lib i l n result evidence now s s' e k there one events runs = record {
  row = completed_row result e;
  found = row-found i l n s s' e (completed_row result) k there events (λ x. refl);
  row_state = refl;
  row_error = refl;
  row_result = refl;
  released =
      row-released i l n s s' e (completed_row result) k there events (completed-out i l n result);
  one_running = one;
  runs = runs;
}
