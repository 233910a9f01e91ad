-- ===== src/Store/Alive.antt =====
-- What the ends of an attempt in src/recallpack/storage.py count in a store whose events and runs are in step.
use recallpack.Base.{
  ℕ, ◌-◌, String, true, not, some, List, [], ◌∷◌, ◌≡◌, refl, sym, ◌∙◌, subst, inl, inr, arith, find,
  keep, All, str_eq, str_eq_sound, Bool-cases,
}
use recallpack.Store.Rows.{Event, Run, running, Store}
use recallpack.Store.Query.{rowcount, is_owned, is_run_of, pending_event_for_attempt}
use recallpack.Store.Runs.{is_running_run}
use recallpack.Store.Audit.{is_of_event, runs_of_event, expected_current_run_state}
use recallpack.Store.History.{ended, has_history}
use recallpack.Store.Tables.{Pairwise, find_sound}
use recallpack.Store.Updates.{All-find}
use recallpack.Store.Consistent.{has_id, apart, HasHistory}
use recallpack.Store.Ending.{running-expected, own_runs}
use recallpack.Store.Kept.{InStep, owned-has_id, owned_open}

-- The runs of one event are all that a count of its runs sees.
own-count :
    (i : String) (n : ℕ) (runs : List Run)
    → rowcount (is_running_run i n) (runs_of_event runs i) ≡ rowcount (is_running_run i n) runs
unfolding rowcount runs_of_event keep is_running_run is_run_of
own-count i n [] = refl
own-count i n (r ∷ rs) = ground (arith, own-count i n rs)

ended-count :
    (i : String) (n k : ℕ) (rs : List Run)
    → ended k rs ≡ true
    → rowcount (is_running_run i n) rs ≡ 0
unfolding rowcount ended is_running_run is_run_of
ended-count i n k [] h = refl
ended-count i n k (r ∷ rs) h = ground (arith, ended-count i n (k - 1) rs)

-- An event whose run should be running has one that runs.
history-count :
    (i : String) (n : ℕ) (e : Event) (rs : List Run)
    → All (λ r. is_of_event i r ≡ true) rs
    → e.attempt_count ≡ n
    → expected_current_run_state e ≡ running
    → has_history e rs ≡ true
    → rowcount (is_running_run i n) rs ≡ 1
unfolding has_history rowcount is_running_run is_run_of
history-count i n e [] a k s h = absurd (ground arith)
history-count i n e (r ∷ rs) a k s h =
    let past : ended (e.attempt_count - 1) rs ≡ true = ground arith in
    let open_state = running-expected r e s (ground arith) in
    let none_more = ended-count i n (e.attempt_count - 1) rs past in
    let number : r.attempt_no ≡ n = ground arith in
    let mine : str_eq r.event_internal_id i ≡ true = a.0 in
    ground (arith, open_state, none_more, number, mine)

pub none-owned :
    (i l : String) (n : ℕ) (events : List Event)
    → All (λ y. not (has_id i y) ≡ true) events
    → rowcount (is_owned i l n) events ≡ 0
unfolding rowcount
none-owned i l n [] h = refl
none-owned i l n (x ∷ xs) h = ground (arith, none-owned i l n xs h.1, owned-has_id i l n x, h.0)

-- No two rows have the identifier of the one that is found.
pub owned-count :
    (i l : String) (n : ℕ) (events : List Event) (e : Event)
    → Pairwise apart events
    → find (is_owned i l n) events ≡ some e
    → rowcount (is_owned i l n) events ≡ 1
unfolding rowcount find
owned-count i l n [] e p h = absurd (ground arith)
owned-count i l n (x ∷ xs) e p h = elim (Bool-cases (is_owned i l n x)) [
  | inr other ↦ rw other (omega (arith, owned-count i l n xs e p.1 (ground arith)))
  | inl hit ↦
      let here = str_eq_sound x.internal_id i (owned-has_id i l n x hit) in
      let z = none-owned i l n xs (subst (λ j. All (λ y. not (has_id j y) ≡ true) xs) here p.0) in
      rw hit (omega (arith, z))
]

-- The two counts that every end of an attempt tests.
pub owned-counts :
    (s : Store) (i l : String) (n : ℕ) (e : Event)
    → InStep s
    → pending_event_for_attempt s i l n ≡ some e
    → (rowcount (is_owned i l n) s.events ≡ 1) × (rowcount (is_running_run i n) s.runs ≡ 1)
unfolding pending_event_for_attempt
owned-counts s i l n e k there =
    let own = find_sound (is_owned i l n) s.events e there in
    let here = str_eq_sound e.internal_id i (owned-has_id i l n e own) in
    let (count, state) = owned_open i l n e own in
    let history = All-find (HasHistory s.runs) (is_owned i l n) s.events e k.histories there in
    (
      owned-count i l n s.events e k.ids there,
      sym (own-count i n s.runs)
          ∙ history-count i n e (runs_of_event s.runs i)
              (own_runs i n (λ r. r) (λ r. refl) (λ r. refl) s.runs) count state
              (subst (λ j. has_history e (runs_of_event s.runs j) ≡ true) here history),
    )
