-- ===== src/Store/Ending.antt =====
-- The runs of one event of src/recallpack/storage.py when its current run is finished.
use recallpack.Base.{
  ℕ, suc, ◌+◌, ◌-◌, ◌<◌, String, Bool, true, false, List, [], ◌∷◌, ◌≡◌, refl, sym, ◌∙◌, subst, inl,
  inr, arith, any, keep, All, keep-All, str_eq, str_eq_sound, str_eq_complete, str_eq_refl,
  Bool-cases,
}
use recallpack.Store.Rows.{Event, running, Run}
use recallpack.Store.Query.{update_where, rowcount, is_running, is_run_of}
use recallpack.Store.Runs.{is_running_run}
use recallpack.Store.Audit.{is_of_event, runs_of_event, same_run_state, expected_current_run_state}
use recallpack.Store.History.{ended, has_history}
use recallpack.Store.Consistent.{has_id, HasHistory, IsKnown, IsConsistent, update-IsConsistent}

pub str_eq_swap : (a b : String) → str_eq a b ≡ false → str_eq b a ≡ false
str_eq_swap a b h = elim (Bool-cases (str_eq b a)) [
  | inl same ↦ absurd (ground (arith, str_eq_complete a b (sym (str_eq_sound b a same))))
  | inr other ↦ other
]

pub running-expected :
    (r : Run) (e : Event)
    → expected_current_run_state e ≡ running
    → same_run_state r.state (expected_current_run_state e) ≡ true
    → is_running r.state ≡ true
running-expected r e h s = ground (arith, h)

-- A history is a run in the state that its event asks for, before those that ended.
pub has_history-cons :
    (e : Event) (r : Run) (rs : List Run) (n : ℕ)
    → e.attempt_count ≡ suc n
    → r.attempt_no ≡ suc n
    → same_run_state r.state (expected_current_run_state e) ≡ true
    → ended n rs ≡ true
    → has_history e (r ∷ rs) ≡ true
unfolding has_history
has_history-cons e r rs n k k' s past = ground (arith, k, k', s, past)

-- The history of an event whose runs are known.
pub at_id :
    (e : Event) (i : String) (runs rs : List Run)
    → e.internal_id ≡ i
    → runs_of_event runs i ≡ rs
    → has_history e rs ≡ true
    → HasHistory runs e
at_id e i runs rs here rows h =
    subst (λ j. has_history e (runs_of_event runs j) ≡ true) (sym here)
      (subst (λ xs. has_history e xs ≡ true) (sym rows) h)

module _ (i : String) (n : ℕ) (g : Run → Run)
    (event_same : (r : Run) → (g r).event_internal_id ≡ r.event_internal_id)
    (number_same : (r : Run) → (g r).attempt_no ≡ r.attempt_no) where
  abbrev pub finished : List Run → List Run
  finished runs = update_where (is_running_run i n) g runs

  pub finished_other :
      (j : String) (runs : List Run)
      → str_eq j i ≡ false
      → runs_of_event (finished runs) j ≡ runs_of_event runs j
  unfolding runs_of_event update_where keep is_running_run is_run_of
  finished_other j [] h = refl
  finished_other j (r ∷ rs) h =
      let rest = finished_other j rs h in
      elim (Bool-cases (str_eq r.event_internal_id i)) [
        | inr elsewhere ↦ ground (arith, rest)
        | inl here ↦
            let away : str_eq r.event_internal_id j ≡ false =
              subst (λ k. str_eq k j ≡ false) (sym (str_eq_sound r.event_internal_id i here))
                (str_eq_swap j i h) in
            ground (arith, rest, event_same r)
      ]

  pub finished_mine :
      (runs : List Run) → runs_of_event (finished runs) i ≡ finished (runs_of_event runs i)
  unfolding runs_of_event update_where keep
  finished_mine [] = refl
  finished_mine (r ∷ rs) =
      let rest = finished_mine rs in
      elim (Bool-cases (is_running_run i n r)) [
        | inl hit ↦ ground (arith, rest, event_same r)
        | inr miss ↦ ground (arith, rest)
      ]

  ended-finished : (k : ℕ) (rs : List Run) → ended k rs ≡ true → finished rs ≡ rs
  unfolding ended update_where is_running_run
  ended-finished k [] h = refl
  ended-finished k (r ∷ rs) h = ground (arith, ended-finished (k - 1) rs)

  -- The current run of an event that has an open one is the one that is written.
  pub record IsCurrent (rs : List Run) : Type 0 where
    pub current : Run
    pub past : List Run
    pub rows : finished rs ≡ g current ∷ past
    pub number : current.attempt_no ≡ n
    pub positive : 0 < n
    pub past_ended : ended (n - 1) past ≡ true

  history-IsCurrent :
      (e : Event) (rs : List Run)
      → All (λ r. is_of_event i r ≡ true) rs
      → e.attempt_count ≡ n
      → expected_current_run_state e ≡ running
      → has_history e rs ≡ true
      → IsCurrent rs
  unfolding has_history update_where is_running_run is_run_of
  history-IsCurrent e [] a k s h = absurd (ground arith)
  history-IsCurrent e (r ∷ rs) a k s h =
      let past : ended (n - 1) rs ≡ true = ground arith in
      let open_state = running-expected r e s (ground arith) in
      let number : r.attempt_no ≡ n = ground arith in
      record {
        current = r;
        past = rs;
        rows = ground (arith, ended-finished (n - 1) rs past, a.0);
        number = number;
        positive = ground arith;
        past_ended = past;
      }

  pub own_runs : (runs : List Run) → All (λ r. is_of_event i r ≡ true) (runs_of_event runs i)
  unfolding runs_of_event
  own_runs runs = keep-All (is_of_event i) runs

  -- The runs of an event before and after its current run is finished.
  pub finished-IsCurrent :
      (e : Event) (runs : List Run)
      → has_id i e ≡ true
      → e.attempt_count ≡ n
      → expected_current_run_state e ≡ running
      → HasHistory runs e
      → IsCurrent (runs_of_event runs i)
  finished-IsCurrent e runs here k s h =
      history-IsCurrent e (runs_of_event runs i) (own_runs runs) k s (
        subst (λ j. has_history e (runs_of_event runs j) ≡ true) (str_eq_sound e.internal_id i here)
          h)

  pub IsKnown-finished :
      (events : List Event) (runs : List Run)
      → All (IsKnown events) runs
      → All (IsKnown events) (finished runs)
  unfolding update_where
  IsKnown-finished events [] h = tt
  IsKnown-finished events (r ∷ rs) h = elim (Bool-cases (is_running_run i n r)) [
    | inl hit ↦ (rw (hit, event_same r) h.0, IsKnown-finished events rs h.1)
    | inr miss ↦ (rw miss h.0, IsKnown-finished events rs h.1)
  ]

  module _ (fits : Event → Bool) (f : Event → Event)
      (only : (e : Event) → fits e ≡ true → has_id i e ≡ true)
      (same : (e : Event) → (f e).internal_id ≡ e.internal_id)
      (opened : (e : Event)
        → fits e ≡ true
        → (e.attempt_count ≡ n) × (expected_current_run_state e ≡ running)) where
    -- An event that ends with its run keeps its history.
    end-mine :
        (runs : List Run)
        → ((e : Event) (r : Run)
            → fits e ≡ true
            → ((f e).attempt_count ≡ n)
              × (same_run_state (g r).state (expected_current_run_state (f e)) ≡ true))
        → (e : Event) → fits e ≡ true
        → HasHistory runs e
        → HasHistory (finished runs) (f e)
    end-mine runs matched e hit h =
        let (k, s) = opened e hit in
        let c = finished-IsCurrent e runs (only e hit) k s h in
        let (k', s') = matched e c.current hit in
        let positive = c.positive in
        let before : n ≡ suc (n - 1) = omega (arith, positive) in
        at_id (f e) i (finished runs) (g c.current ∷ c.past)
          (same e ∙ str_eq_sound e.internal_id i (only e hit)) (finished_mine runs ∙ c.rows)
          (has_history-cons (f e) (g c.current) c.past (n - 1) (k' ∙ before)
            (number_same c.current ∙ c.number ∙ before) s' c.past_ended)

    pub end-IsConsistent :
        (events : List Event) (runs : List Run)
        → ((e : Event) (r : Run)
            → fits e ≡ true
            → ((f e).attempt_count ≡ n)
              × (same_run_state (g r).state (expected_current_run_state (f e)) ≡ true))
        → IsConsistent events runs
        → rowcount fits events ≡ 1
        → IsConsistent (update_where fits f events) (finished runs)
    end-IsConsistent events runs matched c one =
        update-IsConsistent i fits f only same runs (finished runs)
          (λ j away. finished_other j runs away) (end-mine runs matched) events c one
          (IsKnown-finished events runs c.known)

-- A new run for an event whose runs have all ended.
module _ (i : String) (n : ℕ) (new : Run) (owner : new.event_internal_id ≡ i)
    (next : new.attempt_no ≡ n + 1) (open_state : new.state ≡ running) (fits : Event → Bool)
    (f : Event → Event) (only : (e : Event) → fits e ≡ true → has_id i e ≡ true)
    (same : (e : Event) → (f e).internal_id ≡ e.internal_id)
    (reopened : (e : Event)
      → fits e ≡ true
      → ((f e).attempt_count ≡ n + 1) × (expected_current_run_state (f e) ≡ running)) where
  with_new_other :
      (j : String) (runs : List Run)
      → str_eq j i ≡ false
      → runs_of_event (new ∷ runs) j ≡ runs_of_event runs j
  unfolding runs_of_event keep
  with_new_other j runs away =
      let swapped = str_eq_swap j i away in
      let elsewhere : str_eq new.event_internal_id j ≡ false = rw owner swapped in rw elsewhere refl

  with_new_mine : (runs : List Run) → runs_of_event (new ∷ runs) i ≡ new ∷ runs_of_event runs i
  unfolding runs_of_event keep
  with_new_mine runs =
      let here : str_eq new.event_internal_id i ≡ true = rw owner (str_eq_refl i) in rw here refl

  as_expected :
      (e : Event)
      → expected_current_run_state e ≡ running
      → same_run_state new.state (expected_current_run_state e) ≡ true
  as_expected e s =
      subst (λ t. same_run_state t (expected_current_run_state e) ≡ true) (sym open_state)
        (subst (λ t. same_run_state running t ≡ true) (sym s) refl)

  renewed_history :
      (base : List Run) (e : Event)
      → fits e ≡ true
      → ended n (runs_of_event base i) ≡ true
      → HasHistory (new ∷ base) (f e)
  renewed_history base e hit past =
      let (k, s) = reopened e hit in
      at_id (f e) i (new ∷ base) (new ∷ runs_of_event base i)
        (same e ∙ str_eq_sound e.internal_id i (only e hit)) (with_new_mine base)
        (has_history-cons (f e) new (runs_of_event base i) n (omega (arith, k))
          (omega (arith, next)) (as_expected (f e) s) past)

  pub renew-IsConsistent :
      (events : List Event) (runs base : List Run)
      → IsConsistent events runs
      → rowcount fits events ≡ 1
      → ((j : String) → str_eq j i ≡ false → runs_of_event base j ≡ runs_of_event runs j)
      → ((e : Event) → fits e ≡ true → HasHistory runs e → ended n (runs_of_event base i) ≡ true)
      → All (IsKnown events) base
      → any (has_id i) events ≡ true
      → IsConsistent (update_where fits f events) (new ∷ base)
  renew-IsConsistent events runs base c one other past known there =
      update-IsConsistent i fits f only same runs (new ∷ base)
        (λ j away. with_new_other j base away ∙ other j away)
        (λ e hit h. renewed_history base e hit (past e hit h)) events c one (rw owner there, known)
