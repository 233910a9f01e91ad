-- ===== src/Store/Consistent.antt =====
-- The invariant that ties the events of src/recallpack/storage.py to their runs, and what keeps it.
use recallpack.Base.{
  String, Bool, true, false, not, List, [], ◌∷◌, ◌≡◌, refl, ◌∙◌, subst, inl, inr, arith, any, all,
  All, All-imp, str_eq, str_eq_sound, if◌then◌else◌, Bool-cases,
}
use recallpack.Store.Rows.{Event, Run}
use recallpack.Store.Query.{update_where, rowcount}
use recallpack.Store.Audit.{runs_of_event, audit_event_runs, audit_event_run_consistency}
use recallpack.Store.History.{has_history, has_history-consistent_runs}
use recallpack.Store.Tables.{Pairwise}

abbrev pub has_id : String → Event → Bool
has_id i e = str_eq e.internal_id i

abbrev pub apart : Event → Event → Bool
apart e f = not (has_id e.internal_id f)

abbrev pub HasHistory : List Run → Event → Type 0
HasHistory runs e = has_history e (runs_of_event runs e.internal_id) ≡ true

abbrev pub IsKnown : List Event → Run → Type 0
IsKnown events r = any (has_id r.event_internal_id) events ≡ true

-- No two events share an identifier, every event has its history of runs, and every run has its event.
pub record IsConsistent (events : List Event) (runs : List Run) : Type 0 where
  pub ids : Pairwise apart events
  pub histories : All (HasHistory runs) events
  pub known : All (IsKnown events) runs

audit-all :
    (runs : List Run) (events : List Event)
    → All (HasHistory runs) events
    → all (audit_event_runs runs) events ≡ true
unfolding all audit_event_runs
audit-all runs [] h = refl
audit-all runs (e ∷ es) h =
    rw (has_history-consistent_runs e (runs_of_event runs e.internal_id) h.0)
      (audit-all runs es h.1)

-- The audit passes.
pub IsConsistent-audit :
    (events : List Event) (runs : List Run)
    → IsConsistent events runs
    → audit_event_run_consistency events runs ≡ true
unfolding audit_event_run_consistency
IsConsistent-audit events runs c = audit-all runs events c.histories

-- An UPDATE of the events with one identifier, which leaves the identifier alone.
module _ (i : String) (fits : Event → Bool) (f : Event → Event)
    (only : (e : Event) → fits e ≡ true → has_id i e ≡ true)
    (same : (e : Event) → (f e).internal_id ≡ e.internal_id) where
  none_fit :
      (events : List Event) → All (λ y. not (has_id i y) ≡ true) events → rowcount fits events ≡ 0
  unfolding rowcount
  none_fit [] h = refl
  none_fit (x ∷ xs) h = ground (arith, none_fit xs h.1, only x, h.0)

  -- With one row that fits, no other has its identifier.
  sole :
      (events : List Event)
      → Pairwise apart events
      → rowcount fits events ≡ 1
      → All (λ e. has_id i e ≡ true → fits e ≡ true) events
  unfolding rowcount
  sole [] p h = tt
  sole (x ∷ xs) p h = elim (Bool-cases (fits x)) [
    | inl hit ↦
        let e = str_eq_sound x.internal_id i (only x hit) in
        let others : All (λ y. not (has_id i y) ≡ true) xs =
          subst (λ j. All (λ y. not (has_id j y) ≡ true) xs) e p.0 in
        (λ k. hit, All-imp xs (λ y a k. absurd (ground arith)) others)
    | inr miss ↦ (
      λ k.
          let e = str_eq_sound x.internal_id i k in
          let z = none_fit xs (subst (λ j. All (λ y. not (has_id j y) ≡ true) xs) e p.0) in
          absurd (ground arith),
      sole xs p.1 (ground arith),
    )
  ]

  id-update : (j : String) (e : Event) → has_id j (if fits e then f e else e) ≡ has_id j e
  id-update j e = elim (Bool-cases (fits e)) [
    | inl hit ↦ rw (hit, same e) refl
    | inr miss ↦ rw miss refl
  ]

  any-update :
      (j : String) (events : List Event)
      → any (has_id j) (update_where fits f events) ≡ any (has_id j) events
  unfolding any update_where
  any-update j [] = refl
  any-update j (x ∷ xs) = rw (id-update j x, any-update j xs) refl

  apart-update :
      (j : String) (events : List Event)
      → All (λ y. not (has_id j y) ≡ true) events
      → All (λ y. not (has_id j y) ≡ true) (update_where fits f events)
  unfolding update_where
  apart-update j [] h = tt
  apart-update j (x ∷ xs) h = (rw (id-update j x) h.0, apart-update j xs h.1)

  Pairwise-update :
      (events : List Event) → Pairwise apart events → Pairwise apart (update_where fits f events)
  unfolding update_where
  Pairwise-update [] p = tt
  Pairwise-update (x ∷ xs) p = elim (Bool-cases (fits x)) [
    | inl hit ↦ (rw (hit, same x) (apart-update x.internal_id xs p.0), Pairwise-update xs p.1)
    | inr miss ↦ (rw miss (apart-update x.internal_id xs p.0), Pairwise-update xs p.1)
  ]

  module _ (runs runs' : List Run)
      (other : (j : String) → str_eq j i ≡ false → runs_of_event runs' j ≡ runs_of_event runs j)
      (mine : (e : Event) → fits e ≡ true → HasHistory runs e → HasHistory runs' (f e)) where
    histories-update :
        (events : List Event)
        → All (HasHistory runs) events
        → All (λ e. has_id i e ≡ true → fits e ≡ true) events
        → All (HasHistory runs') (update_where fits f events)
    unfolding update_where
    histories-update [] h s = tt
    histories-update (x ∷ xs) h s = elim (Bool-cases (fits x)) [
      | inl hit ↦ (rw hit (mine x hit h.0), histories-update xs h.1 s.1)
      | inr miss ↦
          let elsewhere : str_eq x.internal_id i ≡ false = elim (Bool-cases (has_id i x)) [
            | inl here ↦ absurd (ground (arith, s.0 here))
            | inr there ↦ there
          ] in
          (rw (miss, other x.internal_id elsewhere) h.0, histories-update xs h.1 s.1)
    ]

    pub update-IsConsistent :
        (events : List Event)
        → IsConsistent events runs
        → rowcount fits events ≡ 1
        → All (IsKnown events) runs'
        → IsConsistent (update_where fits f events) runs'
    update-IsConsistent events c one known = record {
      ids = Pairwise-update events c.ids;
      histories = histories-update events c.histories (sole events c.ids one);
      known = All-imp runs' (λ r k. any-update r.event_internal_id events ∙ k) known;
    }
