-- ===== src/Turnstile/Runs.antt =====
-- Interleavings of calls on one registry of src/recallpack/locking.py: exclusion, order, progress.
use recallpack.Base.{ℕ, String, some, List, [], ◌∷◌, ◌≡◌, refl, inl, inr, Bool-cases, Option-cases}
use recallpack.Turnstile.Invariant.{state_at, project_at, WellFormed}
use recallpack.Turnstile.Exclusion.{
  cancel_ticket-WellFormed, wake_ticket-WellFormed, release_ticket-WellFormed,
}
use recallpack.Turnstile.Register.{register-WellFormed}
use recallpack.Turnstile.{
  ProjectTurn, active, Registry, empty, is_registered, register, wake, enter, release, cancel,
  interrupt,
}

-- One call by some thread. A blocked thread's `wake` may come at any time.
pub data Call : Type 0 where
  to_register : ProjectTurn → Call
  to_enter to_wake to_release to_cancel to_interrupt : ℕ → Call

unfoldable pub apply : Call → Registry → Registry
apply (to_register turn) r = (register turn r).1
apply (to_enter t) r = (enter t r).1
apply (to_wake t) r = (wake t r).1
apply (to_release t) r = (release t r).1
apply (to_cancel t) r = (cancel t r).1
apply (to_interrupt t) r = (interrupt t r).1

unfoldable pub run : List Call → Registry → Registry
run [] r = r
run (c ∷ cs) r = run cs (apply c r)

module _ (r : Registry) (w : WellFormed r) (t : ℕ) where
  wake-WellFormed : WellFormed (wake t r).1
  unfolding wake
  wake-WellFormed = elim (Option-cases (r.tickets t)) [
    | inl unmade ↦ rw (unmade, wake) w
    | inr (ticket, at) ↦ rw (at, wake) (wake_ticket-WellFormed r w t ticket at)
  ]

  enter-WellFormed : WellFormed (enter t r).1
  unfolding enter
  enter-WellFormed = elim (Option-cases (r.tickets t)) [
    | inl unmade ↦ rw (unmade, enter) w
    | inr (ticket, at) ↦ elim (Bool-cases (is_registered ticket.state)) [
      | inl waits ↦ rw (at, enter, waits) wake-WellFormed
      | inr other ↦ rw (at, enter, other) w
    ]
  ]

  release-WellFormed : WellFormed (release t r).1
  unfolding release
  release-WellFormed = elim (Option-cases (r.tickets t)) [
    | inl unmade ↦ rw (unmade, release) w
    | inr (ticket, at) ↦ rw (at, release) (release_ticket-WellFormed r w t ticket at)
  ]

  cancel-WellFormed : WellFormed (cancel t r).1
  unfolding cancel
  cancel-WellFormed = elim (Option-cases (r.tickets t)) [
    | inl unmade ↦ rw (unmade, cancel) w
    | inr (ticket, at) ↦ rw (at, cancel) (cancel_ticket-WellFormed r w t ticket at)
  ]

  interrupt-WellFormed : WellFormed (interrupt t r).1
  unfolding interrupt
  interrupt-WellFormed = elim (Option-cases (r.tickets t)) [
    | inl unmade ↦ rw (unmade, interrupt) w
    | inr (ticket, at) ↦ elim (Bool-cases (is_registered ticket.state)) [
      | inl waits ↦ rw (at, interrupt, waits) (cancel_ticket-WellFormed r w t ticket at)
      | inr other ↦ rw (at, interrupt, other) w
    ]
  ]

apply-WellFormed : (c : Call) (r : Registry) → WellFormed r → WellFormed (apply c r)
unfolding apply
apply-WellFormed (to_register turn) r w = register-WellFormed r w turn
apply-WellFormed (to_enter t) r w = enter-WellFormed r w t
apply-WellFormed (to_wake t) r w = wake-WellFormed r w t
apply-WellFormed (to_release t) r w = release-WellFormed r w t
apply-WellFormed (to_cancel t) r w = cancel-WellFormed r w t
apply-WellFormed (to_interrupt t) r w = interrupt-WellFormed r w t

empty-WellFormed : WellFormed empty
empty-WellFormed = record {
  unmade = λ t h. refl;
  waiting_state = λ p t h. cc;
  waiting_project = λ p t h. cc;
  listed = λ p t h k. cc;
  holding_state = λ p t h. cc;
  holding_project = λ p t h. cc;
  holds = λ p t h k. cc;
  once = λ p. refl;
  ordered = λ p. tt;
}

run-WellFormed : (cs : List Call) (r : Registry) → WellFormed r → WellFormed (run cs r)
unfolding run
run-WellFormed [] r w = w
run-WellFormed (c ∷ cs) r w = run-WellFormed cs (apply c r) (apply-WellFormed c r w)

-- After any sequence of calls on a fresh registry, each queue is sorted and holds exactly the registered
-- tickets of its project, each once, and the active ticket of a project is its only active one.
pub reached-WellFormed : (cs : List Call) → WellFormed (run cs empty)
reached-WellFormed cs = run-WellFormed cs empty empty-WellFormed

-- After any sequence of calls on a fresh registry, two tickets of one project that are both
-- active are the same ticket: at most one turn at a time is inside a project.
pub run-exclusive :
    (cs : List Call) (p : String) (t u : ℕ)
    → state_at (run cs empty).tickets t ≡ some active
    → state_at (run cs empty).tickets u ≡ some active
    → project_at (run cs empty).tickets t ≡ some p
    → project_at (run cs empty).tickets u ≡ some p
    → t ≡ u
run-exclusive cs p t u ht hu pt pu =
    let w = reached-WellFormed cs in cc (w.holds p t ht pt, w.holds p u hu pu)
