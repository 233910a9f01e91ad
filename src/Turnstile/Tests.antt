-- ===== src/Turnstile/Tests.antt =====
-- Runs of the registry of src/recallpack/locking.py on concrete turns.
use recallpack.Base.{ℕ, true, false, none, some, List, [], ◌∷◌, ◌≡◌, refl, err, str_eq, any}
use recallpack.Turnstile.Order.{elem}
use recallpack.Turnstile.Invariant.{queue, WellFormed}
use recallpack.Turnstile.Runs.{
  Call, to_register, to_enter, to_wake, run, apply, reached-WellFormed, run-exclusive,
}
use recallpack.Turnstile.Entry.{wake-entered, wake-progress}
use recallpack.Turnstile.{
  ProjectTurn, Ticket, Registry, registered, empty, register, wake, wake_ticket, enter, release,
  release_ticket, cancel, cancel_ticket, interrupt, project_turn, project_id_required, same_attempt,
  project_turn_already_registered, order_lt, insert_sorted, sort, remove, remove_pending, can_enter,
  turn_at, write, write_ticket, entered, registered_count,
}

program : Unit {0}
unfolding run apply register wake wake_ticket enter release release_ticket cancel cancel_ticket
    interrupt same_attempt order_lt insert_sorted sort remove remove_pending can_enter turn_at write
    write_ticket str_eq any project_turn registered_count
program = tt

abbrev turn : ℕ → ℕ → ProjectTurn
turn seq attempt = record {
  project_id = "p";
  project_event_seq = seq;
  attempt_no = attempt;
  lease_token = "l";
}

-- The later event is registered first, and waits for the earlier one.
abbrev calls : List Call
calls = to_register (turn 2 1) ∷ to_register (turn 1 1) ∷ to_enter 0 ∷ to_wake 1 ∷ []

queue_in_order :
    queue (run (to_register (turn 2 1) ∷ to_register (turn 1 1) ∷ []) empty) "p" ≡ 1 ∷ 0 ∷ []
unfolding program
queue_in_order = refl

calls_result :
    ((run calls empty).active_of "p" ≡ some 1)
    × (queue (run calls empty) "p" ≡ 0 ∷ [])
    × (registered_count (run calls empty) "p" ≡ 2)
unfolding program
calls_result = (refl, refl, refl)

register_twice : (register (turn 2 1) (run calls empty)).0 ≡ err project_turn_already_registered
unfolding program
register_twice = refl

turn_needs_project : project_turn "" 1 1 "l" ≡ err project_id_required
unfolding program
turn_needs_project = refl

run-exclusive_example : ◌≡◌ {A = ℕ} 1 1
unfolding program
run-exclusive_example = run-exclusive calls "p" 1 1 refl refl refl refl

abbrev waiting_two : Registry
waiting_two = run (to_register (turn 2 1) ∷ to_register (turn 1 1) ∷ []) empty

abbrev first_ticket : Ticket
first_ticket = record { turn = turn 1 1; state = registered }

wake-entered_example :
    (waiting_two.active_of "p" ≡ none)
    × ((wake 1 waiting_two).1.active_of "p" ≡ some 1)
    × ((u : ℕ)
        → elem u (queue waiting_two "p") ≡ true
        → order_lt (turn_at waiting_two.tickets u) (turn 1 1) ≡ false)
unfolding program
wake-entered_example =
    wake-entered waiting_two
      (reached-WellFormed (to_register (turn 2 1) ∷ to_register (turn 1 1) ∷ [])) 1 first_ticket
      refl refl

wake-progress_example :
    (t : ℕ) × ((wake t waiting_two).0 ≡ entered) × ((wake t waiting_two).1.active_of "p" ≡ some t)
unfolding program
wake-progress_example =
    wake-progress waiting_two
      (reached-WellFormed (to_register (turn 2 1) ∷ to_register (turn 1 1) ∷ [])) "p" 0 refl refl

reached-WellFormed_example : WellFormed (run calls empty)
reached-WellFormed_example = reached-WellFormed calls
