-- ===== src/Turnstile/Exclusion.antt =====
-- Every call of the registry of src/recallpack/locking.py keeps its invariant, and what follows.
use recallpack.Base.{
  ℕ, true, none, some, List, ◌≡◌, inl, inr, arith, ◌==◌, if◌then◌else◌, Bool-cases, Result-cases,
  str_eq_sound, str_eq_complete, eqb_sound, eqb_refl,
}
use recallpack.Turnstile.Order.{IsSorted-agree, removed-elem}
use recallpack.Turnstile.Invariant.{
  state_at, project_at, queue, WellFormed, remove_pending-queue, left-WellFormed,
  state_at-write_ticket, project_at-relabel, write-at, write_ticket-at, names_sound,
  turn_at-relabel,
}
use recallpack.Turnstile.{
  TicketState, active, released, cancelled, Ticket, Registry, write, is_registered, write_ticket,
  turn_at, remove, remove_pending, wake_ticket, can_enter, release_ticket, cancel_ticket,
  is_cancelled, is_active, names, heads,
}

module _ (r : Registry) (w : WellFormed r) (t : ℕ) (ticket : Ticket)
    (at : r.tickets t ≡ some ticket) where
  relabelled :
      (s : TicketState) (u : ℕ)
      → (state_at (write_ticket r.tickets t (record ticket { state = s })) u
          ≡ (if t == u then some s else state_at r.tickets u))
        × (project_at (write_ticket r.tickets t (record ticket { state = s })) u
            ≡ project_at r.tickets u)
  relabelled s u = (
    state_at-write_ticket r.tickets t u (record ticket { state = s }),
    project_at-relabel r.tickets t u ticket s at,
  )

  pub cancel_ticket-WellFormed : WellFormed (cancel_ticket r t ticket).1
  unfolding cancel_ticket
  cancel_ticket-WellFormed = elim (Bool-cases (is_registered ticket.state)) [
    | inr other ↦ rw other w
    | inl waits ↦ elim (Result-cases (remove_pending r.pending ticket.turn.project_id t)) [
      | inr (e, refused) ↦ rw (waits, refused) w
      | inl (pending', taken) ↦
          let (rest, found, same) =
            remove_pending-queue r.pending pending' ticket.turn.project_id t taken in
          rw (waits, taken)
            (left-WellFormed r w t ticket rest at found cancelled pending' r.active_of (cc) same
              (λ q u h. ground (
                arith,
                relabelled cancelled u,
                w.holding_state q u,
                w.holding_project q u,
                eqb_sound t u,
              ))
              (λ q u h k. ground (arith, relabelled cancelled u, w.holds q u)))
    ]
  ]

  here :
      (project_at r.tickets t ≡ some ticket.turn.project_id)
      × (state_at r.tickets t ≡ some ticket.state)
  here = (rw (at, project_at), rw (at, state_at))

  -- A ticket that enters was waiting, and its project had no owner.
  pub can_enter_free :
      (rest : List ℕ)
      → can_enter r t ticket ≡ true
      → remove t (queue r ticket.turn.project_id) ≡ some rest
      → r.active_of ticket.turn.project_id ≡ none
  unfolding can_enter
  can_enter_free rest may found = ground (
    arith,
    here,
    removed-elem t (queue r ticket.turn.project_id) rest found,
    w.waiting_state ticket.turn.project_id t,
  )

  pub can_enter-heads :
      (rest : List ℕ)
      → can_enter r t ticket ≡ true
      → remove t (queue r ticket.turn.project_id) ≡ some rest
      → heads (queue r ticket.turn.project_id) t ≡ true
  unfolding can_enter
  can_enter-heads rest may found = ground (
    arith,
    here,
    removed-elem t (queue r ticket.turn.project_id) rest found,
    w.waiting_state ticket.turn.project_id t,
  )

  pub wake_ticket-WellFormed : WellFormed (wake_ticket r t ticket).1
  unfolding wake_ticket
  wake_ticket-WellFormed = elim (Bool-cases (can_enter r t ticket)) [
    | inr waits ↦ rw waits w
    | inl may ↦ elim (Bool-cases (is_cancelled ticket.state)) [
      | inl gone ↦ rw (may, gone) w
      | inr live ↦ elim (Result-cases (remove_pending r.pending ticket.turn.project_id t)) [
        | inr (e, refused) ↦ rw (may, live, refused) w
        | inl (pending', taken) ↦
            let (rest, found, same) =
              remove_pending-queue r.pending pending' ticket.turn.project_id t taken in
            let active' = write r.active_of ticket.turn.project_id (some t) in
            let free = can_enter_free rest may found in
            rw (may, live, taken)
              (left-WellFormed r w t ticket rest at found active pending' active' (cc) same
                (λ q u h. ground (
                  arith,
                  relabelled active u,
                  here,
                  write-at r.active_of ticket.turn.project_id q (some t),
                  w.holding_state q u,
                  w.holding_project q u,
                  str_eq_sound ticket.turn.project_id q,
                  eqb_refl t,
                ))
                (λ q u h k. ground (
                  arith,
                  relabelled active u,
                  here,
                  w.holds q u,
                  write-at r.active_of ticket.turn.project_id q (some t),
                  str_eq_sound ticket.turn.project_id q,
                  str_eq_complete ticket.turn.project_id q,
                  eqb_sound t u,
                )))
      ]
    ]
  ]

  pub release_ticket-WellFormed : WellFormed (release_ticket r t ticket).1
  unfolding release_ticket
  release_ticket-WellFormed = elim (Bool-cases (is_active ticket.state)) [
    | inr other ↦ rw other w
    | inl holder ↦ elim (Bool-cases (names (r.active_of ticket.turn.project_id) t)) [
      | inr lost ↦ rw (holder, lost) w
      | inl owns ↦
          rw (holder, owns)
            (record {
              unmade = λ u h. ground (
                arith,
                w.unmade u h,
                w.unmade t,
                write_ticket-at r.tickets t u (record ticket { state = released }),
              );
              waiting_state = λ q u h.
                  ground (arith, relabelled released u, w.waiting_state q u h, here, eqb_sound t u);
              waiting_project =
                  λ q u h. ground (arith, relabelled released u, w.waiting_project q u h);
              listed = λ q u h k. ground (arith, relabelled released u, w.listed q u);
              holding_state = λ q u h. ground (
                arith,
                relabelled released u,
                w.holding_state q u,
                w.holding_project q u,
                here,
                write-at r.active_of ticket.turn.project_id q none,
                str_eq_complete ticket.turn.project_id q,
                eqb_sound t u,
              );
              holding_project = λ q u h. ground (
                arith,
                relabelled released u,
                w.holding_project q u,
                write-at r.active_of ticket.turn.project_id q none,
              );
              holds = λ q u h k. ground (
                arith,
                relabelled released u,
                w.holds q u,
                w.holds q t,
                here,
                names_sound (r.active_of q) t,
                write-at r.active_of ticket.turn.project_id q none,
                str_eq_sound ticket.turn.project_id q,
                eqb_refl t,
              );
              once = w.once;
              ordered = λ q.
                  IsSorted-agree (turn_at r.tickets) _ (queue r q)
                    (λ u h. turn_at-relabel r.tickets t u ticket released at) (w.ordered q);
            })
    ]
  ]
