-- ===== src/Turnstile/Register.antt =====
-- `register` of src/recallpack/locking.py keeps the invariant, whether it raises or not.
use recallpack.Base.{
  ℕ, suc, String, true, false, Option, none, some, List, [], ◌∷◌, ◌++◌, ◌≡◌, inl, inr, arith, ◌==◌,
  str_eq, if◌then◌else◌, Bool-cases, str_eq_sound, str_eq_complete, eqb_sound,
}
use recallpack.Turnstile.Order.{
  elem, IsSorted, elem-sort, distinct-sort, sort-IsSorted, elem-append_one, distinct-append_one,
  IsSorted-agree,
}
use recallpack.Turnstile.Invariant.{
  state_at, project_at, queue, WellFormed, state_at-write_ticket, project_at-write_ticket,
  write_ticket-at, turn_at-write_ticket, write-at,
}
use recallpack.Turnstile.{
  ProjectTurn, registered, Ticket, Registry, write, write_ticket, or_empty, turn_at, sort, register,
  attempt_taken, attempt_active,
}

module _ (r : Registry) (w : WellFormed r) (turn : ProjectTurn) where
  abbrev t : ℕ
  t = r.count

  abbrev fresh_ticket : Ticket
  fresh_ticket = record { turn = turn; state = registered }

  abbrev made : ℕ → Option Ticket
  made = write_ticket r.tickets t fresh_ticket

  unused : r.tickets t ≡ none
  unused = w.unmade t (omega arith)

  unused_at : (state_at r.tickets t ≡ none) × (project_at r.tickets t ≡ none)
  unused_at = (rw (unused, state_at), rw (unused, project_at))

  -- No list and no owner is the new ticket.
  unlisted : (q : String) → elem t (queue r q) ≡ false
  unlisted q = ground (arith, w.waiting_state q t, unused_at)

  at_made :
      (u : ℕ)
      → (state_at made u ≡ (if t == u then some registered else state_at r.tickets u))
        × (project_at made u ≡ (if t == u then some turn.project_id else project_at r.tickets u))
        × (turn_at made u ≡ (if t == u then turn else turn_at r.tickets u))
  at_made u = (
    state_at-write_ticket r.tickets t u fresh_ticket,
    project_at-write_ticket r.tickets t u fresh_ticket,
    turn_at-write_ticket r.tickets t u fresh_ticket,
  )

  made_ordered : (q : String) → IsSorted (turn_at made) (queue r q)
  made_ordered q =
      IsSorted-agree (turn_at r.tickets) (turn_at made) (queue r q)
        (λ u h. ground (arith, at_made u, unlisted q, eqb_sound t u)) (w.ordered q)

  abbrev emptied : String → Option (List ℕ)
  emptied = write r.pending turn.project_id (some (queue r turn.project_id))

  emptied-queue : (q : String) → or_empty (emptied q) ≡ queue r q
  emptied-queue q = ground (
    arith,
    write-at r.pending turn.project_id q (some (queue r turn.project_id)),
    str_eq_sound turn.project_id q,
  )

  abbrev grown : List ℕ
  grown = sort (turn_at made) (queue r turn.project_id ++ t ∷ [])

  grown-queue :
      (q : String)
      → or_empty (write r.pending turn.project_id (some grown) q)
        ≡ (if str_eq turn.project_id q then grown else queue r q)
  grown-queue q = ground (arith, write-at r.pending turn.project_id q (some grown))

  elem-grown : (u : ℕ) → elem u grown ≡ (if t == u then true else elem u (queue r turn.project_id))
  elem-grown u = ground (
    arith,
    elem-sort (turn_at made) u (queue r turn.project_id ++ t ∷ []),
    elem-append_one u t (queue r turn.project_id),
  )

  raised_WellFormed : WellFormed (record r { pending = emptied })
  raised_WellFormed = record {
    unmade = w.unmade;
    waiting_state = λ q u h. w.waiting_state q u (rw emptied-queue at h);
    waiting_project = λ q u h. w.waiting_project q u (rw emptied-queue at h);
    listed = λ q u h k. rw emptied-queue (w.listed q u h k);
    holding_state = w.holding_state;
    holding_project = w.holding_project;
    holds = w.holds;
    once = λ q. rw emptied-queue (w.once q);
    ordered = λ q. rw emptied-queue (w.ordered q);
  }

  registered_WellFormed : WellFormed (record {
    count = suc r.count;
    tickets = made;
    pending = write r.pending turn.project_id (some grown);
    active_of = r.active_of;
  })
  registered_WellFormed = record {
    unmade = λ u h. ground (arith, write_ticket-at r.tickets t u fresh_ticket, w.unmade u);
    waiting_state = λ q u h. ground (
      arith,
      grown-queue q,
      elem-grown u,
      at_made u,
      w.waiting_state q u,
      w.waiting_state turn.project_id u,
    );
    waiting_project = λ q u h. ground (
      arith,
      grown-queue q,
      elem-grown u,
      at_made u,
      unlisted q,
      eqb_sound t u,
      w.waiting_project q u,
      str_eq_sound turn.project_id q,
    );
    listed = λ q u h k. ground (
      arith,
      grown-queue q,
      elem-grown u,
      at_made u,
      w.listed q u,
      str_eq_sound turn.project_id q,
      str_eq_complete turn.project_id q,
    );
    holding_state =
        λ q u h. ground (arith, at_made u, unused_at, w.holding_state q u, eqb_sound t u);
    holding_project =
        λ q u h. ground (arith, at_made u, unused_at, w.holding_project q u, eqb_sound t u);
    holds = λ q u h k. ground (arith, at_made u, w.holds q u);
    once = λ q. ground (
      arith,
      grown-queue q,
      w.once q,
      w.once turn.project_id,
      unlisted turn.project_id,
      distinct-sort (turn_at made) (queue r turn.project_id ++ t ∷ []),
      distinct-append_one t (queue r turn.project_id),
    );
    ordered = λ q. elim (Bool-cases (str_eq turn.project_id q)) [
      | inl same ↦
          rw (grown-queue q, same)
            (sort-IsSorted (turn_at made) (queue r turn.project_id ++ t ∷ []))
      | inr other ↦ rw (grown-queue q, other) (made_ordered q)
    ];
  }

  pub register-WellFormed : WellFormed (register turn r).1
  unfolding register
  register-WellFormed = elim (Bool-cases (attempt_taken r.tickets turn (queue r turn.project_id))) [
    | inl taken ↦ rw taken raised_WellFormed
    | inr free ↦ elim (Bool-cases (attempt_active r.tickets turn (r.active_of turn.project_id))) [
      | inl holder ↦ rw (free, holder) raised_WellFormed
      | inr other ↦ rw (free, other) registered_WellFormed
    ]
  ]
