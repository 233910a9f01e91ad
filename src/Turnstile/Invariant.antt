-- ===== src/Turnstile/Invariant.antt =====
-- The invariant of the registry of src/recallpack/locking.py, and that each call keeps it.
use recallpack.Base.{
  ℕ, String, true, false, Option, none, some, List, [], ◌∷◌, ◌≡◌, ◌≢◌, refl, ◌≤◌, inl, inr, arith,
  ◌==◌, str_eq, if◌then◌else◌, ok, Bool-cases, Option-cases, str_eq_sound, str_eq_complete,
  eqb_sound,
}
use recallpack.Turnstile.Order.{
  elem, distinct, IsSorted, elem-remove, distinct-remove, IsSorted-agree, IsSorted-remove,
}
use recallpack.Turnstile.{
  TicketState, registered, active, Ticket, Registry, write, write_ticket, or_empty, turn_at, remove,
  remove_pending, names,
}

abbrev pub state_at : (ℕ → Option Ticket) → ℕ → Option TicketState
state_at tickets t = elim (tickets t) [ none ↦ none | some ticket ↦ some ticket.state ]

abbrev pub project_at : (ℕ → Option Ticket) → ℕ → Option String
project_at tickets t = elim (tickets t) [ none ↦ none | some ticket ↦ some ticket.turn.project_id ]

abbrev pub queue : Registry → String → List ℕ
queue r p = or_empty (r.pending p)

pub record WellFormed (r : Registry) : Type 0 where
  pub unmade : (t : ℕ) → r.count ≤ t → r.tickets t ≡ none
  pub waiting_state :
      (p : String) (t : ℕ) → elem t (queue r p) ≡ true → state_at r.tickets t ≡ some registered
  pub waiting_project :
      (p : String) (t : ℕ) → elem t (queue r p) ≡ true → project_at r.tickets t ≡ some p
  pub listed :
      (p : String) (t : ℕ)
      → state_at r.tickets t ≡ some registered
      → project_at r.tickets t ≡ some p
      → elem t (queue r p) ≡ true
  pub holding_state :
      (p : String) (t : ℕ) → r.active_of p ≡ some t → state_at r.tickets t ≡ some active
  pub holding_project :
      (p : String) (t : ℕ) → r.active_of p ≡ some t → project_at r.tickets t ≡ some p
  pub holds :
      (p : String) (t : ℕ)
      → state_at r.tickets t ≡ some active
      → project_at r.tickets t ≡ some p
      → r.active_of p ≡ some t
  pub once : (p : String) → distinct (queue r p) ≡ true
  pub ordered : (p : String) → IsSorted (turn_at r.tickets) (queue r p)

pub state_at-write_ticket :
    (tickets : ℕ → Option Ticket) (t u : ℕ) (ticket : Ticket)
    → state_at (write_ticket tickets t ticket) u
      ≡ (if t == u then some ticket.state else state_at tickets u)
unfolding write_ticket
state_at-write_ticket tickets t u ticket = elim (Bool-cases (t == u)) [
  | inl e ↦ rw (e, state_at, write_ticket)
  | inr e ↦ rw (e, state_at, write_ticket)
]

pub project_at-write_ticket :
    (tickets : ℕ → Option Ticket) (t u : ℕ) (ticket : Ticket)
    → project_at (write_ticket tickets t ticket) u
      ≡ (if t == u then some ticket.turn.project_id else project_at tickets u)
unfolding write_ticket
project_at-write_ticket tickets t u ticket = elim (Bool-cases (t == u)) [
  | inl e ↦ rw (e, project_at, write_ticket)
  | inr e ↦ rw (e, project_at, write_ticket)
]

pub turn_at-write_ticket :
    (tickets : ℕ → Option Ticket) (t u : ℕ) (ticket : Ticket)
    → turn_at (write_ticket tickets t ticket) u
      ≡ (if t == u then ticket.turn else turn_at tickets u)
unfolding write_ticket turn_at
turn_at-write_ticket tickets t u ticket = elim (Bool-cases (t == u)) [
  | inl e ↦ rw (e, turn_at, write_ticket)
  | inr e ↦ rw (e, turn_at, write_ticket)
]

-- A ticket with a new state keeps its project.
pub project_at-relabel :
    (tickets : ℕ → Option Ticket) (t u : ℕ) (ticket : Ticket) (s : TicketState)
    → tickets t ≡ some ticket
    → project_at (write_ticket tickets t (record ticket { state = s })) u ≡ project_at tickets u
project_at-relabel tickets t u ticket s at =
    ground (arith, project_at-write_ticket tickets t u (record ticket { state = s }), eqb_sound t u)

pub turn_at-some :
    (tickets : ℕ → Option Ticket) (t : ℕ) (ticket : Ticket)
    → tickets t ≡ some ticket
    → turn_at tickets t ≡ ticket.turn
unfolding turn_at
turn_at-some tickets t ticket at = rw (at, turn_at)

pub write-at {ℓ} :
    {V : Type ℓ} (m : String → Option V) (k q : String) (v : Option V)
    → write m k v q ≡ (if str_eq k q then v else m q)
unfolding write
write-at m k q v = refl

pub write_ticket-at :
    (tickets : ℕ → Option Ticket) (t u : ℕ) (ticket : Ticket)
    → write_ticket tickets t ticket u ≡ (if t == u then some ticket else tickets u)
unfolding write_ticket
write_ticket-at tickets t u ticket = refl

pub turn_at-relabel :
    (tickets : ℕ → Option Ticket) (t u : ℕ) (ticket : Ticket) (s : TicketState)
    → tickets t ≡ some ticket
    → turn_at tickets u ≡ turn_at (write_ticket tickets t (record ticket { state = s })) u
turn_at-relabel tickets t u ticket s at = ground (
  arith,
  eqb_sound t u,
  turn_at-some tickets t ticket at,
  turn_at-write_ticket tickets t u (record ticket { state = s }),
)

pub names_sound : (o : Option ℕ) (t : ℕ) → names o t ≡ true → o ≡ some t
names_sound none t h = cc
names_sound (some u) t h = ground arith

-- What a removal from the list of its project does to every list.
pub remove_pending-queue :
    (pending pending' : String → Option (List ℕ)) (p : String) (t : ℕ)
    → remove_pending pending p t ≡ ok pending'
    → (rest : List ℕ) × (remove t (or_empty (pending p)) ≡ some rest)
      × ((q : String) → or_empty (pending' q) ≡ (if str_eq p q then rest else or_empty (pending q)))
unfolding remove_pending write
remove_pending-queue pending pending' p t h = elim (Option-cases (pending p)) [
  | inl missing ↦ absurd (ground arith)
  | inr (l, there) ↦ elim (Option-cases (remove t l)) [
    | inl gone ↦ absurd (ground arith)
    | inr ([], found) ↦ ([], rw there found, λ q. ground arith)
    | inr (u ∷ us, found) ↦ (u ∷ us, rw there found, λ q. ground arith)
  ]
]

-- A ticket leaves the list of its project and takes a state in which it does not wait.
module _ (r : Registry) (w : WellFormed r) (t : ℕ) (ticket : Ticket) (rest : List ℕ)
    (at : r.tickets t ≡ some ticket) (found : remove t (queue r ticket.turn.project_id) ≡ some rest)
    (s : TicketState) where
  abbrev pub left : ℕ → Option Ticket
  left = write_ticket r.tickets t (record ticket { state = s })

  abbrev pub shorter : String → List ℕ
  shorter q = if str_eq ticket.turn.project_id q then rest else queue r q

  turn_at-left : (u : ℕ) → turn_at r.tickets u ≡ turn_at left u
  turn_at-left u = turn_at-relabel r.tickets t u ticket s at

  pub left_state : (u : ℕ) → state_at left u ≡ (if t == u then some s else state_at r.tickets u)
  left_state u = state_at-write_ticket r.tickets t u (record ticket { state = s })

  pub left_project : (u : ℕ) → project_at left u ≡ project_at r.tickets u
  left_project u = project_at-relabel r.tickets t u ticket s at

  left_none :
      (u : ℕ) → left u ≡ (if t == u then some (record ticket { state = s }) else r.tickets u)
  unfolding write_ticket
  left_none u = refl

  elem-shorter :
      (q : String) (u : ℕ)
      → elem u (shorter q) ≡ true
      → (elem u (queue r q) ≡ true) × ((t == u) ≡ false)
  elem-shorter q u h = ground (
    arith,
    elem-remove t u (queue r ticket.turn.project_id) rest (w.once ticket.turn.project_id) found,
    str_eq_sound ticket.turn.project_id q,
    str_eq_complete ticket.turn.project_id q,
    w.waiting_project q u,
    eqb_sound t u,
  )

  left_waiting :
      (q : String) (u : ℕ)
      → elem u (shorter q) ≡ true
      → (state_at left u ≡ some registered) × (project_at left u ≡ some q)
  left_waiting q u h = ground (
    arith,
    elem-shorter q u h,
    w.waiting_state q u,
    w.waiting_project q u,
    left_state u,
    left_project u,
  )

  left_listed :
      (q : String) (u : ℕ)
      → s ≢ registered
      → state_at left u ≡ some registered
      → project_at left u ≡ some q
      → elem u (shorter q) ≡ true
  left_listed q u n h k = ground (
    arith,
    left_state u,
    left_project u,
    w.listed q u,
    elem-remove t u (queue r ticket.turn.project_id) rest (w.once ticket.turn.project_id) found,
    str_eq_sound ticket.turn.project_id q,
  )

  left_once : (q : String) → distinct (shorter q) ≡ true
  left_once q = ground (
    arith,
    w.once q,
    distinct-remove t (queue r ticket.turn.project_id) rest (w.once ticket.turn.project_id) found,
  )

  left_ordered : (q : String) → IsSorted (turn_at left) (shorter q)
  left_ordered q =
      IsSorted-agree (turn_at r.tickets) (turn_at left) (shorter q) (λ u h. turn_at-left u)
        (elim (Bool-cases (str_eq ticket.turn.project_id q)) [
          | inl same ↦ rw same (
              IsSorted-remove (turn_at r.tickets) t (queue r ticket.turn.project_id) rest
                (w.once ticket.turn.project_id) found (w.ordered ticket.turn.project_id))
          | inr other ↦ rw other (w.ordered q)
        ])

  -- The invariant of the registry after it, from what the new owners are.
  pub left-WellFormed :
      (pending' : String → Option (List ℕ)) (active' : String → Option ℕ)
      → s ≢ registered
      → ((q : String) → or_empty (pending' q) ≡ shorter q)
      → ((q : String) (u : ℕ)
          → active' q ≡ some u
          → (state_at left u ≡ some active) × (project_at left u ≡ some q))
      → ((q : String) (u : ℕ)
          → state_at left u ≡ some active
          → project_at left u ≡ some q
          → active' q ≡ some u)
      → WellFormed
          (record { count = r.count; tickets = left; pending = pending'; active_of = active' })
  left-WellFormed pending' active' n same holding holder = record {
    unmade = λ u h. ground (arith, w.unmade u h, w.unmade t, left_none u);
    waiting_state = λ q u h. (left_waiting q u (rw (← same q) h)).0;
    waiting_project = λ q u h. (left_waiting q u (rw (← same q) h)).1;
    listed = λ q u h k. rw (same q) (left_listed q u n h k);
    holding_state = λ q u h. (holding q u h).0;
    holding_project = λ q u h. (holding q u h).1;
    holds = holder;
    once = λ q. rw (same q) (left_once q);
    ordered = λ q. rw (same q) (left_ordered q);
  }
