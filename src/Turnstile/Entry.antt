-- ===== src/Turnstile/Entry.antt =====
-- Which ticket `_enter` of src/recallpack/locking.py lets in, and that some ticket can go in.
use recallpack.Base.{
  ℕ, String, true, false, Option, none, some, List, [], ◌∷◌, ◌≡◌, inl, inr, arith, subst,
  str_eq_refl, ok, Bool-cases, Option-cases, Result-cases, eqb_sound, eqb_refl,
}
use recallpack.Turnstile.Order.{elem, IsSorted, remove-listed}
use recallpack.Turnstile.Invariant.{
  state_at, project_at, queue, WellFormed, remove_pending-queue, turn_at-some, write-at,
}
use recallpack.Turnstile.Exclusion.{can_enter_free, can_enter-heads}
use recallpack.Turnstile.{
  ProjectTurn, registered, Ticket, Registry, or_empty, heads, is_cancelled, turn_at, order_lt,
  remove_pending, entered, wake, wake_ticket, can_enter, write, unless_empty,
}

order_lt_irrefl : (a : ProjectTurn) → order_lt a a ≡ false
unfolding order_lt
order_lt_irrefl a = ground arith

head_first :
    (turn : ℕ → ProjectTurn) (l : List ℕ) (t u : ℕ)
    → IsSorted turn l
    → heads l t ≡ true
    → elem u l ≡ true
    → order_lt (turn u) (turn t) ≡ false
head_first turn [] t u s h e = cc
head_first turn (v ∷ vs) t u s h e =
    ground (arith, s.0 u, eqb_sound v t h, eqb_sound v u, order_lt_irrefl (turn t))

heads-elem : (l : List ℕ) (t : ℕ) → heads l t ≡ true → elem t l ≡ true
heads-elem [] t h = cc
heads-elem (v ∷ vs) t h = rw h

nonempty-heads : (l : List ℕ) (u : ℕ) → elem u l ≡ true → (t : ℕ) × (heads l t ≡ true)
nonempty-heads [] u h = absurd (ground arith)
nonempty-heads (v ∷ vs) u h = (v, eqb_refl v)

remove_pending-listed :
    (pending : String → Option (List ℕ)) (p : String) (t : ℕ)
    → elem t (or_empty (pending p)) ≡ true
    → (pending' : String → Option (List ℕ)) × (remove_pending pending p t ≡ ok pending')
unfolding remove_pending write
remove_pending-listed pending p t h = elim (Option-cases (pending p)) [
  | inl missing ↦ absurd (ground arith)
  | inr (l, there) ↦
      let (rest, found) = remove-listed t l (ground arith) in
      (write pending p (unless_empty rest), rw (there, remove_pending, found))
]

-- A ticket that may enter does, and takes its project.
module _ (r : Registry) (t : ℕ) (ticket : Ticket) (at : r.tickets t ≡ some ticket) where
  wake-can_enter :
      (pending' : String → Option (List ℕ))
      → can_enter r t ticket ≡ true
      → is_cancelled ticket.state ≡ false
      → remove_pending r.pending ticket.turn.project_id t ≡ ok pending'
      → ((wake t r).0 ≡ entered) × ((wake t r).1.active_of ticket.turn.project_id ≡ some t)
  unfolding wake wake_ticket
  wake-can_enter pending' may live taken =
      let taken_over : write r.active_of ticket.turn.project_id (some t) ticket.turn.project_id
          ≡ some t =
        rw (
          write-at r.active_of ticket.turn.project_id ticket.turn.project_id (some t),
          str_eq_refl ticket.turn.project_id,
        ) in
      (rw (at, wake, may, live, taken), rw (at, wake, may, live, taken) taken_over)

  -- The other way round.
  entered-can_enter :
      (wake t r).0 ≡ entered
      → (can_enter r t ticket ≡ true)
        × (is_cancelled ticket.state ≡ false)
        × (pending' : String → Option (List ℕ)) × (remove_pending r.pending ticket.turn.project_id t
            ≡ ok pending')
  unfolding wake wake_ticket
  entered-can_enter went = elim (Bool-cases (can_enter r t ticket)) [
    | inr waits ↦ absurd (ground arith)
    | inl may ↦ elim (Bool-cases (is_cancelled ticket.state)) [
      | inl gone ↦ absurd (ground arith)
      | inr live ↦ elim (Result-cases (remove_pending r.pending ticket.turn.project_id t)) [
        | inl (pending', taken) ↦ (may, live, pending', taken)
        | inr (e, refused) ↦ absurd (ground arith)
      ]
    ]
  ]

module _ (r : Registry) (w : WellFormed r) where
  -- In a registry that is well formed, the ticket that goes in finds no turn inside its project and
  -- takes the project, and no ticket
  -- that waits for the project has an earlier turn.
  pub wake-entered :
      (t : ℕ) (ticket : Ticket)
      → r.tickets t ≡ some ticket
      → (wake t r).0 ≡ entered
      → (r.active_of ticket.turn.project_id ≡ none)
        × ((wake t r).1.active_of ticket.turn.project_id ≡ some t)
        × ((u : ℕ)
            → elem u (queue r ticket.turn.project_id) ≡ true
            → order_lt (turn_at r.tickets u) ticket.turn ≡ false)
  wake-entered t ticket at went =
      let (may, live, pending', taken) = entered-can_enter r t ticket at went in
      let (rest, found, same) =
        remove_pending-queue r.pending pending' ticket.turn.project_id t taken in
      let free = can_enter_free r w t ticket at rest may found in
      (
        free,
        (wake-can_enter r t ticket at pending' may live taken).1,
        λ u h.
            subst (λ a. order_lt (turn_at r.tickets u) a ≡ false)
              (turn_at-some r.tickets t ticket at)
              (head_first (turn_at r.tickets) (queue r ticket.turn.project_id) t u
                (w.ordered ticket.turn.project_id) (can_enter-heads r w t ticket at rest may found)
                h),
      )

  unmade_unlisted : (t : ℕ) (p : String) → r.tickets t ≡ none → elem t (queue r p) ≡ true → ⊥
  unmade_unlisted t p unmade listed =
      let none_there : state_at r.tickets t ≡ none = rw (unmade, state_at) in
      cc (w.waiting_state p t listed, none_there)

  -- The ticket at the head of a list may enter when its project is free.
  head_may_enter :
      (t : ℕ) (p : String) (ticket : Ticket)
      → r.tickets t ≡ some ticket
      → heads (queue r p) t ≡ true
      → r.active_of p ≡ none
      → (ticket.turn.project_id ≡ p)
        × (can_enter r t ticket ≡ true)
        × (is_cancelled ticket.state ≡ false)
  unfolding can_enter
  head_may_enter t p ticket at first free =
      let listed = heads-elem (queue r p) t first in
      let here : (state_at r.tickets t ≡ some ticket.state)
          × (project_at r.tickets t ≡ some ticket.turn.project_id) =
        (rw (at, state_at), rw (at, project_at)) in
      let mine : ticket.turn.project_id ≡ p = cc (w.waiting_project p t listed, here.1) in
      let waits : ticket.state ≡ registered = cc (w.waiting_state p t listed, here.0) in
      (mine, rw (waits, mine, free) first, rw waits)

  -- In a registry that is well formed, a project with tickets that wait and no turn inside has a ticket
  -- that the next `wake` lets in.
  pub wake-progress :
      (p : String) (u : ℕ)
      → r.active_of p ≡ none
      → elem u (queue r p) ≡ true
      → (t : ℕ) × ((wake t r).0 ≡ entered) × ((wake t r).1.active_of p ≡ some t)
  wake-progress p u free waits =
      let (t, first) = nonempty-heads (queue r p) u waits in
      let listed = heads-elem (queue r p) t first in
      elim (Option-cases (r.tickets t)) [
        | inl unmade ↦ absurd (unmade_unlisted t p unmade listed)
        | inr (ticket, at) ↦
            let (mine, may, live) = head_may_enter t p ticket at first free in
            let (pending', taken) =
              remove_pending-listed r.pending ticket.turn.project_id t (rw mine listed) in
            let went = wake-can_enter r t ticket at pending' may live taken in
            (t, went.0, subst (λ q. (wake t r).1.active_of q ≡ some t) mine went.1)
      ]
