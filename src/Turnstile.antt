-- ===== src/Turnstile.antt =====
-- src/recallpack/locking.py: the registry that lets one lifecycle turn at a time into a project,
-- in the order of (project_event_seq, attempt_no). A ticket is an object that the registry and
-- its owner share: it is a number here, and the registry's record holds what each number points
-- at. A blocked `_enter` is a state in which `wake` answers `blocked`.
mod Order
mod Invariant
mod Exclusion
mod Register
mod Runs
mod Entry
mod Tests
use recallpack.Base.{
  ℕ, suc, String, Bool, true, false, ◌&&◌, ◌||◌, Option, none, some, List, [], ◌∷◌, ◌++◌, length,
  any, ◌+◌, ltb, ◌==◌, str_eq, is_some, if◌then◌else◌, Result, ok, err,
}

pub record ProjectTurn : Type 0 where
  pub project_id : String
  pub project_event_seq : ℕ
  pub attempt_no : ℕ
  pub lease_token : String

pub data TicketState : Type 0 where
  registered active released cancelled : TicketState

pub record Ticket : Type 0 where
  pub turn : ProjectTurn
  pub state : TicketState

pub data TurnError : Type 0 where
  project_id_required : TurnError
  project_event_seq_must_be_positive : TurnError
  attempt_no_must_be_positive : TurnError
  lease_token_required : TurnError
  project_turn_already_registered : TurnError
  project_turn_not_enterable : TurnError
  project_turn_cancelled : TurnError
  project_turn_not_active : TurnError
  project_turn_ownership_lost : TurnError
  project_turn_not_cancellable : TurnError
  -- a missing dictionary key, an element that a list does not hold, a ticket that was never made
  key_error : TurnError
  value_error : TurnError
  no_such_ticket : TurnError

-- `__post_init__`
unfoldable pub project_turn : String → ℕ → ℕ → String → Result TurnError ProjectTurn
project_turn project_id project_event_seq attempt_no lease_token =
    if str_eq project_id ""
    then err project_id_required
    else if ltb project_event_seq 1
    then err project_event_seq_must_be_positive
    else if ltb attempt_no 1
    then err attempt_no_must_be_positive
    else if str_eq lease_token ""
    then err lease_token_required
    else ok (record {
      project_id = project_id;
      project_event_seq = project_event_seq;
      attempt_no = attempt_no;
      lease_token = lease_token;
    })

pub record Registry : Type 0 where
  -- the tickets made so far are 0, 1, …, count - 1
  pub count : ℕ
  pub tickets : ℕ → Option Ticket
  pub pending : String → Option (List ℕ)
  pub active_of : String → Option ℕ

abbrev pub empty : Registry
empty = record { count = 0; tickets = λ t. none; pending = λ p. none; active_of = λ p. none }

-- A map with one key written, or deleted by writing `none`.
unfoldable pub write {ℓ} :
    {V : Type ℓ} → (String → Option V) → String → Option V → String → Option V
write m key value k = if str_eq key k then value else m k

unfoldable pub write_ticket : (ℕ → Option Ticket) → ℕ → Ticket → ℕ → Option Ticket
write_ticket m t ticket u = if t == u then some ticket else m u

-- `_ticket_order`, compared as the tuples that it returns.
unfoldable pub order_lt : ProjectTurn → ProjectTurn → Bool
order_lt a b =
    ltb a.project_event_seq b.project_event_seq
    || (a.project_event_seq == b.project_event_seq && ltb a.attempt_no b.attempt_no)

unfoldable pub same_attempt : ProjectTurn → ProjectTurn → Bool
same_attempt left right =
    left.project_event_seq == right.project_event_seq && left.attempt_no == right.attempt_no

-- The turn behind a number that stands in a list of the registry.
unfoldable pub turn_at : (ℕ → Option Ticket) → ℕ → ProjectTurn
turn_at tickets t = elim (tickets t) [
  | some ticket ↦ ticket.turn
  | none ↦ record { project_id = ""; project_event_seq = 0; attempt_no = 0; lease_token = "" }
]

-- `list.sort(key=_ticket_order)`, a stable sort.
unfoldable pub insert_sorted : (ℕ → ProjectTurn) → ℕ → List ℕ → List ℕ
insert_sorted turn t [] = t ∷ []
insert_sorted turn t (u ∷ us) =
    if order_lt (turn u) (turn t) then u ∷ insert_sorted turn t us else t ∷ u ∷ us

unfoldable pub sort : (ℕ → ProjectTurn) → List ℕ → List ℕ
sort turn [] = []
sort turn (t ∷ ts) = insert_sorted turn t (sort turn ts)

abbrev pub or_empty : Option (List ℕ) → List ℕ
or_empty none = []
or_empty (some l) = l

abbrev pub attempt_taken : (ℕ → Option Ticket) → ProjectTurn → List ℕ → Bool
attempt_taken tickets turn l = any (λ item. same_attempt (turn_at tickets item) turn) l

abbrev pub attempt_active : (ℕ → Option Ticket) → ProjectTurn → Option ℕ → Bool
attempt_active tickets turn none = false
attempt_active tickets turn (some t) = same_attempt (turn_at tickets t) turn

-- A raise leaves the list that `setdefault` made; the new ticket is then out of every reach, and
-- is not counted as made.
unfoldable pub register : ProjectTurn → Registry → Result TurnError ℕ × Registry
register turn r =
    let ticket = r.count in
    let made = write_ticket r.tickets ticket (record { turn = turn; state = registered }) in
    let project_tickets = or_empty (r.pending turn.project_id) in
    let r' : Registry = record r {
      pending = write r.pending turn.project_id (some project_tickets);
    } in
    if attempt_taken r.tickets turn project_tickets
    then (err project_turn_already_registered, r')
    else if attempt_active r.tickets turn (r.active_of turn.project_id)
    then (err project_turn_already_registered, r')
    else (
      ok ticket,
      record {
        count = suc r.count;
        tickets = made;
        pending =
            write r.pending turn.project_id
              (some (sort (turn_at made) (project_tickets ++ ticket ∷ [])));
        active_of = r.active_of;
      },
    )

unfoldable pub registered_count : Registry → String → ℕ
registered_count r project_id =
    length (or_empty (r.pending project_id)) + (if is_some (r.active_of project_id) then 1 else 0)

abbrev pub is_registered : TicketState → Bool
is_registered registered = true
is_registered _ = false

abbrev pub is_active : TicketState → Bool
is_active active = true
is_active _ = false

abbrev pub is_cancelled : TicketState → Bool
is_cancelled cancelled = true
is_cancelled _ = false

-- `bool(pending) and pending[0] is ticket`
abbrev pub heads : List ℕ → ℕ → Bool
heads [] t = false
heads (u ∷ us) t = u == t

unfoldable pub can_enter : Registry → ℕ → Ticket → Bool
can_enter r t ticket =
    if is_registered ticket.state
    then (if is_some (r.active_of ticket.turn.project_id)
        then false
        else heads (or_empty (r.pending ticket.turn.project_id)) t)
    else true

-- `list.remove`: the list without the first occurrence, or ValueError.
unfoldable pub remove : ℕ → List ℕ → Option (List ℕ)
remove t [] = none
remove t (u ∷ us) =
    let rest = remove t us in
    if u == t then some us else elim rest [ none ↦ none | some us' ↦ some (u ∷ us') ]

abbrev pub unless_empty : List ℕ → Option (List ℕ)
unless_empty [] = none
unless_empty (t ∷ ts) = some (t ∷ ts)

-- `_remove_pending`: the tickets of the project without this one; an empty list is deleted.
unfoldable pub remove_pending :
    (String → Option (List ℕ)) → String → ℕ → Result TurnError (String → Option (List ℕ))
remove_pending pending project_id t = elim (pending project_id) [
  | none ↦ err key_error
  | some l ↦ elim (remove t l) [
    | none ↦ err value_error
    | some rest ↦ ok (write pending project_id (unless_empty rest))
  ]
]

pub data Woken : Type 0 where
  blocked : Woken
  entered : Woken
  failed : TurnError → Woken

-- What a thread in `_enter` does when it holds the condition: wait on, or go in.
unfoldable pub wake_ticket : Registry → ℕ → Ticket → Woken × Registry
wake_ticket r t ticket =
    if can_enter r t ticket
    then (if is_cancelled ticket.state
        then (failed project_turn_cancelled, r)
        else elim (remove_pending r.pending ticket.turn.project_id t) [
          | err e ↦ (failed e, r)
          | ok pending' ↦ (
            entered,
            record r {
              pending = pending';
              active_of = write r.active_of ticket.turn.project_id (some t);
              tickets = write_ticket r.tickets t (record ticket { state = active });
            },
          )
        ])
    else (blocked, r)

unfoldable pub wake : ℕ → Registry → Woken × Registry
wake t r = elim (r.tickets t) [
  | none ↦ (failed no_such_ticket, r)
  | some ticket ↦ wake_ticket r t ticket
]

-- The call of `_enter`, up to the first evaluation of its wait.
unfoldable pub enter : ℕ → Registry → Woken × Registry
enter t r = elim (r.tickets t) [
  | none ↦ (failed no_such_ticket, r)
  | some ticket ↦
      if is_registered ticket.state then wake t r else (failed project_turn_not_enterable, r)
]

-- `self._active.get(project_id) is ticket`
abbrev pub names : Option ℕ → ℕ → Bool
names none t = false
names (some u) t = u == t

unfoldable pub release_ticket : Registry → ℕ → Ticket → Result TurnError (Unit {0}) × Registry
release_ticket r t ticket =
    if is_active ticket.state
    then (if names (r.active_of ticket.turn.project_id) t
        then (
          ok tt,
          record r {
            active_of = write r.active_of ticket.turn.project_id none;
            tickets = write_ticket r.tickets t (record ticket { state = released });
          },
        )
        else (err project_turn_ownership_lost, r))
    else (err project_turn_not_active, r)

unfoldable pub release : ℕ → Registry → Result TurnError (Unit {0}) × Registry
release t r = elim (r.tickets t) [
  | none ↦ (err no_such_ticket, r)
  | some ticket ↦ release_ticket r t ticket
]

unfoldable pub cancel_ticket : Registry → ℕ → Ticket → Result TurnError (Unit {0}) × Registry
cancel_ticket r t ticket =
    if is_registered ticket.state
    then elim (remove_pending r.pending ticket.turn.project_id t) [
      | err e ↦ (err e, r)
      | ok pending' ↦ (
        ok tt,
        record r {
          pending = pending';
          tickets = write_ticket r.tickets t (record ticket { state = cancelled });
        },
      )
    ]
    else (err project_turn_not_cancellable, r)

unfoldable pub cancel : ℕ → Registry → Result TurnError (Unit {0}) × Registry
cancel t r = elim (r.tickets t) [
  | none ↦ (err no_such_ticket, r)
  | some ticket ↦ cancel_ticket r t ticket
]

-- An exception inside the wait of `_enter`: a ticket that still waits is withdrawn.
unfoldable pub interrupt : ℕ → Registry → Result TurnError (Unit {0}) × Registry
interrupt t r = elim (r.tickets t) [
  | none ↦ (err no_such_ticket, r)
  | some ticket ↦ if is_registered ticket.state then cancel_ticket r t ticket else (ok tt, r)
]
