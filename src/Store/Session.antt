-- ===== src/Store/Session.antt =====
-- A session of src/recallpack/storage.py as its clients see it: the number that it expects next, and whether
-- an event of it is open. The steps say how a session moves; the invariant ties it to the tables.
use recallpack.Base.{
  ℕ, ◌+◌, ◌≤◌, String, Bool, true, false, not, ◌&&◌, none, List, ◌≡◌, refl, sym, ap, ◌∙◌, subst,
  inl, inr, arith, find, All, All-imp, ◌==◌, is_some, str_eq, str_eq_sound, Bool-cases,
  Option-cases,
}
use recallpack.Store.Rows.{Event, Cursor, Store}
use recallpack.Store.Query.{
  in_session, is_blocking, is_pending, has_blocking_event, is_cursor_of, expected_of, cursor_for,
  update_where, rowcount,
}
use recallpack.Store.Updates.{rowcount-same, All-update, any-rowcount_zero}

pub record Session : Type 0 where
  pub next : ℕ
  pub is_open : Bool

-- A session stays as it is, opens its next event, or closes it and expects the one after.
pub data SessionStep (v w : Session) : Type 0 where
  stays : w.next ≡ v.next → w.is_open ≡ v.is_open → SessionStep v w
  opens : v.is_open ≡ false → w.is_open ≡ true → w.next ≡ v.next → SessionStep v w
  closes : v.is_open ≡ true → w.is_open ≡ false → w.next ≡ v.next + 1 → SessionStep v w

abbrev pub expected_in : String → String → List Cursor → ℕ
expected_in p q cursors = expected_of (find (is_cursor_of p q) cursors)

abbrev pub session_of : String → String → Store → Session
session_of p q s = record { next = expected_in p q s.cursors; is_open = has_blocking_event s p q }

abbrev pub blocks_session : String → String → Event → Bool
blocks_session p q e = in_session p q e && is_blocking e

abbrev pub IsClean : Event → Type 0
IsClean e = is_pending e.processing_state ≡ true → is_some e.failure_kind ≡ false

-- One event of the session is open at most, and it is the one that is expected. A session with an event has
-- its cursor, and no pending event has failed for good.
pub record InOrder (p q : String) (events : List Event) (cursors : List Cursor) : Type 0 where
  pub one : rowcount (blocks_session p q) events ≤ 1
  pub numbers :
      All (λ e. blocks_session p q e ≡ true → e.sequence_no ≡ expected_in p q cursors) events
  pub clean : All IsClean events
  pub tracked :
      All (λ e. in_session p q e ≡ true → is_some (find (is_cursor_of p q) cursors) ≡ true) events

pub session-open :
    (p q : String) (s : Store)
    → has_blocking_event s p q ≡ not (rowcount (blocks_session p q) s.events == 0)
unfolding has_blocking_event
session-open p q s = any-rowcount_zero (blocks_session p q) s.events

-- What an UPDATE that leaves the session alone does to a row.
pub record IsSame (e f : Event) : Type 0 where
  pub project : f.project_id ≡ e.project_id
  pub session : f.session_id ≡ e.session_id
  pub number : f.sequence_no ≡ e.sequence_no
  pub blocking : is_blocking f ≡ is_blocking e
  pub clean : IsClean f

module _ (p q : String) where
  same-in_session : (e f : Event) → IsSame e f → in_session p q f ≡ in_session p q e
  same-in_session e f k = rw (k.project, k.session) refl

  same-blocks_session : (e f : Event) → IsSame e f → blocks_session p q f ≡ blocks_session p q e
  same-blocks_session e f k =
      ap (λ b. b && is_blocking f) (same-in_session e f k)
      ∙ ap (λ b. in_session p q e && b) k.blocking

  module _ (fits : Event → Bool) (f : Event → Event) where
    pub same-InOrder :
        (events : List Event) (cursors : List Cursor)
        → All (λ e. fits e ≡ true → IsSame e (f e)) events
        → InOrder p q events cursors
        → InOrder p q (update_where fits f events) cursors
    same-InOrder events cursors same k = record {
      one =
          subst (λ n. n ≤ 1)
            (sym (
              rowcount-same fits f (blocks_session p q) events
                (All-imp events (λ e h hit. same-blocks_session e (f e) (h hit)) same)))
            k.one;
      numbers = All-update fits f _ events k.numbers (
          All-imp events
            (λ e h hit n b. (h hit).number ∙ n (sym (same-blocks_session e (f e) (h hit)) ∙ b))
            same);
      clean = All-update fits f _ events k.clean (All-imp events (λ e h hit c. (h hit).clean) same);
      tracked =
          All-update fits f _ events k.tracked
            (All-imp events (λ e h hit t b. t (sym (same-in_session e (f e) (h hit)) ∙ b)) same);
    }

    pub same-count :
        (events : List Event)
        → All (λ e. fits e ≡ true → IsSame e (f e)) events
        → rowcount (blocks_session p q) (update_where fits f events)
          ≡ rowcount (blocks_session p q) events
    same-count events same =
        rowcount-same fits f (blocks_session p q) events
          (All-imp events (λ e h hit. same-blocks_session e (f e) (h hit)) same)

  -- With the tables of one store in those of another, the session stays.
  pub stays-count :
      (s s' : Store)
      → rowcount (blocks_session p q) s'.events ≡ rowcount (blocks_session p q) s.events
      → expected_in p q s'.cursors ≡ expected_in p q s.cursors
      → SessionStep (session_of p q s) (session_of p q s')
  stays-count s s' count expected =
      stays expected (rw (session-open p q s, session-open p q s', count) refl)

  pub cursor_for-expected :
      (a b : String) (cursors : List Cursor)
      → expected_in p q (cursor_for cursors a b).1 ≡ expected_in p q cursors
  unfolding cursor_for find
  cursor_for-expected a b cursors = elim (Option-cases (find (is_cursor_of a b) cursors)) [
    | inr (c, there) ↦ rw there refl
    | inl missing ↦ elim (Bool-cases (str_eq a p && str_eq b q)) [
      | inr other ↦ rw (missing, other) refl
      | inl here ↦
          let ea = str_eq_sound a p (ground arith) in
          let eb = str_eq_sound b q (ground arith) in
          let gone : find (is_cursor_of p q) cursors ≡ none =
            subst (λ x. find (is_cursor_of x q) cursors ≡ none) ea
              (subst (λ y. find (is_cursor_of a y) cursors ≡ none) eb missing) in
          rw (missing, here, gone) refl
    ]
  ]

  pub cursor_for-tracked :
      (a b : String) (cursors : List Cursor)
      → is_some (find (is_cursor_of p q) cursors) ≡ true
      → is_some (find (is_cursor_of p q) (cursor_for cursors a b).1) ≡ true
  unfolding cursor_for find
  cursor_for-tracked a b cursors h = elim (Option-cases (find (is_cursor_of a b) cursors)) [
    | inr (c, there) ↦ rw there h
    | inl missing ↦ elim (Bool-cases (str_eq a p && str_eq b q)) [
      | inr other ↦ rw (missing, other) h
      | inl here ↦ rw (missing, here) refl
    ]
  ]

  pub cursor_for-InOrder :
      (a b : String) (events : List Event) (cursors : List Cursor)
      → InOrder p q events cursors
      → InOrder p q events (cursor_for cursors a b).1
  cursor_for-InOrder a b events cursors k = record {
    one = k.one;
    numbers = All-imp events (λ e n h. n h ∙ sym (cursor_for-expected a b cursors)) k.numbers;
    clean = k.clean;
    tracked = All-imp events (λ e t h. cursor_for-tracked a b cursors (t h)) k.tracked;
  }
