-- ===== src/Store/Opened.antt =====
-- A new event of src/recallpack/storage.py opens its session.
use recallpack.Base.{
  ℕ, ◌+◌, String, true, false, some, List, ◌∷◌, ◌≡◌, refl, sym, ap, ◌∙◌, subst, inl, inr, arith,
  find, ltb, is_some, str_eq_sound, str_eq_refl, Bool-cases, Option-cases,
}
use recallpack.Memory.{ObserveRequest}
use recallpack.Store.Rows.{Event, Cursor, Store, Draw}
use recallpack.Store.Query.{
  in_session, is_blocking, is_cursor_of, cursor_for, has_blocking_event, next_project_event_seq,
  rowcount,
}
use recallpack.Store.Runs.{insert_running_run}
use recallpack.Store.Claim.{new_event, insert_event, claim_new, admit_new}
use recallpack.Store.Session.{
  SessionStep, opens, expected_in, session_of, session-open, blocks_session, IsClean, InOrder,
  stays-count, cursor_for-expected, cursor_for-InOrder,
}
use recallpack.Store.Advance.{Moved, Ordered, Moved-refl}
use recallpack.Store.Entering.{insert_running_run-tables}

cursor_for-own :
    (a b : String) (cursors : List Cursor)
    → is_some (find (is_cursor_of a b) (cursor_for cursors a b).1) ≡ true
unfolding cursor_for find
cursor_for-own a b cursors = elim (Option-cases (find (is_cursor_of a b) cursors)) [
  | inr (c, there) ↦ rw there (rw there refl)
  | inl missing ↦ rw (missing, str_eq_refl a, str_eq_refl b) refl
]

cursor_for-next :
    (a b : String) (cursors : List Cursor) → (cursor_for cursors a b).0 ≡ expected_in a b cursors
unfolding cursor_for
cursor_for-next a b cursors = refl

-- A new row at the head of the table: pending, with the number that its session expects.
module _ (p q : String) (e : Event) (events : List Event) (cursors : List Cursor)
    (blocking : is_blocking e ≡ true) (quiet : IsClean e)
    (number : e.sequence_no ≡ expected_in e.project_id e.session_id cursors)
    (alone : rowcount (blocks_session e.project_id e.session_id) events ≡ 0)
    (tracked : is_some (find (is_cursor_of e.project_id e.session_id) cursors) ≡ true)
    (k : InOrder p q events cursors) where
  here : in_session p q e ≡ true → (e.project_id ≡ p) × (e.session_id ≡ q)
  here h = (str_eq_sound e.project_id p (ground arith), str_eq_sound e.session_id q (ground arith))

  none_before : in_session p q e ≡ true → rowcount (blocks_session p q) events ≡ 0
  none_before h =
      let (a, b) = here h in
      subst (λ x. rowcount (blocks_session x q) events ≡ 0) a
        (subst (λ y. rowcount (blocks_session e.project_id y) events ≡ 0) b alone)

  number_here : in_session p q e ≡ true → e.sequence_no ≡ expected_in p q cursors
  number_here h =
      let (a, b) = here h in
      number ∙ ap (λ x. expected_in x e.session_id cursors) a ∙ ap (λ y. expected_in p y cursors) b

  tracked_here : in_session p q e ≡ true → is_some (find (is_cursor_of p q) cursors) ≡ true
  tracked_here h =
      let (a, b) = here h in
      subst (λ x. is_some (find (is_cursor_of x q) cursors) ≡ true) a
        (subst (λ y. is_some (find (is_cursor_of e.project_id y) cursors) ≡ true) b tracked)

  count_here : in_session p q e ≡ true → rowcount (blocks_session p q) (e ∷ events) ≡ 1
  unfolding rowcount
  count_here h = let zero_before = none_before h in rw (h, blocking, zero_before) refl

  count_away :
      in_session p q e ≡ false
      → rowcount (blocks_session p q) (e ∷ events) ≡ rowcount (blocks_session p q) events
  unfolding rowcount
  count_away h = rw h (omega arith)

  new-InOrder : InOrder p q (e ∷ events) cursors
  new-InOrder = record {
    one = elim (Bool-cases (in_session p q e)) [
      | inl h ↦ omega (arith, count_here h)
      | inr h ↦ omega (arith, count_away h, k.one)
    ];
    numbers = (λ b. number_here (ground arith), k.numbers);
    clean = (quiet, k.clean);
    tracked = (tracked_here, k.tracked);
  }

  new-SessionStep :
      (s s' : Store)
      → s.events ≡ events
      → s'.events ≡ e ∷ events
      → expected_in p q s'.cursors ≡ expected_in p q s.cursors
      → SessionStep (session_of p q s) (session_of p q s')
  new-SessionStep s s' a b c = elim (Bool-cases (in_session p q e)) [
    | inr h ↦ stays-count p q s s' (rw (b, a) (count_away h)) c
    | inl h ↦
        let before : rowcount (blocks_session p q) s.events ≡ 0 = rw a (none_before h) in
        let after : rowcount (blocks_session p q) s'.events ≡ 1 = rw b (count_here h) in
        opens (rw (session-open p q s, before) refl) (rw (session-open p q s', after) refl) c
  ]

new_event-row :
    (request : ObserveRequest) (at hash : String) (seq expires : ℕ) (draw : Draw)
    → (is_blocking (new_event request at hash seq expires draw) ≡ true)
      × IsClean (new_event request at hash seq expires draw)
unfolding new_event is_blocking
new_event-row request at hash seq expires draw = (refl, λ h. refl)

pub insert_event-tables :
    (s s' : Store) (e : Event)
    → insert_event s e ≡ some s'
    → (s'.events ≡ e ∷ s.events) × (s'.cursors ≡ s.cursors)
unfolding insert_event
insert_event-tables s s' e h = (ground arith, ground arith)

module _ (p q : String) (request : ObserveRequest) (at hash : String) (now : ℕ) (mode : String)
    (draw : Draw) where
  abbrev a : String
  a = request.project_id

  abbrev b : String
  b = request.session_id

  new-Moved :
      (before s s' : Store) (seq expires : ℕ)
      → s.events ≡ before.events
      → s.cursors ≡ (cursor_for before.cursors a b).1
      → s'.events ≡ new_event request at hash seq expires draw ∷ s.events
      → s'.cursors ≡ s.cursors
      → has_blocking_event before a b ≡ false
      → request.sequence_no ≡ expected_in a b before.cursors
      → Ordered p q before
      → Moved p q before s'
  unfolding new_event
  new-Moved before s s' seq expires events cursors events' cursors' clear number k =
      let e = new_event request at hash seq expires draw in
      let row = new_event-row request at hash seq expires draw in
      let made = (cursor_for before.cursors a b).1 in
      let none_open : rowcount (blocks_session a b) before.events ≡ 0 =
        let busy = session-open a b before in ground (arith, clear, busy) in
      let expected : request.sequence_no ≡ expected_in a b made =
        number ∙ sym (cursor_for-expected a b a b before.cursors) in
      let own = cursor_for-own a b before.cursors in
      let old = cursor_for-InOrder p q a b before.events before.cursors k in
      let order = new-InOrder p q e before.events made row.0 row.1 expected none_open own old in
      let step =
        new-SessionStep p q e before.events made row.0 row.1 expected none_open own old before s'
          refl (events' ∙ ap (λ es. e ∷ es) events)
          (ap (expected_in p q) (cursors' ∙ cursors)
            ∙ cursor_for-expected p q a b before.cursors) in
      record {
        order =
            subst (λ es. InOrder p q es s'.cursors) (sym (events' ∙ ap (λ es. e ∷ es) events))
              (subst (λ cs. InOrder p q (e ∷ before.events) cs) (sym (cursors' ∙ cursors)) order);
        step = step;
      }

  claim_new-Moved :
      (before s : Store)
      → s.events ≡ before.events
      → s.cursors ≡ (cursor_for before.cursors a b).1
      → has_blocking_event before a b ≡ false
      → request.sequence_no ≡ expected_in a b before.cursors
      → Ordered p q before
      → Moved p q before (claim_new before s request at hash now mode draw).1
  unfolding claim_new
  claim_new-Moved before s events cursors clear number k =
      let seq = next_project_event_seq s request.project_id in
      let e = new_event request at hash seq (now + s.lease_seconds) draw in
      elim (Option-cases (insert_event s e)) [
        | inl clash ↦ rw (clash, claim_new) (Moved-refl p q before k)
        | inr (s₁, added) ↦
            elim (Option-cases
              (insert_running_run s₁ draw.run_id draw.event_id 1 mode draw.utc_now)) [
                | inl refused ↦ rw (added, refused, claim_new) (Moved-refl p q before k)
                | inr (s₂, ran) ↦
                    let t = insert_event-tables s s₁ e added in
                    let u =
                      insert_running_run-tables s₁ s₂ draw.run_id draw.event_id 1 mode draw.utc_now
                        ran in
                    rw (added, ran, claim_new)
                      (new-Moved before s s₂ seq (now + s.lease_seconds) events cursors (u.0 ∙ t.0)
                        (u.1 ∙ t.1) clear number k)
              ]
      ]

  -- Only the cursor is made.
  rejected-Moved :
      (s : Store)
      → Ordered p q s
      → Moved p q s (record s { cursors = (cursor_for s.cursors a b).1 })
  rejected-Moved s k = record {
    order = cursor_for-InOrder p q a b s.events s.cursors k;
    step =
        stays-count p q s (record s { cursors = (cursor_for s.cursors a b).1 }) refl
          (cursor_for-expected p q a b s.cursors);
  }

  pub admit_new-Moved :
      (s : Store) → Ordered p q s → Moved p q s (admit_new s request at hash now mode draw).1
  unfolding admit_new
  admit_new-Moved s k =
      let s' = record s { cursors = (cursor_for s.cursors a b).1 } in
      let expected = (cursor_for s.cursors a b).0 in
      let stay = rejected-Moved s k in
      elim (Bool-cases (ltb request.sequence_no expected)) [
        | inl early ↦ rw (early, admit_new) stay
        | inr late ↦ elim (Bool-cases (has_blocking_event s a b)) [
          | inl busy ↦ rw (late, busy, admit_new) stay
          | inr clear ↦ elim (Bool-cases (ltb expected request.sequence_no)) [
            | inl ahead ↦ rw (late, clear, ahead, admit_new) stay
            | inr due ↦
                let number : request.sequence_no ≡ expected = ground arith in
                rw (late, clear, due, admit_new)
                  (claim_new-Moved s s' refl refl clear (number ∙ cursor_for-next a b s.cursors) k)
          ]
        ]
      ]
