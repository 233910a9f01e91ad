-- ===== src/Store/Closing.antt =====
-- An event of a session of src/recallpack/storage.py that is done with closes the session.
use recallpack.Base.{
  ℕ, ◌+◌, String, Bool, true, false, ◌&&◌, some, List, ◌≡◌, refl, sym, ap, ◌∙◌, subst, inl, inr,
  arith, find, All, All-imp, is_some, str_eq, str_eq_sound, str_eq_refl, Bool-cases, Option-cases,
}
use recallpack.Store.Rows.{Event, Cursor, Store}
use recallpack.Store.Query.{in_session, is_blocking, is_cursor_of, update_where, rowcount}
use recallpack.Store.Complete.{advance_to, advance_cursor}
use recallpack.Store.Tables.{changed, map_option, find-update_where, find_sound, rowcount-zero}
use recallpack.Store.Updates.{rowcount-same, rowcount-ended, All-update, none_counted, All-find}
use recallpack.Store.Session.{
  SessionStep, closes, expected_in, session_of, blocks_session, IsClean, InOrder, session-open,
  stays-count,
}

module _ (p q : String) (event : Event) (cursors : List Cursor) where
  abbrev ahead : ℕ
  ahead = event.sequence_no + 1

  advanced-find :
      find (is_cursor_of p q) (advance_cursor event cursors)
      ≡ map_option
          (changed (is_cursor_of event.project_id event.session_id) (advance_to ahead))
          (find (is_cursor_of p q) cursors)
  unfolding advance_cursor
  advanced-find =
      find-update_where (is_cursor_of p q) (is_cursor_of event.project_id event.session_id)
        (advance_to ahead) cursors (λ c. refl)

  advanced-tracked :
      is_some (find (is_cursor_of p q) cursors) ≡ true
      → is_some (find (is_cursor_of p q) (advance_cursor event cursors)) ≡ true
  advanced-tracked h = elim (Option-cases (find (is_cursor_of p q) cursors)) [
    | inl missing ↦ absurd (ground arith)
    | inr (c, there) ↦ rw (advanced-find, there) refl
  ]

  advanced_other :
      in_session p q event ≡ false
      → expected_in p q (advance_cursor event cursors) ≡ expected_in p q cursors
  advanced_other away = elim (Option-cases (find (is_cursor_of p q) cursors)) [
    | inl missing ↦ rw (advanced-find, missing) refl
    | inr (c, there) ↦
        let mine = find_sound (is_cursor_of p q) cursors c there in
        let ep = str_eq_sound c.project_id p (ground arith) in
        let eq = str_eq_sound c.session_id q (ground arith) in
        let apart : is_cursor_of event.project_id event.session_id c ≡ false =
          elim (Bool-cases (is_cursor_of event.project_id event.session_id c)) [
            | inr no_match ↦ no_match
            | inl match_ ↦
                let fp = str_eq_sound c.project_id event.project_id (ground arith) in
                let fq = str_eq_sound c.session_id event.session_id (ground arith) in
                let gp : event.project_id ≡ p = sym fp ∙ ep in
                let gq : event.session_id ≡ q = sym fq ∙ eq in
                let both : in_session p q event ≡ true =
                  ap (λ x. str_eq x p && str_eq event.session_id q) gp
                  ∙ ap (λ y. str_eq p p && str_eq y q) gq
                  ∙ ap (λ b. b && str_eq q q) (str_eq_refl p)
                  ∙ str_eq_refl q in
                absurd (ground (arith, both))
          ] in
        rw (advanced-find, there, apart) refl
  ]

  advanced_mine :
      in_session p q event ≡ true
      → is_some (find (is_cursor_of p q) cursors) ≡ true
      → expected_in p q (advance_cursor event cursors) ≡ ahead
  advanced_mine here h = elim (Option-cases (find (is_cursor_of p q) cursors)) [
    | inl missing ↦ absurd (ground arith)
    | inr (c, there) ↦
        let mine = find_sound (is_cursor_of p q) cursors c there in
        let gp = str_eq_sound event.project_id p (ground arith) in
        let gq = str_eq_sound event.session_id q (ground arith) in
        let both : is_cursor_of event.project_id event.session_id c ≡ true =
          subst (λ x. is_cursor_of x event.session_id c ≡ true) (sym gp)
            (subst (λ y. is_cursor_of p y c ≡ true) (sym gq) mine) in
        rw (advanced-find, there, both) refl
  ]

module _ (p q : String) (event : Event) (events : List Event) (cursors : List Cursor)
    (fits : Event → Bool) (f : Event → Event) (select : Event → Bool)
    (there : find select events ≡ some event) (only : All (λ e. fits e ≡ true → e ≡ event) events)
    (one : rowcount fits events ≡ 1) (open_event : is_blocking event ≡ true)
    (project : (f event).project_id ≡ event.project_id)
    (session : (f event).session_id ≡ event.session_id) (closed : is_blocking (f event) ≡ false)
    (clean : IsClean (f event)) (k : InOrder p q events cursors) where
  same_session : in_session p q (f event) ≡ in_session p q event
  same_session = rw (project, session) refl

  blocked_after : blocks_session p q (f event) ≡ false
  blocked_after = ground (arith, closed)

  f-blocks : (e : Event) → e ≡ event → blocks_session p q (f e) ≡ false
  f-blocks e same = subst (λ x. blocks_session p q (f x) ≡ false) (sym same) blocked_after

  ended_mine :
      in_session p q event ≡ true
      → rowcount (blocks_session p q) (update_where fits f events) + 1
        ≡ rowcount (blocks_session p q) events
  ended_mine here =
      let before : blocks_session p q event ≡ true = ground (arith, open_event) in
      let counted = rowcount-ended fits f (blocks_session p q) events (
        All-imp events
          (λ e same hit. (
            subst (λ x. blocks_session p q x ≡ true) (sym (same hit)) before,
            f-blocks e (same hit),
          ))
          only) in
      omega (arith, counted, one)

  ended_other :
      in_session p q event ≡ false
      → rowcount (blocks_session p q) (update_where fits f events)
        ≡ rowcount (blocks_session p q) events
  ended_other away =
      let before : blocks_session p q event ≡ false = ground arith in
      rowcount-same fits f (blocks_session p q) events (
        All-imp events
          (λ e same hit.
            f-blocks e (same hit)
            ∙ sym (subst (λ x. blocks_session p q x ≡ false) (sym (same hit)) before))
          only)

  IsClean-after : All IsClean (update_where fits f events)
  IsClean-after =
      All-update fits f IsClean events k.clean
        (All-imp events (λ e same hit c. subst (λ x. IsClean (f x)) (sym (same hit)) clean) only)

  tracked_after :
      All
        (λ e.
          in_session p q e ≡ true
          → is_some (find (is_cursor_of p q) (advance_cursor event cursors)) ≡ true)
        (update_where fits f events)
  tracked_after =
      All-update fits f _ events
        (All-imp events (λ e t h. advanced-tracked p q event cursors (t h)) k.tracked)
        (All-imp events
          (λ e same hit t h. t (
            subst (λ x. in_session p q x ≡ true) (sym (same hit))
              (sym same_session ∙ subst (λ x. in_session p q (f x) ≡ true) (same hit) h)))
          only)

  numbers_mine :
      in_session p q event ≡ true
      → (n : ℕ)
      → All (λ e. blocks_session p q e ≡ true → e.sequence_no ≡ n) (update_where fits f events)
  numbers_mine here n =
      let counted = ended_mine here in
      none_counted (blocks_session p q) (λ e. e.sequence_no ≡ n) (update_where fits f events)
        (rowcount-zero (blocks_session p q) (update_where fits f events)
          (omega (arith, counted, k.one)))

  numbers_other :
      in_session p q event ≡ false
      → All
          (λ e.
            blocks_session p q e ≡ true
            → e.sequence_no ≡ expected_in p q (advance_cursor event cursors))
          (update_where fits f events)
  numbers_other away =
      All-update fits f _ events
        (All-imp events (λ e n h. n h ∙ sym (advanced_other p q event cursors away)) k.numbers)
        (All-imp events (λ e same hit n h. absurd (ground (arith, f-blocks e (same hit)))) only)

  pub close-InOrder : InOrder p q (update_where fits f events) (advance_cursor event cursors)
  close-InOrder = elim (Bool-cases (in_session p q event)) [
    | inl here ↦ record {
      one = omega (arith, ended_mine here, k.one);
      numbers = numbers_mine here (expected_in p q (advance_cursor event cursors));
      clean = IsClean-after;
      tracked = tracked_after;
    }
    | inr away ↦ record {
      one = omega (arith, ended_other away, k.one);
      numbers = numbers_other away;
      clean = IsClean-after;
      tracked = tracked_after;
    }
  ]

  pub close-SessionStep :
      (s s' : Store)
      → s.events ≡ events
      → s.cursors ≡ cursors
      → s'.events ≡ update_where fits f events
      → s'.cursors ≡ advance_cursor event cursors
      → SessionStep (session_of p q s) (session_of p q s')
  close-SessionStep s s' e c e' c' = elim (Bool-cases (in_session p q event)) [
    | inr away ↦
        stays-count p q s s' (rw (e', e) (ended_other away))
          (rw (c', c) (advanced_other p q event cursors away))
    | inl here ↦
        let counted = ended_mine here in
        let few = k.one in
        let before : rowcount (blocks_session p q) s.events ≡ 1 =
          rw e (omega (arith, counted, few)) in
        let after : rowcount (blocks_session p q) s'.events ≡ 0 =
          rw e' (omega (arith, counted, few)) in
        let number = All-find _ select events event k.numbers there (ground (arith, open_event)) in
        let cursor = All-find _ select events event k.tracked there here in
        closes (rw (session-open p q s, before) refl) (rw (session-open p q s', after) refl)
          (rw (c', c) (advanced_mine p q event cursors here cursor ∙ ap (λ n. n + 1) number))
  ]
