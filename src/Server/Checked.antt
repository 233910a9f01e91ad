-- ===== src/Server/Checked.antt =====
-- A request that src/recallpack/demo_server.py lets through makes a row that the audit of
-- src/recallpack/storage.py accepts.
use recallpack.Base.{
  ℕ, String, Bool, true, some, [], ◌∷◌, ◌≡◌, refl, subst, inl, inr, arith, length, leb, str_eq,
  str_eq_sound, str_eq_refl, ok, >>=-eq-ok, Bool-cases, Option-cases, Result-cases,
}
use recallpack.Json.{Json, Fields, keys_are, member}
use recallpack.Library.{Library}
use recallpack.Match.{codes}
use recallpack.Memory.{ObserveRequest}
use recallpack.Store.Rows.{Store, Draw}
use recallpack.Store.Query.{next_project_event_seq}
use recallpack.Store.Answer.{payload_hash}
use recallpack.Store.Claim.{new_event}
use recallpack.Store.RowChecks.{
  is_nonempty_text, valid_internal_id, valid_sha256, valid_utc_timestamp, event_row_payload_hash,
  valid_v4_event_state,
}
use recallpack.Store.RowsValid.{new_event-IsRow}
use recallpack.Server.Request.{
  request_keys, positive_at, valid_texts, texts_of_payload, checked_request,
  observe_request_from_payload,
}

no_codes : length (codes "") ≡ 0
no_codes = refl

long-nonempty : (s : String) → leb 1 (length (codes s)) ≡ true → is_nonempty_text s ≡ true
long-nonempty s h = elim (Bool-cases (str_eq s "")) [
  | inr filled ↦ rw filled refl
  | inl empty ↦
      let bad = subst (λ t. leb 1 (length (codes t)) ≡ true) (str_eq_sound s "" empty) h in
      absurd (ground (arith, bad, no_codes))
]

-- What a request that was let through has passed.
record IsChecked (r : ObserveRequest) : Type 0 where
  texts : valid_texts r ≡ true
  number : leb 1 r.sequence_no ≡ true

positive_at-leb :
    (key : String) (payload : Fields) (n : ℕ) → positive_at key payload ≡ ok n → leb 1 n ≡ true
positive_at-leb key payload n h = ground arith

checked_request-IsChecked :
    (lib : Library) (payload : Fields) (r request : ObserveRequest)
    → checked_request lib payload r ≡ ok request
    → IsChecked request
unfolding checked_request valid_texts
checked_request-IsChecked lib payload r request h = elim (Bool-cases (valid_texts r)) [
  | inr bad ↦ absurd (ground arith)
  | inl good ↦ elim (Result-cases (positive_at "sequence_no" payload)) [
    | inr (e, wrong) ↦ absurd (ground arith)
    | inl (n, number) ↦ elim (Option-cases (lib.canonical_utc_timestamp r.observed_at)) [
      | inl unread ↦ absurd (ground arith)
      | inr (at, canonical) ↦
          let same : record r { sequence_no = n; observed_at = at } ≡ request = ground arith in
          subst IsChecked same
            (record { texts = good; number = positive_at-leb "sequence_no" payload n number })
    ]
  ]
]

observe_request-IsChecked :
    (lib : Library) (payload : Fields) (request : ObserveRequest)
    → observe_request_from_payload lib payload ≡ ok request
    → IsChecked request
unfolding observe_request_from_payload
observe_request-IsChecked lib payload request h =
    elim (Bool-cases (keys_are request_keys payload)) [
      | inr bad ↦ absurd (ground arith)
      | inl good ↦
          let (r, read, checked) =
            >>=-eq-ok (texts_of_payload payload) (checked_request lib payload) (ground arith) in
          checked_request-IsChecked lib payload r request checked
    ]

hash_of_row :
    (lib : Library) (request : ObserveRequest) (at : String) (seq expires : ℕ) (draw : Draw)
    → event_row_payload_hash lib
        (new_event request at (payload_hash lib request at) seq expires draw)
      ≡ payload_hash lib request at
unfolding event_row_payload_hash new_event payload_hash
hash_of_row lib request at seq expires draw = refl

payload_hash-valid_sha256 :
    (lib : Library) (request : ObserveRequest) (at : String)
    → ((j : Json) → valid_sha256 (lib.sha256_of_json j) ≡ true)
    → valid_sha256 (payload_hash lib request at) ≡ true
unfolding payload_hash
payload_hash-valid_sha256 lib request at sha = sha _

next_seq-positive : (s : Store) (p : String) → leb 1 (next_project_event_seq s p) ≡ true
unfolding next_project_event_seq
next_seq-positive s p = ground arith

IsChecked-nonempty :
    (r : ObserveRequest)
    → IsChecked r
    → (is_nonempty_text r.project_id ≡ true)
      × (is_nonempty_text r.session_id ≡ true)
      × (is_nonempty_text r.event_id ≡ true)
unfolding valid_texts
IsChecked-nonempty r c =
    let t = c.texts in
    (
      long-nonempty r.project_id (ground arith),
      long-nonempty r.session_id (ground arith),
      long-nonempty r.event_id (ground arith),
    )

IsChecked-row :
    (r : ObserveRequest)
    → IsChecked r
    → (member r.actor ("user" ∷ "assistant" ∷ "tool" ∷ []) ≡ true)
      × (member r.kind ("message" ∷ "test_result" ∷ "command_result" ∷ []) ≡ true)
      × (leb 1 (length (codes r.text)) ≡ true)
      × (leb (length (codes r.text)) 20000 ≡ true)
unfolding valid_texts
IsChecked-row r c = let t = c.texts in (ground arith, ground arith, ground arith, ground arith)

-- A payload that the server lets through makes a new event, as a claim inserts it, that passes the check of its
-- row. The hash function gives 64 hexadecimal digits, the canonical form of a timestamp is a time in UTC,
-- the identifier drawn has its prefix, and the lease token is not empty.
pub observe_request-valid_v4_event_state :
    (lib : Library) (reads_utc : String → Bool) (payload : Fields) (request : ObserveRequest)
    (s : Store) (at : String) (expires : ℕ) (draw : Draw)
    → ((j : Json) → valid_sha256 (lib.sha256_of_json j) ≡ true)
    → ((t u : String)
        → lib.canonical_utc_timestamp t ≡ some u
        → valid_utc_timestamp reads_utc u ≡ true)
    → valid_internal_id draw.event_id "evt_" ≡ true
    → is_nonempty_text draw.lease_token ≡ true
    → observe_request_from_payload lib payload ≡ ok request
    → lib.canonical_utc_timestamp request.observed_at ≡ some at
    → valid_v4_event_state lib reads_utc (
        new_event request at
          (payload_hash lib request at)
          (next_project_event_seq s request.project_id)
          expires
          draw)
      ≡ true
unfolding valid_v4_event_state new_event
observe_request-valid_v4_event_state lib reads_utc payload request s at expires draw sha utc id
      token accepted canonical =
    let c = observe_request-IsChecked lib payload request accepted in
    let hash = payload_hash lib request at in
    let seq = next_project_event_seq s request.project_id in
    let filled = IsChecked-nonempty request c in
    let row = IsChecked-row request c in
    let same : str_eq hash (event_row_payload_hash lib (new_event request at hash seq expires draw))
        ≡ true =
      rw (hash_of_row lib request at seq expires draw) (str_eq_refl hash) in
    rw
      (
        id,
        filled.0,
        filled.1,
        filled.2,
        row.0,
        row.1,
        utc request.observed_at at canonical,
        row.2,
        row.3,
        payload_hash-valid_sha256 lib request at sha,
        same,
        c.number,
        next_seq-positive s request.project_id,
      )
      (new_event-IsRow request at hash seq expires draw token)
