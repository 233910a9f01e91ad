-- ===== src/Store/RowsValid.antt =====
-- The columns that go with the state of an event of src/recallpack/storage.py stay valid.
use recallpack.Base.{
  ℕ, String, Bool, true, false, some, List, ◌≡◌, refl, subst, inl, inr, arith, All, All-imp, str_eq,
  str_eq_sound, Bool-cases,
}
use recallpack.Json.{obj, Fields}
use recallpack.Memory.{ObserveRequest}
use recallpack.Store.Rows.{Event, Store, Draw}
use recallpack.Store.Query.{update_where, is_owned}
use recallpack.Store.Results.{valid_v4_final_result}
use recallpack.Store.Lease.{is_as_read, taken_over}
use recallpack.Store.Claim.{new_event}
use recallpack.Store.Complete.{completed_row}
use recallpack.Store.Fail.{valid_failure_code, failure_code_of, failed_row}
use recallpack.Store.Updates.{All-update}
use recallpack.Store.RowChecks.{is_nonempty_text, valid_state_columns}

abbrev pub IsRow : Event → Type 0
IsRow e = valid_state_columns e ≡ true

abbrev pub RowsHold : Store → Type 0
RowsHold s = All IsRow s.events

-- An UPDATE that makes valid rows of the valid rows that fit.
pub update-IsRow :
    (fits : Event → Bool) (f : Event → Event) (events : List Event)
    → ((e : Event) → fits e ≡ true → IsRow e → IsRow (f e))
    → All IsRow events
    → All IsRow (update_where fits f events)
update-IsRow fits f events step rows =
    All-update fits f IsRow events rows (All-imp events (λ e r hit k. step e hit k) rows)

pub completed_row-IsRow :
    (i l : String) (n : ℕ) (result : Fields) (e : Event)
    → valid_v4_final_result (some (obj result)) ≡ true
    → is_owned i l n e ≡ true
    → IsRow e
    → IsRow (completed_row result e)
unfolding valid_state_columns completed_row is_owned
completed_row-IsRow i l n result e valid own row = ground (arith, valid)

no_empty_code : valid_failure_code "" ≡ false
unfolding valid_failure_code
no_empty_code = refl

default_code-nonempty : is_nonempty_text "provider_network_error" ≡ true
unfolding str_eq
default_code-nonempty = refl

failure_code-nonempty : (error : String) → is_nonempty_text (failure_code_of error) ≡ true
unfolding failure_code_of
failure_code-nonempty error = elim (Bool-cases (valid_failure_code error)) [
  | inr other ↦ rw other default_code-nonempty
  | inl valid ↦ elim (Bool-cases (str_eq error "")) [
    | inr filled ↦ rw (valid, filled) refl
    | inl empty ↦
        let bad = subst (λ c. valid_failure_code c ≡ true) (str_eq_sound error "" empty) valid in
        absurd (ground (arith, bad, no_empty_code))
  ]
]

pub failed_row-IsRow :
    (i l : String) (n : ℕ) (error : String) (e : Event)
    → is_owned i l n e ≡ true
    → IsRow e
    → IsRow (failed_row (failure_code_of error) e)
unfolding valid_state_columns failed_row is_owned
failed_row-IsRow i l n error e own row =
    let filled = failure_code-nonempty error in ground (arith, filled)

pub taken_over-IsRow :
    (existing : Event) (n : ℕ) (token : String) (expires : ℕ) (e : Event)
    → is_nonempty_text token ≡ true
    → is_as_read existing e ≡ true
    → IsRow e
    → IsRow (taken_over n token expires e)
unfolding valid_state_columns taken_over is_as_read
taken_over-IsRow existing n token expires e filled read row = ground (arith, filled)

pub new_event-IsRow :
    (request : ObserveRequest) (at hash : String) (seq expires : ℕ) (draw : Draw)
    → is_nonempty_text draw.lease_token ≡ true
    → IsRow (new_event request at hash seq expires draw)
unfolding valid_state_columns new_event
new_event-IsRow request at hash seq expires draw filled = ground (arith, filled)
