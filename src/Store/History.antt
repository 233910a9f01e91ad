-- ===== src/Store/History.antt =====
-- The runs of an event of src/recallpack/storage.py, newest first as they are inserted, and why they pass
-- the audit.
use recallpack.Base.{
  subst, ◌∙◌, sym, ℕ, ◌+◌, ◌-◌, ◌<◌, ◌≤◌, Bool, true, false, not, ◌&&◌, some, List, [], ◌∷◌, ◌++◌,
  ◌≡◌, refl, ap, arith, length, find, any, ◌==◌, All, length-append,
}
use recallpack.Store.Rows.{Event, RunState, Run}
use recallpack.Store.Query.{is_running}
use recallpack.Store.Audit.{
  insert_run, order_runs, same_run_state, expected_current_run_state, numbers_from, is_ended,
  without_last, consistent_runs,
}

-- The runs of the attempts n, n - 1, …, 1, each ended without a result.
unfoldable pub ended : ℕ → List Run → Bool
ended n [] = n == 0
ended n (r ∷ rs) = r.attempt_no == n && not (n == 0) && is_ended r.state && ended (n - 1) rs

-- The run of the current attempt, in the state that its event asks for, before those that ended.
unfoldable pub has_history : Event → List Run → Bool
has_history e [] = false
has_history e (r ∷ rs) =
    r.attempt_no == e.attempt_count
    && not (e.attempt_count == 0)
    && same_run_state r.state (expected_current_run_state e)
    && ended (e.attempt_count - 1) rs

abbrev pub IsBelow : ℕ → List Run → Type 0
IsBelow n rs = All (λ r. r.attempt_no < n) rs

insert_run-last :
    (r : Run) (rs : List Run) → IsBelow r.attempt_no rs → insert_run r rs ≡ rs ++ (r ∷ [])
unfolding insert_run
insert_run-last r [] h = refl
insert_run-last r (x ∷ xs) h = ground (arith, insert_run-last r xs h.1)

numbers_from-append :
    (first : ℕ) (rs : List Run) (r : Run)
    → numbers_from first rs ≡ true
    → r.attempt_no ≡ first + length rs
    → numbers_from first (rs ++ (r ∷ [])) ≡ true
unfolding numbers_from
numbers_from-append first [] r h e = ground arith
numbers_from-append first (x ∷ xs) r h e = ground (arith, numbers_from-append (first + 1) xs r)

IsBelow-append :
    (n : ℕ) (rs : List Run) (r : Run) → IsBelow n rs → r.attempt_no < n → IsBelow n (rs ++ (r ∷ []))
IsBelow-append n [] r h e = (e, tt)
IsBelow-append n (x ∷ xs) r h e = (h.0, IsBelow-append n xs r h.1 e)

IsBelow-weaken : (m n : ℕ) (rs : List Run) → m ≤ n → IsBelow m rs → IsBelow n rs
IsBelow-weaken m n [] h b = tt
IsBelow-weaken m n (x ∷ xs) h b = (omega (arith, b.0), IsBelow-weaken m n xs h b.1)

-- No run of the list still runs, and all of them ended.
abbrev pub IsPast : List Run → Type 0
IsPast rs = All (λ r. is_ended r.state ≡ true) rs

IsPast-append :
    (rs : List Run) (r : Run) → IsPast rs → is_ended r.state ≡ true → IsPast (rs ++ (r ∷ []))
IsPast-append [] r h e = (e, tt)
IsPast-append (x ∷ xs) r h e = (h.0, IsPast-append xs r h.1 e)

-- The ended runs, in order.
record IsOrdered (n : ℕ) (rs : List Run) : Type 0 where
  numbers : numbers_from 1 rs ≡ true
  count : length rs ≡ n
  below : IsBelow (n + 1) rs
  past : IsPast rs

ended-IsOrdered : (n : ℕ) (rs : List Run) → ended n rs ≡ true → IsOrdered n (order_runs rs)
unfolding ended order_runs numbers_from
ended-IsOrdered n [] h = record { numbers = refl; count = ground arith; below = tt; past = tt }
ended-IsOrdered n (r ∷ rs) h =
    let o = ended-IsOrdered (n - 1) rs (ground arith) in
    let number : r.attempt_no ≡ n = ground arith in
    let positive : 0 < n = ground arith in
    let past : is_ended r.state ≡ true = ground arith in
    let last = insert_run-last r (order_runs rs) (
      IsBelow-weaken (n - 1 + 1) r.attempt_no (order_runs rs) (omega (arith, number, positive))
        o.below) in
    rw last (record {
      numbers =
          numbers_from-append 1 (order_runs rs) r o.numbers
            (omega (arith, number, positive, o.count));
      count = omega (arith, length-append (order_runs rs) (r ∷ []), o.count, positive);
      below =
          IsBelow-append (n + 1) (order_runs rs) r
            (IsBelow-weaken (n - 1 + 1) (n + 1) (order_runs rs) (omega arith) o.below)
            (omega (arith, number));
      past = IsPast-append (order_runs rs) r o.past past;
    })

without_last-append : (rs : List Run) (r : Run) → without_last (rs ++ (r ∷ [])) ≡ rs
unfolding without_last
without_last-append [] r = refl
without_last-append (x ∷ []) r = refl
without_last-append (x ∷ y ∷ ys) r = ap (λ zs. x ∷ zs) (without_last-append (y ∷ ys) r)

find-last :
    (n : ℕ) (rs : List Run) (r : Run)
    → IsBelow n rs
    → r.attempt_no ≡ n
    → find (λ x. x.attempt_no == n) (rs ++ (r ∷ [])) ≡ some r
unfolding find
find-last n [] r h e = ground arith
find-last n (x ∷ xs) r h e = ground (arith, find-last n xs r h.1 e, h.0)

none_running :
    (n : ℕ) (rs : List Run) (r : Run)
    → IsPast rs
    → r.attempt_no ≡ n
    → any (λ x. is_running x.state && not (x.attempt_no == n)) (rs ++ (r ∷ [])) ≡ false
unfolding any
none_running n [] r h e = ground arith
none_running n (x ∷ xs) r h e = ground (arith, none_running n xs r h.1 e, h.0)

none_open : (rs : List Run) → IsPast rs → any (λ r. not (is_ended r.state)) rs ≡ false
unfolding any
none_open [] h = refl
none_open (x ∷ xs) h = ground (arith, none_open xs h.1, h.0)

consistent_runs-append :
    (e : Event) (rs : List Run) (r : Run)
    → IsOrdered (e.attempt_count - 1) rs
    → 0 < e.attempt_count
    → r.attempt_no ≡ e.attempt_count
    → same_run_state r.state (expected_current_run_state e) ≡ true
    → consistent_runs e (rs ++ (r ∷ [])) ≡ true
unfolding consistent_runs
consistent_runs-append e rs r o positive number state =
    let n = e.attempt_count in
    let below = IsBelow-weaken (n - 1 + 1) n rs (omega (arith, positive)) o.below in
    let numbers = numbers_from-append 1 rs r o.numbers (omega (arith, number, positive, o.count)) in
    let long : (length (rs ++ (r ∷ [])) == n) ≡ true =
      ground (arith, length-append rs (r ∷ []), o.count, positive) in
    rw
      (
        numbers,
        long,
        find-last n rs r below number,
        none_running n rs r o.past number,
        without_last-append rs r,
        none_open rs o.past,
      )
      state

-- A history passes the audit.
pub has_history-consistent_runs :
    (e : Event) (rs : List Run) → has_history e rs ≡ true → consistent_runs e (order_runs rs) ≡ true
unfolding has_history order_runs
has_history-consistent_runs e [] h = absurd (ground arith)
has_history-consistent_runs e (r ∷ rs) h =
    let n = e.attempt_count in
    let o = ended-IsOrdered (n - 1) rs (ground arith) in
    let number : r.attempt_no ≡ n = ground arith in
    let positive : 0 < n = ground arith in
    let state : same_run_state r.state (expected_current_run_state e) ≡ true = ground arith in
    let below =
      IsBelow-weaken (n - 1 + 1) r.attempt_no (order_runs rs) (omega (arith, number, positive))
        o.below in
    rw (insert_run-last r (order_runs rs) below)
      (consistent_runs-append e (order_runs rs) r o positive number state)

-- A history whose current run is in another state than its event asks for does not pass.
pub mismatch-consistent_runs :
    (e e' : Event) (rs : List Run) (state : RunState)
    → has_history e rs ≡ true
    → e'.attempt_count ≡ e.attempt_count
    → expected_current_run_state e ≡ state
    → ((r : RunState)
        → same_run_state r state ≡ true
        → same_run_state r (expected_current_run_state e') ≡ false)
    → consistent_runs e' (order_runs rs) ≡ false
unfolding has_history order_runs consistent_runs
mismatch-consistent_runs e e' [] state h k s differ = absurd (ground arith)
mismatch-consistent_runs e e' (r ∷ rs) state h k s differ =
    let n = e.attempt_count in
    let o = ended-IsOrdered (n - 1) rs (ground arith) in
    let number : r.attempt_no ≡ n = ground arith in
    let positive : 0 < n = ground arith in
    let asked : same_run_state r.state (expected_current_run_state e) ≡ true = ground arith in
    let off = differ r.state (subst (λ x. same_run_state r.state x ≡ true) s asked) in
    let below =
      IsBelow-weaken (n - 1 + 1) r.attempt_no (order_runs rs) (omega (arith, number, positive))
        o.below in
    let here =
      find-last e'.attempt_count (order_runs rs) r
        (subst (λ m. IsBelow m (order_runs rs)) (number ∙ sym k) below) (number ∙ sym k) in
    rw (insert_run-last r (order_runs rs) below) (ground (arith, here, off))
