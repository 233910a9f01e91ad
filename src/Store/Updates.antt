-- ===== src/Store/Updates.antt =====
-- How an UPDATE of src/recallpack/storage.py changes what another statement counts.
use recallpack.Base.{
  ℕ, ◌+◌, Bool, true, false, not, some, List, [], ◌∷◌, ◌≡◌, refl, sym, subst, inl, inr, arith, find,
  any, All, ◌==◌, if◌then◌else◌, Bool-cases,
}
use recallpack.Store.Query.{update_where, rowcount}
use recallpack.Store.Tables.{rowcount-zero}

module _ {A : Type 0} (fits : A → Bool) (change : A → A) where
  -- The rows that fit keep what is counted.
  pub rowcount-same :
      (q : A → Bool) (xs : List A)
      → All (λ x. fits x ≡ true → q (change x) ≡ q x) xs
      → rowcount q (update_where fits change xs) ≡ rowcount q xs
  unfolding rowcount update_where
  rowcount-same q [] h = refl
  rowcount-same q (x ∷ xs) h =
      let rest = rowcount-same q xs h.1 in
      elim (Bool-cases (fits x)) [
        | inl hit ↦ rw (hit, h.0 hit, rest) refl
        | inr miss ↦ rw (miss, rest) refl
      ]

  -- The rows that fit were counted, and are no longer.
  pub rowcount-ended :
      (q : A → Bool) (xs : List A)
      → All (λ x. fits x ≡ true → (q x ≡ true) × (q (change x) ≡ false)) xs
      → rowcount q (update_where fits change xs) + rowcount fits xs ≡ rowcount q xs
  unfolding rowcount update_where
  rowcount-ended q [] h = refl
  rowcount-ended q (x ∷ xs) h =
      let rest = rowcount-ended q xs h.1 in
      elim (Bool-cases (fits x)) [
        | inl hit ↦ let (before, after) = h.0 hit in rw (hit, before, after) (omega (arith, rest))
        | inr miss ↦ rw miss (omega (arith, rest))
      ]

  pub All-update :
      (P : A → Type 0) (xs : List A)
      → All P xs
      → All (λ x. fits x ≡ true → P x → P (change x)) xs
      → All P (update_where fits change xs)
  unfolding update_where
  All-update P [] h k = tt
  All-update P (x ∷ xs) h k = elim (Bool-cases (fits x)) [
    | inl hit ↦ rw hit (k.0 hit h.0, All-update P xs h.1 k.1)
    | inr miss ↦ rw miss (h.0, All-update P xs h.1 k.1)
  ]

module _ {A : Type 0} where
  pub rowcount-positive :
      (p q : A → Bool) (xs : List A) (x : A)
      → find q xs ≡ some x
      → p x ≡ true
      → (n : ℕ) × (rowcount p xs ≡ n + 1)
  unfolding rowcount find
  rowcount-positive p q [] x h k = absurd (ground arith)
  rowcount-positive p q (y ∷ ys) x h k = elim (Bool-cases (q y)) [
    | inl hit ↦
        let same : y ≡ x = ground arith in
        let counted : p y ≡ true = subst (λ z. p z ≡ true) (sym same) k in
        (rowcount p ys, rw counted (omega arith))
    | inr miss ↦
        let (n, more) = rowcount-positive p q ys x (ground arith) k in
        ((if p y then 1 else 0) + n, omega (arith, more))
  ]

  pub none_counted :
      (p : A → Bool) (P : A → Type 0) (xs : List A)
      → All (λ x. p x ≡ false) xs
      → All (λ x. p x ≡ true → P x) xs
  none_counted p P [] z = tt
  none_counted p P (y ∷ ys) z = (λ c. absurd (ground (arith, z.0)), none_counted p P ys z.1)

  pub All-find :
      (P : A → Type 0) (q : A → Bool) (xs : List A) (x : A) → All P xs → find q xs ≡ some x → P x
  unfolding find
  All-find P q [] x h k = absurd (ground arith)
  All-find P q (y ∷ ys) x h k = elim (Bool-cases (q y)) [
    | inl found ↦ let same : y ≡ x = ground arith in subst P same h.0
    | inr other ↦ All-find P q ys x h.1 (ground arith)
  ]

  -- With one row counted, a row of the table that fits is every row that fits.
  pub counted_only :
      (p q : A → Bool) (xs : List A) (x : A)
      → rowcount p xs ≡ 1
      → find q xs ≡ some x
      → p x ≡ true
      → All (λ y. p y ≡ true → y ≡ x) xs
  unfolding rowcount find
  counted_only p q [] x h f k = tt
  counted_only p q (y ∷ ys) x h f k = elim (Bool-cases (p y)) [
    | inr miss ↦
        let later : find q ys ≡ some x = elim (Bool-cases (q y)) [
          | inl found ↦
              let same : y ≡ x = ground arith in
              let counted : p y ≡ true = subst (λ z. p z ≡ true) (sym same) k in
              absurd (ground arith)
          | inr other ↦ ground arith
        ] in
        (λ c. absurd (ground arith), counted_only p q ys x (ground arith) later k)
    | inl hit ↦
        let zero_more : rowcount p ys ≡ 0 = ground arith in
        (
          λ c. elim (Bool-cases (q y)) [
            | inl found ↦ ground arith
            | inr other ↦
                let (n, more) = rowcount-positive p q ys x (ground arith) k in
                absurd (omega (arith, more, zero_more))
          ],
          none_counted p (λ z. z ≡ x) ys (rowcount-zero p ys zero_more),
        )
  ]

  pub any-rowcount_zero : (p : A → Bool) (xs : List A) → any p xs ≡ not (rowcount p xs == 0)
  unfolding any rowcount
  any-rowcount_zero p [] = refl
  any-rowcount_zero p (x ∷ xs) = ground (arith, any-rowcount_zero p xs)
